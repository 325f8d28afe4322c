-- ===== src/Examples/Workers.antt =====
-- The theorems on the workers of the ingestor and of the includer, on concrete tasks and answers.
use axelar_relayer.Base.{
  ◌≡◌, ◌↔◌, refl, true, false, Option, some, none, [], ◌∷◌, ok, err, is_ok, calls, panic, done,
  outcome, String, count_if, Result,
}
use axelar_relayer.Gmp.Event.{Event}
use axelar_relayer.Gmp.Errors.{BroadcasterError, RefundManagerError}
use axelar_relayer.Queue.Republish.{is_settle}
use axelar_relayer.Ingestor.{Handlers, consume_transaction}
use axelar_relayer.Ingestor
use axelar_relayer.Ingestor.Delivery.{is_post, consume_transaction_posts}
use axelar_relayer.Ingestor.Delivery
use axelar_relayer.Includer.{
  BroadcastResult, Env, broadcast_prover_message, broadcast_result_has_message,
}
use axelar_relayer.Includer.Execute.{consume_execute, execute_panics_iff}
use axelar_relayer.Includer.Refund.{consume_refund, is_release, release_iff_built}
use axelar_relayer.Includer.Consume.{includer_settles}
use axelar_relayer.Includer.Consume
use axelar_relayer.Includer
use axelar_relayer.Examples.Fixtures.{codec, broker, delivery, execute_task, refund_task}

abbrev credited : Event
credited = Event.gas_refunded (record {
  common = record { type = "GAS_REFUNDED"; event_id = "e"; meta = none };
  message_id = "0x01";
  recipient_address = "r";
  refunded_amount = record { token_id = none; amount = "4" };
  cost = record { token_id = none; amount = "1" };
})

-- the event of each transaction is refused, but not to be posted again
abbrev handlers : Handlers String
handlers = record {
  verify = λ t. done tt;
  transaction = λ tx. done (credited ∷ []);
  wasm_event = λ t. done tt;
  construct_proof = λ t. done tt;
  retriable_task = λ t. done tt;
  post = λ es.
      ok (record { status = "REJECTED"; index = 0; error = none; retriable = some false } ∷ []);
}

abbrev result : Option String → Result (Unit {0}) BroadcasterError → BroadcastResult String
result m status = record {
  transaction = "tx";
  tx_hash = "h";
  status = status;
  message_id = m;
  source_chain = m;
}

-- a chain that answers every broadcast with the result `r`
abbrev env : BroadcastResult String → Env String String
env r = record {
  prover_message = λ b. ok r;
  refund = λ b. ok "h";
  execute_message = λ t. ok r;
  refund_message = λ t. ok "h";
  cannot_execute = λ m s. ok tt;
  post = λ es. ok tt;
  incr = λ k. ok tt;
  expire = λ k. ok tt;
  clear = λ k. ok tt;
  cross_chain_id = λ s m. ok "x_x";
  decode = λ d. ok "blob";
  is_refund_manager_managed = true;
  refund_processed = λ t i. ok false;
  wallet_lock = ok "wallet";
  refund_tx = λ r a i w. ok (some ("blob", "4", "1"));
  release = λ w. ok tt;
}

abbrev failed : Result (Unit {0}) BroadcasterError
failed = err (BroadcasterError.insufficient_gas "low")

includer_settles_example :
    count_if is_settle (
      calls
        (Includer.Consume.on_delivery (env (result none (ok tt))) codec broker (delivery none)).1)
    ≡ 1
unfolding Includer.Consume.process_delivery Includer.Consume.consume Includer.Consume.consume_task
includer_settles_example = includer_settles (env (result none (ok tt))) codec broker (delivery none)

execute_panics_iff_example :
    (outcome (consume_execute (env (result none (ok tt))) execute_task) ≡ panic) ↔ (
      (r : BroadcastResult String) × ((env (result none (ok tt))).execute_message execute_task.task
        ≡ ok r)
      × (is_ok r.status ≡ true)
      × (broadcast_result_has_message r ≡ false))
execute_panics_iff_example = execute_panics_iff (env (result none (ok tt))) execute_task

-- the transaction of a refund cannot be built
abbrev unbuilt : Env String String
unbuilt = record (env (result none failed)) {
  refund_tx = λ r a i w. err (RefundManagerError.generic_error "no");
}

release_iff_built_example : count_if is_release (calls (consume_refund unbuilt refund_task)) ≡ 0
unfolding consume_refund
release_iff_built_example = release_iff_built unbuilt refund_task "wallet" refl refl

abbrev refunding : Env String String
refunding = env (result none failed)
