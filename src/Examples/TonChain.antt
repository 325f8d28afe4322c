-- ===== src/Examples/TonChain.antt =====
-- The theorems on the broadcaster, the parser and the ingestor of the TON chain, on a chain that
-- refuses every message and on a trace with one approval.
use axelar_relayer.Base.{
  ◌≡◌, refl, false, String, none, some, [], ◌∷◌, ok, err, done, panic, outcome, calls,
}
use axelar_relayer.Base.Texts.{parse_u64}
use axelar_relayer.Gmp.Task.{ExecuteTaskFields, RefundTaskFields}
use axelar_relayer.Gmp.Event.{CannotExecuteMessageReason}
use axelar_relayer.Gmp.Errors.{BroadcasterError, broadcaster_text}
use axelar_relayer.Includer
use axelar_relayer.Includer.{cannot_execute_message}
use axelar_relayer.Includer.Execute.{consume_execute}
use axelar_relayer.Includer.Refund.{consume_refund}
use axelar_relayer.Ton.GasEstimator.{execute_estimate}
use axelar_relayer.Ton.Broadcaster.{
  TonTransaction, TonBroadcaster, broadcast_prover_message, broadcast_execute_message,
  broadcast_refund_message,
}
use axelar_relayer.Ton.Broadcaster
use axelar_relayer.Ton.Broadcaster.Held.{IsBracketed, wallet_released}
use axelar_relayer.Ton.Broadcaster.Unsent.{
  execute_never_panics, poor_execute_reported, unsent_refund_settled,
}
use axelar_relayer.Examples.Fixtures.{execute_task, refund_task}

abbrev broadcaster : TonBroadcaster
broadcaster = record {
  gateway_address = "gateway";
  gas_service_address = "gas";
  chain_name = "ton";
  gas_estimator = record {
    native_gas_refund = 2;
    native_gas_refund_storage_slippage = 1;
    execute_send_min = 1;
    execute_base = 6;
    execute_payload = 1;
    execute_storage_slippage = 1;
    approve_send = 1;
    highload_wallet_send = 1;
  };
}

-- an action is its text
abbrev chain : Broadcaster.Env String
chain = record {
  acquired = ok (record { address = "w"; timeout = 60 });
  query_id = λ w t. ok 1;
  posted = λ boc. err "unreachable";
  outgoing_message = λ w actions id value. ok "message";
  out_action = λ boc value address. ok boc;
  approve_messages = λ blob. ok (record { message_id = "0x01"; source_chain = "axelar" } ∷ []);
  native_refund = λ m. ok "refund";
  relayer_execute = λ m. ok "execute";
  parse_address = λ a. ok a;
  address_of_hex = λ a. ok a;
  hash_of_hex = λ h. ok h;
  parse_biguint = λ s. ok 5;
  decode = λ s. ok (1, s);
}

-- the worker with this broadcaster, which finds the execute task too poor
abbrev worker : Includer.Env String TonTransaction
worker = record {
  prover_message = λ blob. err (BroadcasterError.generic_error "");
  refund = λ blob. ok "";
  execute_message = λ t. ok (record {
    transaction = record {};
    tx_hash = "";
    status = err (BroadcasterError.insufficient_gas "Cannot proceed to execute");
    message_id = some t.message.message_id;
    source_chain = some t.message.source_chain;
  });
  refund_message = λ t. ok "";
  cannot_execute = λ m c. ok tt;
  post = λ es. ok tt;
  incr = λ k. ok tt;
  expire = λ k. ok tt;
  clear = λ k. ok tt;
  cross_chain_id = λ c m. ok m;
  decode = λ s. ok s;
  is_refund_manager_managed = false;
  refund_processed = λ t id. ok false;
  wallet_lock = ok "w";
  refund_tx = λ r a id w. ok none;
  release = λ w. ok tt;
}

wallet_released_example :
    ((blob : String)
      → IsBracketed chain.acquired (calls (broadcast_prover_message broadcaster chain blob)))
    × ((t : ExecuteTaskFields)
        → IsBracketed chain.acquired (calls (broadcast_execute_message broadcaster chain t)))
    × ((t : RefundTaskFields)
        → IsBracketed chain.acquired (calls (broadcast_refund_message broadcaster chain t)))
wallet_released_example = wallet_released broadcaster chain

execute_never_panics_example : ¬ (outcome (consume_execute worker execute_task) ≡ panic)
unfolding broadcast_execute_message parse_u64
execute_never_panics_example = execute_never_panics broadcaster chain worker execute_task refl

poor_execute_reported_example :
    (calls (broadcast_execute_message broadcaster chain execute_task.task) ≡ [])
    × (calls (consume_execute worker execute_task)
        ≡ Includer.broadcast_execute_message execute_task.task
          ∷ cannot_execute_message "t3" "0x01" "axelar"
              (broadcaster_text (BroadcasterError.insufficient_gas "Cannot proceed to execute"))
              CannotExecuteMessageReason.insufficient_gas
          ∷ [])
unfolding broadcast_execute_message parse_u64 execute_estimate
poor_execute_reported_example =
    poor_execute_reported broadcaster chain worker execute_task "b" "p" 1 refl refl refl refl

unsent_refund_settled_example :
    (outcome (broadcast_refund_message broadcaster chain refund_task.task) ≡ done "")
    × (outcome (consume_refund worker refund_task) ≡ done tt)
unfolding broadcast_refund_message
unsent_refund_settled_example =
    unsent_refund_settled broadcaster chain worker refund_task refl refl (λ boc. refl) refl
