-- ===== src/Ton/Broadcaster/Unsent.antt =====
-- The worker of relayer_base/src/includer_worker.rs with the broadcaster of ton/src/broadcaster.rs.
use axelar_relayer.Base.{
  ◌-◌, ◌≡◌, ℕ, arith, ltb, Bool, true, false, String, List, [], ◌∷◌, Result, Result-cases, inl, inr,
  ok, err, is_ok, Outcome, done, fail, panic, any_of, calls, outcome, is_done, length, unwrap_or,
}
use axelar_relayer.Base.Texts.{parse_u64}
use axelar_relayer.Gmp.Task.{ExecuteTask, RefundTask, RefundTaskFields}
use axelar_relayer.Gmp.Event.{CannotExecuteMessageReason}
use axelar_relayer.Gmp.Errors.{BroadcasterError, broadcaster_text}
use axelar_relayer.Includer.{IncluderCall, cannot_execute_message}
use axelar_relayer.Includer
use axelar_relayer.Includer.Execute.{consume_execute}
use axelar_relayer.Includer.Refund.{consume_refund}
use axelar_relayer.Ton.GasEstimator.{
  execute_estimate, highload_wallet_send, native_gas_refund_estimate,
}
use axelar_relayer.Ton.Broadcaster.{
  TonWalletHighLoadV3, TonTransaction, NativeRefundMessage, TonCall, next_query_id, Env,
  TonBroadcaster, send_to_chain, parse_u64, without_0x, broadcast_execute_message,
  broadcast_refund_message, refund_with, refund_of, with_wallet, refund_dust,
}

abbrev pub is_query : TonCall → Bool
is_query (next_query_id _ _) = true
is_query _ = false

-- The outcome of an operation is what its caller is answered.
abbrev pub IsAnswer : {A : Type 0} → Outcome A BroadcasterError → Result A BroadcasterError → Type 0
IsAnswer (done a) (ok x) = a ≡ x
IsAnswer (fail e) (err f) = e ≡ f
IsAnswer _ _ = ⊥

module _ {O W : Type 0} (b : TonBroadcaster) (env : Env O)
    (worker : Includer.Env W TonTransaction) where
  -- An execute task never panics the worker of the TON chain: a result whose status is `Ok` has the
  -- message id and the source chain of the task.
  pub execute_never_panics :
      (t : ExecuteTask)
      → IsAnswer (outcome (broadcast_execute_message b env t.task)) (worker.execute_message t.task)
      → ¬ (outcome (consume_execute worker t) ≡ panic)
  unfolding broadcast_execute_message consume_execute
  execute_never_panics t a h = ground arith

  -- An execute task that is well encoded, with less gas than the estimate, makes no call to the chain
  -- or to the pool of wallets. It is reported to the GMP API as not executable for lack of gas, and
  -- nothing else is done for it.
  pub poor_execute_reported :
      (t : ExecuteTask) (address payload : String) (n : ℕ)
      → IsAnswer (outcome (broadcast_execute_message b env t.task)) (worker.execute_message t.task)
      → env.parse_address t.task.message.destination_address ≡ ok address
      → env.decode t.task.payload ≡ ok (n, payload)
      → ltb
          (unwrap_or (parse_u64 t.task.available_gas_balance.amount) 0)
          (execute_estimate b.gas_estimator n)
        ≡ true
      → (calls (broadcast_execute_message b env t.task) ≡ [])
        × (calls (consume_execute worker t)
            ≡ Includer.broadcast_execute_message t.task
              ∷ cannot_execute_message t.common.id t.task.message.message_id
                  t.task.message.source_chain
                  (broadcaster_text (BroadcasterError.insufficient_gas "Cannot proceed to execute"))
                  CannotExecuteMessageReason.insufficient_gas
              ∷ [])
  unfolding broadcast_execute_message consume_execute
  poor_execute_reported t address payload n a p d g = (ground arith, ground arith)

  module _ (refused : (boc : String) → is_ok (env.posted boc) ≡ false) where
    send_refused :
        (w : TonWalletHighLoadV3) (actions : List O)
        → is_done (outcome (send_to_chain b env w actions)) ≡ false
    unfolding send_to_chain
    send_refused w actions = elim (Result-cases (env.query_id w.address w.timeout)) [
      | inl (id, q) ↦
          elim (Result-cases (
            env.outgoing_message w actions id
              (highload_wallet_send b.gas_estimator (length actions)))) [
                | inl (boc, r) ↦ ground (arith, refused boc)
                | inr (e, r) ↦ ground arith
              ]
      | inr (e, q) ↦ ground arith
    ]

    refund_with-unsent :
        (boc : String) (w : TonWalletHighLoadV3)
        → any_of is_query (calls (refund_with b env boc w)) ≡ true
        → outcome (refund_with b env boc w) ≡ done ""
    unfolding refund_with
    refund_with-unsent boc w h =
        elim (Result-cases (env.out_action boc refund_dust b.gas_service_address)) [
          | inl (action, q) ↦ ground (arith, send_refused w (action ∷ []))
          | inr (e, q) ↦ absurd (ground arith)
        ]

    refund_of-unsent :
        (m : NativeRefundMessage)
        → any_of is_query (calls (refund_of b env m)) ≡ true
        → outcome (refund_of b env m) ≡ done ""
    unfolding refund_of with_wallet
    refund_of-unsent m h = elim (Result-cases (env.native_refund m)) [
      | inl (boc, q) ↦ elim (Result-cases env.acquired) [
        | inl (w, r) ↦ ground (arith, refund_with-unsent boc w)
        | inr (e, r) ↦ absurd (ground arith)
      ]
      | inr (e, q) ↦ absurd (ground arith)
    ]

    refund-unsent :
        (t : RefundTaskFields)
        → any_of is_query (calls (broadcast_refund_message b env t)) ≡ true
        → outcome (broadcast_refund_message b env t) ≡ done ""
    unfolding broadcast_refund_message
    refund-unsent t h = elim (Result-cases (env.hash_of_hex (without_0x t.message.message_id))) [
      | inl (hash, q) ↦ elim (Result-cases (env.address_of_hex t.refund_recipient_address)) [
        | inl (address, r) ↦
            elim (Result-cases (env.parse_biguint t.remaining_gas_balance.amount)) [
              | inl (original, s) ↦
                  let kept = refund_of-unsent (record {
                    tx_hash = hash;
                    address = address;
                    amount = original - native_gas_refund_estimate b.gas_estimator;
                  }) in
                  ground (arith, kept)
              | inr (e, s) ↦ absurd (ground arith)
            ]
        | inr (e, r) ↦ absurd (ground arith)
      ]
      | inr (e, q) ↦ absurd (ground arith)
    ]

  -- If the client of the chain refuses every message, a refund that gets as far as asking for a
  -- query id ends well, with the empty text as its hash, and the worker, which does not look at the
  -- hash, takes the task as done.
  pub unsent_refund_settled :
      (t : RefundTask)
      → worker.is_refund_manager_managed ≡ false
      → IsAnswer (outcome (broadcast_refund_message b env t.task)) (worker.refund_message t.task)
      → ((boc : String) → is_ok (env.posted boc) ≡ false)
      → any_of is_query (calls (broadcast_refund_message b env t.task)) ≡ true
      → (outcome (broadcast_refund_message b env t.task) ≡ done "")
        × (outcome (consume_refund worker t) ≡ done tt)
  unfolding broadcast_refund_message consume_refund
  unsent_refund_settled t m a refused q =
      let unsent = refund-unsent refused t.task q in (unsent, ground (arith, unsent))
