-- ===== src/Includer/Refund.antt =====
-- The refunds of relayer_base/src/includer_worker.rs.
use axelar_relayer.Base.{
  ◌≡◌, Bool, true, false, not, ◌&&◌, Option, none, some, List, [], ◌∷◌, ◌++◌, String, if◌then◌else◌,
  is_some, any_of, Result, Result-cases, inl, inr, ok, err, is_ok, Exec, ◌>>=◌, ◌>>◌, pure, raise,
  call, ask, calls, outcome, arith, count_if, is_done, log_error,
}
use axelar_relayer.Gmp.Task.{RefundTask}
use axelar_relayer.Gmp.Event.{Event}
use axelar_relayer.Gmp.Errors.{
  IncluderError, RefundManagerError, BroadcasterError, gmp_api_text, broadcaster_text,
  refund_manager_text,
}
use axelar_relayer.Includer.{
  IncluderCall, broadcast_refund, broadcast_refund_message, post_events, is_refund_processed,
  get_wallet_lock, build_refund_tx, release_wallet_lock, Env, consumer_error,
}

abbrev pub gas_refunded : RefundTask → String → String → String → Event
gas_refunded t tx_hash refunded_amount fee = Event.gas_refunded (record {
  common = record { type = "GAS_REFUNDED"; event_id = tx_hash; meta = none };
  message_id = t.task.message.message_id;
  recipient_address = t.task.refund_recipient_address;
  refunded_amount = record { token_id = none; amount = refunded_amount };
  cost = record { token_id = none; amount = fee };
})

module _ {W T : Type 0} (env : Env W T) where
  release : W → Exec (IncluderCall W) IncluderError (Unit {0})
  release wallet =
      call (release_wallet_lock wallet) (consumer_error refund_manager_text (env.release wallet))

  -- an error of the post is only logged
  refund_broadcast :
      RefundTask → W → String × String × String → Exec (IncluderCall W) IncluderError (Unit {0})
  unfolding release
  refund_broadcast t wallet (tx_blob, refunded_amount, fee) = do
    answer ← ask (broadcast_refund tx_blob) (consumer_error broadcaster_text (env.refund tx_blob))
    elim answer [
      | err e ↦ do release wallet; raise e
      | ok tx_hash ↦
          let event = gas_refunded t tx_hash refunded_amount fee ∷ [] in
          log_error (call (post_events event) (consumer_error gmp_api_text (env.post event)))
    ]

  refund_with : RefundTask → W → Exec (IncluderCall W) IncluderError (Unit {0})
  unfolding refund_broadcast
  refund_with t wallet = do
    let recipient = t.task.refund_recipient_address
    let amount = t.task.remaining_gas_balance.amount
    refund_info ←
        call (build_refund_tx recipient amount t.common.id wallet)
          (consumer_error refund_manager_text (env.refund_tx recipient amount t.common.id wallet))
    elim refund_info [ some info ↦ refund_broadcast t wallet info | none ↦ pure tt ]
    release wallet

  unprocessed_refund : RefundTask → Exec (IncluderCall W) IncluderError (Unit {0})
  unfolding refund_with
  unprocessed_refund t =
      if is_some t.task.remaining_gas_balance.token_id
      then raise (IncluderError.generic_error "Refund task with token_id is not supported")
      else (do
        wallet ← call get_wallet_lock (consumer_error refund_manager_text env.wallet_lock)
        refund_with t wallet)

  managed_refund : RefundTask → Exec (IncluderCall W) IncluderError (Unit {0})
  unfolding unprocessed_refund
  managed_refund t = do
    processed ←
        call (is_refund_processed t t.common.id)
          (consumer_error refund_manager_text (env.refund_processed t t.common.id))
    if processed then pure tt else unprocessed_refund t

  refund_refused : BroadcasterError → Exec (IncluderCall W) IncluderError (Unit {0})
  refund_refused (BroadcasterError.insufficient_gas _) = pure tt
  refund_refused e = raise (IncluderError.generic_error (broadcaster_text e))

  unmanaged_refund : RefundTask → Exec (IncluderCall W) IncluderError (Unit {0})
  unfolding refund_refused
  unmanaged_refund t = do
    answer ← ask (broadcast_refund_message t.task) (env.refund_message t.task)
    elim answer [ ok _ ↦ pure tt | err e ↦ refund_refused e ]

  unfoldable pub consume_refund : RefundTask → Exec (IncluderCall W) IncluderError (Unit {0})
  unfolding managed_refund unmanaged_refund
  consume_refund t =
      if not env.is_refund_manager_managed then unmanaged_refund t else managed_refund t

abbrev pub is_release : {W : Type 0} → IncluderCall W → Bool
is_release (release_wallet_lock _) = true
is_release _ = false

abbrev pub is_lock : {W : Type 0} → IncluderCall W → Bool
is_lock get_wallet_lock = true
is_lock _ = false

abbrev pub is_broadcast : {W : Type 0} → IncluderCall W → Bool
is_broadcast (broadcast_refund _) = true
is_broadcast _ = false

abbrev pub posted : {W : Type 0} → List (IncluderCall W) → List Event
posted [] = []
posted (post_events es ∷ cs) = es ++ posted cs
posted (_ ∷ cs) = posted cs

module _ {W T : Type 0} (env : Env W T) (t : RefundTask) where
  abbrev built : W → Result (Option (String × String × String)) RefundManagerError
  built w =
      env.refund_tx t.task.refund_recipient_address t.task.remaining_gas_balance.amount t.common.id
        w

  -- A refund that takes the lock of a wallet releases it exactly once if the transaction could be
  -- built, whatever the broadcast, the post and the release answer, and whether or not there is
  -- anything to refund. If it could not be built, the lock is not released at all.
  pub release_iff_built :
      (w : W)
      → env.wallet_lock ≡ ok w
      → any_of is_lock (calls (consume_refund env t)) ≡ true
      → count_if is_release (calls (consume_refund env t)) ≡ (if is_ok (built w) then 1 else 0)
  unfolding consume_refund
  release_iff_built w e l = ground arith

  -- A refund transaction that is broadcast is broadcast once, and only if the refund manager said
  -- that the refund was not processed before, its amount is not in a token, and a wallet was locked
  -- for it.
  pub broadcast_guarded :
      any_of is_broadcast (calls (consume_refund env t)) ≡ true
      → (count_if is_broadcast (calls (consume_refund env t)) ≡ 1)
        × (env.refund_processed t t.common.id ≡ ok false)
        × (t.task.remaining_gas_balance.token_id ≡ none)
        × (is_ok env.wallet_lock ≡ true)
  unfolding consume_refund
  broadcast_guarded h = (ground arith, ground arith, ground arith, ground arith)

  -- A refund that the relayer manages, not processed before and not in a token, for which a wallet is
  -- locked and a transaction is built, posts one `GasRefunded` event, with the hash that the
  -- broadcast returned and the amount and the fee of the transaction, if the broadcast succeeds, and
  -- no event if it fails. It ends well exactly if the broadcast and the release of the wallet do.
  pub refund_event :
      (w : W) (blob amount fee : String)
      → env.is_refund_manager_managed ≡ true
      → env.refund_processed t t.common.id ≡ ok false
      → t.task.remaining_gas_balance.token_id ≡ none
      → env.wallet_lock ≡ ok w
      → built w ≡ ok (some (blob, amount, fee))
      → (posted (calls (consume_refund env t)) ≡ elim (env.refund blob) [
        | ok tx_hash ↦ gas_refunded t tx_hash amount fee ∷ []
        | err _ ↦ []
      ])
        × (is_done (outcome (consume_refund env t))
            ≡ (is_ok (env.refund blob) && is_ok (env.release w)))
  unfolding consume_refund
  refund_event w blob amount fee m p k l b = elim (Result-cases (env.refund blob)) [
    | inl (h, e) ↦ (ground arith, ground arith)
    | inr (x, e) ↦ (ground arith, ground arith)
  ]
