-- ===== src/Includer/Execute.antt =====
-- The execute tasks of relayer_base/src/includer_worker.rs.
use axelar_relayer.Base.{
  ◌≡◌, ◌↔◌, Bool, true, false, not, ◌&&◌, Option, some, [], String, if◌then◌else◌, ok, err, is_ok,
  panic, Exec, ◌>>=◌, ◌>>◌, pure, raise, lift, call, ask, calls, outcome, arith, count_if, is_done,
  Result-cases, inl, inr,
}
use axelar_relayer.Gmp.Task.{ExecuteTask}
use axelar_relayer.Gmp.Event.{CannotExecuteMessageReason}
use axelar_relayer.Gmp.Errors.{IncluderError, BroadcasterError, gmp_api_text, broadcaster_text}
use axelar_relayer.Includer.{
  BroadcastResult, IncluderCall, broadcast_execute_message, cannot_execute_message, Env,
  broadcast_result_has_message, or_consumer_error, consumer_error,
}

-- The reason that is reported, and whether the task is tried again.
unfoldable pub failure_reason : BroadcasterError → CannotExecuteMessageReason × Bool
failure_reason (BroadcasterError.insufficient_gas _) =
    (CannotExecuteMessageReason.insufficient_gas, false)
failure_reason _ = (CannotExecuteMessageReason.error, true)

module _ {W T : Type 0} (env : Env W T) where
  report_failure :
      ExecuteTask
      → BroadcastResult T
      → BroadcasterError
      → CannotExecuteMessageReason
      → Exec (IncluderCall W) IncluderError (Unit {0})
  report_failure t result e gmp_error = do
    message_id ← lift (or_consumer_error result.message_id "Message ID is missing")
    source_chain ← lift (or_consumer_error result.source_chain "Source chain is missing")
    call (cannot_execute_message t.common.id message_id source_chain (broadcaster_text e) gmp_error)
        (consumer_error gmp_api_text (env.cannot_execute message_id source_chain))

  -- the part behind a broadcast whose status is an error
  execute_failed :
      ExecuteTask
      → BroadcastResult T
      → BroadcasterError
      → Exec (IncluderCall W) IncluderError (Unit {0})
  unfolding failure_reason report_failure
  execute_failed t result e = do
    let (gmp_error, retry) = failure_reason e
    if broadcast_result_has_message result then report_failure t result e gmp_error else pure tt
    if not retry then pure tt else raise (IncluderError.consumer_error (broadcaster_text e))

  -- `unreachable!` panics
  execute_broadcast :
      ExecuteTask → BroadcastResult T → Exec (IncluderCall W) IncluderError (Unit {0})
  unfolding execute_failed
  execute_broadcast t result =
      if broadcast_result_has_message result && is_ok result.status
      then pure tt
      else elim result.status [ ok _ ↦ (panic, []) | err e ↦ execute_failed t result e ]

  -- a broadcast that gave no result
  execute_refused : BroadcasterError → Exec (IncluderCall W) IncluderError (Unit {0})
  execute_refused (BroadcasterError.irrelevant_task _) = pure tt
  execute_refused e = raise (IncluderError.consumer_error (broadcaster_text e))

  unfoldable pub consume_execute : ExecuteTask → Exec (IncluderCall W) IncluderError (Unit {0})
  unfolding execute_broadcast execute_refused
  consume_execute t = do
    answer ← ask (broadcast_execute_message t.task) (env.execute_message t.task)
    elim answer [ ok result ↦ execute_broadcast t result | err e ↦ execute_refused e ]

abbrev pub is_report : {W : Type 0} → IncluderCall W → Bool
is_report (cannot_execute_message _ _ _ _ _) = true
is_report _ = false

abbrev pub is_insufficient_gas : BroadcasterError → Bool
is_insufficient_gas (BroadcasterError.insufficient_gas _) = true
is_insufficient_gas _ = false

-- Whether the GMP API took the report; there is none to take if the message is unknown.
abbrev pub report_taken : {W T : Type 0} → Env W T → Option String → Option String → Bool
report_taken env (some m) (some c) = is_ok (env.cannot_execute m c)
report_taken env _ _ = true

module _ {W T : Type 0} (env : Env W T) (t : ExecuteTask) where
  -- An execute task panics exactly when the broadcaster answers with the status `Ok` and without
  -- a message id or without a source chain.
  pub execute_panics_iff : (outcome (consume_execute env t) ≡ panic) ↔ (
      (r : BroadcastResult T) × (env.execute_message t.task ≡ ok r)
      × (is_ok r.status ≡ true)
      × (broadcast_result_has_message r ≡ false))
  unfolding consume_execute
  execute_panics_iff = (
    λ h. elim (Result-cases (env.execute_message t.task)) [
      | inl (r, q) ↦ (r, q, ground arith, ground arith)
      | inr (e, q) ↦ absurd (ground arith)
    ],
    λ h. let (r, q, s, m) = h in ground arith,
  )

  -- A broadcast whose status is an error is reported to the GMP API once if the message is known,
  -- and not if it is unknown. The task is then done with, and not tried again, exactly if the error
  -- is `InsufficientGas` and the API took the report.
  pub execute_failure_reported :
      (r : BroadcastResult T) (e : BroadcasterError)
      → env.execute_message t.task ≡ ok r
      → r.status ≡ err e
      → (count_if is_report (calls (consume_execute env t))
          ≡ (if broadcast_result_has_message r then 1 else 0))
        × (is_done (outcome (consume_execute env t))
            ≡ (is_insufficient_gas e && report_taken env r.message_id r.source_chain))
  unfolding consume_execute
  execute_failure_reported r e p q = (ground arith, ground arith)
