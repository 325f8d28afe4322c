-- ===== src/Includer/Consume.antt =====
-- The dispatch of relayer_base/src/includer_worker.rs and the consumer of
-- relayer_base/src/includer.rs.
use axelar_relayer.Base.{
  is_panic, ◌≡◌, ◌≢◌, true, false, List, String, if◌then◌else◌, arith, Bool-cases, Result, inl, inr,
  is_ok, map_err, Outcome, done, fail, panic, Exec, ◌>>=◌, raise, lift, calls, outcome, count_if,
  concat,
}
use axelar_relayer.Gmp.Task.{Task}
use axelar_relayer.Gmp.Errors.{IncluderError}
use axelar_relayer.Queue.{QueueItem, Delivery, Codec, Answers, AmqpCall}
use axelar_relayer.Queue.Republish.{is_settle}
use axelar_relayer.Queue.Consumer.{Verdict, settle, settle_once, settle_panicked}
use axelar_relayer.Includer.{IncluderCall, Env}
use axelar_relayer.Includer.Execute.{consume_execute}
use axelar_relayer.Includer.Gateway.{consume_gateway_tx}
use axelar_relayer.Includer.Refund.{consume_refund}

unfoldable pub verdict : Outcome (Unit {0}) IncluderError → Verdict
verdict (done _) = Verdict.handled
verdict (fail IncluderError.irrelevant_task) = Verdict.irrelevant
verdict (fail _) = Verdict.failed
verdict panic = Verdict.panicked

module _ {W T : Type 0} (env : Env W T) where
  unfoldable pub consume_task : Task → Exec (IncluderCall W) IncluderError (Unit {0})
  consume_task (Task.execute t) = consume_execute env t
  consume_task (Task.gateway_tx t) = consume_gateway_tx env t
  consume_task (Task.refund t) = consume_refund env t
  consume_task (Task.verify _) = raise IncluderError.irrelevant_task
  consume_task (Task.construct_proof _) = raise IncluderError.irrelevant_task
  consume_task (Task.react_to_wasm_event _) = raise IncluderError.irrelevant_task
  consume_task (Task.react_to_expired_signing_session _) = raise IncluderError.irrelevant_task
  consume_task (Task.react_to_retriable_poll _) = raise IncluderError.irrelevant_task
  consume_task (Task.unknown _) = raise IncluderError.irrelevant_task

  unfoldable pub consume :
      {Tx : Type 0} → QueueItem Tx → Exec (IncluderCall W) IncluderError (Unit {0})
  unfolding consume_task
  consume (QueueItem.task t) = consume_task t
  consume (QueueItem.transaction _) = raise (IncluderError.generic_error "Invalid queue item")
  consume (QueueItem.retry_construct_proof _) =
      raise (IncluderError.generic_error "Invalid queue item")

  unfoldable pub process_delivery :
      {Tx D : Type 0}
      → (D → Result (QueueItem Tx) String)
      → D
      → Exec (IncluderCall W) IncluderError (Unit {0})
  unfolding consume
  process_delivery from_slice d = do
    item ←
        lift (map_err (λ e. IncluderError.generic_error (concat "Invalid JSON: " e)) (from_slice d))
    consume item

  -- the worker's calls, and then those that settle the delivery
  unfoldable pub on_delivery :
      {Tx D V : Type 0}
      → Codec Tx D V
      → Answers V
      → Delivery D V
      → List (IncluderCall W) × Exec (AmqpCall Tx D V) String (Unit {0})
  unfolding process_delivery verdict
  on_delivery c a d =
      let worked = process_delivery c.from_slice d.data' in
      (calls worked, settle c a d (verdict (outcome worked)))

module _ {W T : Type 0} (env : Env W T) where
  verdict_of :
      (o : Outcome (Unit {0}) IncluderError) → is_panic o ≡ false → verdict o ≢ Verdict.panicked
  unfolding verdict
  verdict_of o h e = ground arith

  panic_verdict :
      (o : Outcome (Unit {0}) IncluderError) → is_panic o ≡ true → verdict o ≡ Verdict.panicked
  unfolding verdict
  panic_verdict o h = ground arith

  unread_fails :
      {Tx D : Type 0} (from_slice : D → Result (QueueItem Tx) String) (d : D)
      → is_ok (from_slice d) ≡ false
      → verdict (outcome (process_delivery env from_slice d)) ≡ Verdict.failed
  unfolding process_delivery verdict
  unread_fails from_slice d e = ground arith

  -- The includer's consumer settles each delivery of a queue item exactly once, unless the worker
  -- panics: then it is not settled at all. A delivery of anything else is never settled.
  pub includer_settles :
      {Tx D V : Type 0} (c : Codec Tx D V) (a : Answers V) (d : Delivery D V)
      → count_if is_settle (calls (on_delivery env c a d).1) ≡ (
          if is_panic (outcome (process_delivery env c.from_slice d.data'))
          then 0
          else if is_ok (c.from_slice d.data')
          then 1
          else 0)
  unfolding on_delivery
  includer_settles c a d =
      let o = outcome (process_delivery env c.from_slice d.data') in
      elim (Bool-cases (is_panic o)) [
        | inl p ↦ rw (p, panic_verdict o p, settle_panicked c a d)
        | inr q ↦
            let once = settle_once c a d (verdict o) (verdict_of o q) in
            ground (arith, q, once, unread_fails c.from_slice d.data')
      ]
