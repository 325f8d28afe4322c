-- ===== src/Ingestor.antt =====
-- relayer_base/src/ingestor_worker.rs, and the `on_delivery` of relayer_base/src/ingestor.rs. The
-- chain's ingestor (`IngestorTrait`) and the GMP API enter by what they answer; a handler may panic.
pub mod Delivery
use axelar_relayer.Base.{
  ◌≡◌, Bool, true, false, not, Option, none, some, List, [], ◌∷◌, String, str_eq, if◌then◌else◌,
  unwrap_or, Result, ok, err, map_err, Outcome, perform, Exec, ◌>>=◌, ◌>>◌, pure, raise, lift, call,
  concat,
}
use axelar_relayer.Gmp.Task.{Task, VerifyTask, ReactToWasmEventTask, ConstructProofTask, RetryTask}
use axelar_relayer.Gmp.Event.{Event, PostEventResult}
use axelar_relayer.Gmp.Errors.{IngestorError, GmpApiError, gmp_api_text}
use axelar_relayer.Queue.{QueueItem}

pub data IngestorCall (Tx : Type 0) : Type 0 where
  handle_verify : VerifyTask → IngestorCall Tx
  handle_transaction : Tx → IngestorCall Tx
  handle_wasm_event : ReactToWasmEventTask → IngestorCall Tx
  handle_construct_proof : ConstructProofTask → IngestorCall Tx
  handle_retriable_task : RetryTask → IngestorCall Tx
  post_events : List Event → IngestorCall Tx

pub record Handlers (Tx : Type 0) : Type 0 where
  pub verify : VerifyTask → Outcome (Unit {0}) IngestorError
  pub transaction : Tx → Outcome (List Event) IngestorError
  pub wasm_event : ReactToWasmEventTask → Outcome (Unit {0}) IngestorError
  pub construct_proof : ConstructProofTask → Outcome (Unit {0}) IngestorError
  pub retriable_task : RetryTask → Outcome (Unit {0}) IngestorError
  pub post : List Event → Result (List PostEventResult) GmpApiError

abbrev pub is_retriable : PostEventResult → Bool
is_retriable r = elim r.retriable [ none ↦ false | some b ↦ b ]

-- The loop over the answers: the first refused event that is retriable is an error.
unfoldable pub check_results : List PostEventResult → Result (Unit {0}) IngestorError
check_results [] = ok tt
check_results (r ∷ rs) =
    let rest = check_results rs in
    if not (str_eq r.status "ACCEPTED")
    then (if is_retriable r
        then err (IngestorError.retriable_error (unwrap_or r.error ""))
        else rest)
    else rest

module _ {Tx : Type 0} (h : Handlers Tx) where
  -- a non-empty list of events is posted
  unfoldable pub post_all : List Event → Exec (IngestorCall Tx) IngestorError (Unit {0})
  unfolding check_results
  post_all [] = pure tt
  post_all (e ∷ es) = do
    response ←
        call (post_events (e ∷ es))
          (map_err (λ x. IngestorError.post_event_error (gmp_api_text x)) (h.post (e ∷ es)))
    lift (check_results response)

  unfoldable pub consume_transaction : Tx → Exec (IngestorCall Tx) IngestorError (Unit {0})
  unfolding post_all
  consume_transaction tx = do
    events ← perform (handle_transaction tx) (h.transaction tx)
    post_all events

  unfoldable pub consume_task : Task → Exec (IngestorCall Tx) IngestorError (Unit {0})
  consume_task (Task.verify t) = perform (handle_verify t) (h.verify t)
  consume_task (Task.react_to_wasm_event t) = perform (handle_wasm_event t) (h.wasm_event t)
  consume_task (Task.construct_proof t) = perform (handle_construct_proof t) (h.construct_proof t)
  consume_task (Task.react_to_retriable_poll t) =
      let r = RetryTask.react_to_retriable_poll t in
      perform (handle_retriable_task r) (h.retriable_task r)
  consume_task (Task.react_to_expired_signing_session t) =
      let r = RetryTask.react_to_expired_signing_session t in
      perform (handle_retriable_task r) (h.retriable_task r)
  consume_task (Task.execute _) = raise IngestorError.irrelevant_task
  consume_task (Task.gateway_tx _) = raise IngestorError.irrelevant_task
  consume_task (Task.refund _) = raise IngestorError.irrelevant_task
  consume_task (Task.unknown _) = raise IngestorError.irrelevant_task

  unfoldable pub consume : QueueItem Tx → Exec (IngestorCall Tx) IngestorError (Unit {0})
  unfolding consume_task consume_transaction
  consume (QueueItem.task t) = consume_task t
  consume (QueueItem.transaction tx) = consume_transaction tx
  consume (QueueItem.retry_construct_proof _) = raise IngestorError.irrelevant_task

  -- `from_slice` is the JSON library's
  unfoldable pub process_delivery :
      {D : Type 0}
      → (D → Result (QueueItem Tx) String)
      → D
      → Exec (IngestorCall Tx) IngestorError (Unit {0})
  unfolding consume
  process_delivery from_slice d = do
    item ←
        lift (map_err (λ e. IngestorError.parse_error (concat "Invalid JSON: " e)) (from_slice d))
    consume item
