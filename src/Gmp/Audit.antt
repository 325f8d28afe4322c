-- ===== src/Gmp/Audit.antt =====
-- relayer_base/src/gmp_api/gmp_api_db_audit_decorator.rs: a client of the GMP API that keeps rows of
-- the tasks and events that pass through it. The errors of the database are only logged. The methods
-- that hand a call on unchanged are those of Gmp/Api.
pub mod Recorded
use axelar_relayer.Base.{
  ℕ, zero, suc, ◌≡◌, Bool, true, false, String, Option, none, some, List, [], ◌∷◌, Result, ok, err,
  Exec, ◌>>=◌, ◌>>◌, pure, raise, ask, tell, call,
}
use axelar_relayer.Gmp.Task.{Task}
use axelar_relayer.Gmp.Event.{Event, PostEventResult, CannotExecuteMessageReason}
use axelar_relayer.Gmp.Errors.{GmpApiError, gmp_api_text}
use axelar_relayer.Gmp.Api.{map_cannot_execute_message_to_event}
use axelar_relayer.Gmp.Models.{EventModel, TaskModel, from_event, from_task}

pub data AuditCall : Type 0 where
  get_tasks_action : Option String → AuditCall
  post_events : List Event → AuditCall
  insert_event : EventModel → AuditCall
  update_event_response : String → PostEventResult → AuditCall
  -- in a task of its own, which is not waited for
  spawn_insert_task : TaskModel → AuditCall
  spawn_update_event_response : String → PostEventResult → AuditCall

-- What the client inside answers.
pub record Inner : Type 0 where
  pub tasks : Option String → Result (List Task) GmpApiError
  pub posted : List Event → Result (List PostEventResult) GmpApiError

abbrev pub Audited : Type 0 → Type 0
Audited A = Exec AuditCall GmpApiError A

abbrev pub get_elem? : List EventModel → ℕ → Option EventModel
get_elem? [] i = none
get_elem? (x ∷ xs) zero = some x
get_elem? (x ∷ xs) (suc i) = get_elem? xs i

unfoldable pub save_tasks : List Task → Audited (Unit {0})
save_tasks [] = pure tt
save_tasks (t ∷ ts) = let rest = save_tasks ts in (do tell (spawn_insert_task (from_task t)); rest)

unfoldable pub save_events : List Event → Audited (Unit {0})
save_events [] = pure tt
save_events (e ∷ es) = let rest = save_events es in (do tell (insert_event (from_event e)); rest)

-- an index out of bounds is only logged
unfoldable pub save_results : List EventModel → List PostEventResult → Audited (Unit {0})
save_results event_models [] = pure tt
save_results event_models (r ∷ rs) =
    let rest = save_results event_models rs in
    (do
      elim (get_elem? event_models r.index) [
        | some event ↦ tell (spawn_update_event_response event.event_id r)
        | none ↦ pure tt
      ]
      rest)

abbrev pub error_result : GmpApiError → PostEventResult
error_result e = record {
  status = "error";
  index = 0;
  error = some (gmp_api_text e);
  retriable = none;
}

unfoldable pub save_error : List EventModel → PostEventResult → Audited (Unit {0})
save_error [] r = pure tt
save_error (m ∷ ms) r =
    let rest = save_error ms r in (do tell (update_event_response m.event_id r); rest)

abbrev pub models : List Event → List EventModel
models [] = []
models (e ∷ es) = from_event e ∷ models es

module _ (inner : Inner) where
  unfoldable pub get_tasks : Option String → Audited (List Task)
  unfolding save_tasks
  get_tasks after' = do
    tasks ← call (get_tasks_action after') (inner.tasks after')
    save_tasks tasks
    pure tasks

  unfoldable pub post : List Event → Audited (List PostEventResult)
  unfolding save_events save_results save_error
  post events = do
    save_events events
    answer ← ask (post_events events) (inner.posted events)
    elim answer [
      | ok results ↦ do save_results (models events) results; pure results
      | err e ↦ do save_error (models events) (error_result e); raise e
    ]

  unfoldable pub cannot_execute_message :
      String → String → String → String → CannotExecuteMessageReason → Audited (Unit {0})
  unfolding post map_cannot_execute_message_to_event
  cannot_execute_message id message_id source_chain details reason = do
    post (map_cannot_execute_message_to_event id message_id source_chain details reason ∷ [])
    pure tt
