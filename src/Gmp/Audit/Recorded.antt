-- ===== src/Gmp/Audit/Recorded.antt =====
-- What the audit of relayer_base/src/gmp_api/gmp_api_db_audit_decorator.rs leaves in the table of
-- events, with what the database answers to each statement.
use mathlib.Core.List.{append-nil, append_assoc}
use axelar_relayer.Base.{
  ◌≡◌, refl, sym, done, ◌∙◌, ap, arith, String, Bool, Bool-cases, inl, inr, keep, any_of, str_eq,
  Option, none, some, List, [], ◌∷◌, ◌++◌, map, ok, err, if◌then◌else◌, calls, outcome, fail, ask,
  raise, pure, after, ◌>>=◌, ◌>>◌, bind-done,
}
use axelar_relayer.Gmp.Event.{Event, PostEventResult}
use axelar_relayer.Gmp.Errors.{GmpApiError}
use axelar_relayer.Gmp.Models.{EventModel, from_event}
use axelar_relayer.Gmp.Models
use axelar_relayer.Gmp.Audit.{
  Audited, AuditCall, get_tasks_action, post_events, insert_event, update_event_response,
  spawn_insert_task, spawn_update_event_response, Inner, save_events, save_results, save_error,
  error_result, models, post,
}

-- Whether a row is inserted and whether the rows with an id are updated; a statement that fails
-- changes nothing, and its error is only logged.
pub record Database : Type 0 where
  pub inserts : EventModel → Bool
  pub updates : String → Bool

abbrev pub inserted : Database → EventModel → List EventModel → List EventModel
inserted db m rows = if db.inserts m then Models.insert_event m rows else rows

abbrev pub updated : Database → String → PostEventResult → List EventModel → List EventModel
updated db id r rows = if db.updates id then Models.update_event_response id r rows else rows

-- The table after a call. What is spawned runs some time later.
abbrev pub applied : Database → AuditCall → List EventModel → List EventModel
applied db (insert_event m) rows = inserted db m rows
applied db (update_event_response id r) rows = updated db id r rows
applied db (get_tasks_action _) rows = rows
applied db (post_events _) rows = rows
applied db (spawn_insert_task _) rows = rows
applied db (spawn_update_event_response _ _) rows = rows

unfoldable pub recorded : Database → List AuditCall → List EventModel → List EventModel
recorded db [] rows = rows
recorded db (c ∷ cs) rows = recorded db cs (applied db c rows)

-- The table at the time when the API is asked.
unfoldable pub when_posted : Database → List AuditCall → List EventModel → Option (List EventModel)
when_posted db [] rows = none
when_posted db (post_events _ ∷ cs) rows = some rows
when_posted db (insert_event m ∷ cs) rows = when_posted db cs (inserted db m rows)
when_posted db (update_event_response id r ∷ cs) rows = when_posted db cs (updated db id r rows)
when_posted db (get_tasks_action _ ∷ cs) rows = when_posted db cs rows
when_posted db (spawn_insert_task _ ∷ cs) rows = when_posted db cs rows
when_posted db (spawn_update_event_response _ _ ∷ cs) rows = when_posted db cs rows

-- The rows of the events that the database takes, and those whose update it takes.
abbrev pub taken : Database → List Event → List EventModel
taken db es = keep db.inserts (models es)

abbrev pub told_of : Database → List Event → List EventModel
told_of db es = keep (λ m. db.updates m.event_id) (models es)

abbrev pub is_of : List EventModel → EventModel → Bool
is_of ms row = any_of (λ m. str_eq row.event_id m.event_id) ms

-- The row with the answer, if it has the id of one of these.
abbrev pub answered : List EventModel → PostEventResult → EventModel → EventModel
answered ms r row = if is_of ms row then record row { response = some r } else row

one_inserted :
    (db : Database) (m : EventModel) (ms rows : List EventModel)
    → inserted db m rows ++ keep db.inserts ms ≡ rows ++ keep db.inserts (m ∷ ms)
unfolding Models.insert_event
one_inserted db m ms rows = elim (Bool-cases (db.inserts m)) [
  | inl h ↦ rw h (append_assoc rows (m ∷ []) (keep db.inserts ms))
  | inr h ↦ rw h
]

save_events-recorded :
    (db : Database) (es : List Event) (ds : List AuditCall) (rows : List EventModel)
    → recorded db (calls (save_events es) ++ ds) rows ≡ recorded db ds (rows ++ taken db es)
unfolding recorded save_events
save_events-recorded db [] ds rows = rw (append-nil rows)
save_events-recorded db (e ∷ es) ds rows =
    save_events-recorded db es ds (inserted db (from_event e) rows)
    ∙ ap (recorded db ds) (one_inserted db (from_event e) (models es) rows)

save_events-when :
    (db : Database) (es : List Event) (ds : List AuditCall) (rows : List EventModel)
    → when_posted db (calls (save_events es) ++ ds) rows ≡ when_posted db ds (rows ++ taken db es)
unfolding when_posted save_events
save_events-when db [] ds rows = rw (append-nil rows)
save_events-when db (e ∷ es) ds rows =
    save_events-when db es ds (inserted db (from_event e) rows)
    ∙ ap (when_posted db ds) (one_inserted db (from_event e) (models es) rows)

answered-nil : (r : PostEventResult) (rows : List EventModel) → map (answered [] r) rows ≡ rows
answered-nil r [] = refl
answered-nil r (x ∷ rows) = ap (λ xs. x ∷ xs) (answered-nil r rows)

answered-cons :
    (m : EventModel) (ms : List EventModel) (r : PostEventResult) (rows : List EventModel)
    → map (answered ms r) (Models.update_event_response m.event_id r rows)
      ≡ map (answered (m ∷ ms) r) rows
unfolding Models.update_event_response
answered-cons m ms r [] = refl
answered-cons m ms r (x ∷ rows) = ground (arith, answered-cons m ms r rows)

save_error-recorded :
    (db : Database) (ms : List EventModel) (r : PostEventResult) (rows : List EventModel)
    → recorded db (calls (save_error ms r)) rows
      ≡ map (answered (keep (λ m. db.updates m.event_id) ms) r) rows
unfolding recorded save_error
save_error-recorded db [] r rows = sym (answered-nil r rows)
save_error-recorded db (m ∷ ms) r rows =
    save_error-recorded db ms r (updated db m.event_id r rows)
    ∙ elim (Bool-cases (db.updates m.event_id)) [
      | inl h ↦ rw h (answered-cons m (keep (λ m'. db.updates m'.event_id) ms) r rows)
      | inr h ↦ rw h
    ]

save_error-done : (ms : List EventModel) (r : PostEventResult) → outcome (save_error ms r) ≡ done tt
unfolding save_error
save_error-done [] r = refl
save_error-done (m ∷ ms) r = save_error-done ms r

save_events-done : (es : List Event) → outcome (save_events es) ≡ done tt
unfolding save_events
save_events-done [] = refl
save_events-done (e ∷ es) = save_events-done es

raising :
    (m : Audited (Unit {0})) (e : GmpApiError)
    → outcome m ≡ done tt
    → (m >> raise {A = List PostEventResult} e) ≡ (fail e, calls m)
raising (o, t) e q = rw (q, append-nil t)

module _ (inner : Inner) where
  -- `post` behind the insertions
  abbrev told : List Event → Audited (List PostEventResult)
  told es = do
    answer ← ask (post_events es) (inner.posted es)
    elim answer [
      | ok results ↦ do save_results (models es) results; pure results
      | err e ↦ do save_error (models es) (error_result e); raise e
    ]

  post-told : (es : List Event) → post inner es ≡ after (calls (save_events es)) (told es)
  unfolding post
  post-told es = bind-done (save_events es) tt (λ _. told es) (save_events-done es)

  told-err :
      (es : List Event) (e : GmpApiError)
      → inner.posted es ≡ err e
      → told es ≡ (fail e, post_events es ∷ calls (save_error (models es) (error_result e)))
  told-err es e q = rw q (
      ap (after (post_events es ∷ [])) (
        raising (save_error (models es) (error_result e)) e
          (save_error-done (models es) (error_result e))))

  -- The events that are posted have their rows in the table when the API is asked, where the
  -- database took them, whatever the API answers and whatever the table held before.
  pub saved_first :
      (db : Database) (es : List Event) (rows : List EventModel)
      → when_posted db (calls (post inner es)) rows ≡ some (rows ++ taken db es)
  unfolding when_posted
  saved_first db es rows = rw (post-told es) (save_events-when db es (calls (told es)) rows ∙ refl)

  -- If the API answers with an error, the caller has that error, whatever the database answers. The
  -- table then has, behind its older rows, the rows of the events whose insertion the database took;
  -- of all these, those with the id of an event whose update it took have the error, and every other
  -- row is as before.
  pub error_recorded :
      (db : Database) (es : List Event) (rows : List EventModel) (e : GmpApiError)
      → inner.posted es ≡ err e
      → (outcome (post inner es) ≡ fail e)
        × (recorded db (calls (post inner es)) rows
            ≡ map (answered (told_of db es) (error_result e)) (rows ++ taken db es))
  unfolding recorded
  error_recorded db es rows e q =
      let written = save_error (models es) (error_result e) in
      let p : post inner es ≡ (fail e, calls (save_events es) ++ post_events es ∷ calls written) =
        post-told es ∙ ap (after (calls (save_events es))) (told-err es e q) in
      rw p (
        refl,
        save_events-recorded db es (post_events es ∷ calls written) rows
            ∙ save_error-recorded db (models es) (error_result e) (rows ++ taken db es),
      )
