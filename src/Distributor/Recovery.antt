-- ===== src/Distributor/Recovery.antt =====
-- The recovery loop of relayer_base/src/distributor.rs.
use axelar_relayer.Base.{
  String, ◌≡◌, refl, Bool, false, Option, some, List, [], ◌∷◌, map, is_done, ◌||◌, any_of, arith,
  Result-cases, inl, inr, err, outcome, str_eq,
}
use axelar_relayer.Gmp.Task.{TaskKind, id}
use axelar_relayer.Gmp.Errors.{GmpApiError}
use axelar_relayer.Distributor.{
  Distributor, RecoverySettings, Answers, work, recovery_rounds, run_recovery,
}
use axelar_relayer.Distributor.Routing.{fetched}
use axelar_relayer.Distributor.Cursor.{work_cursor}

-- Whether some round hands out the task with the id `i`.
abbrev pub handed_out : String → List Answers → Bool
handed_out i [] = false
handed_out i (a ∷ later) = any_of (str_eq i) (map id (fetched a)) || handed_out i later

work_failed :
    (a : Answers) (f : Option (List TaskKind)) (d : Distributor) (x : GmpApiError)
    → a.tasks ≡ err x
    → is_done (outcome (work a f d).0) ≡ false
unfolding work
work_failed a f d x e = ground arith

round_ends :
    (s : RecoverySettings) (a : Answers) (later : List Answers) (d : Distributor)
    → (recovery_rounds s (a ∷ later) d).2 ≡ (
        any_of (str_eq s.to_task_id) (map id (fetched a))
        || (recovery_rounds s later (work a s.tasks_filter d).1).2)
unfolding recovery_rounds
round_ends s a later d = elim (Result-cases a.tasks) [
  | inl (ts, e) ↦ ground (arith, e, (work_cursor a s.tasks_filter d ts e).0)
  | inr (x, e) ↦ ground (arith, e, work_failed a s.tasks_filter d x e)
]

rounds_end :
    (s : RecoverySettings) (answers : List Answers) (d : Distributor)
    → (recovery_rounds s answers d).2 ≡ handed_out s.to_task_id answers
rounds_end s [] d = unfold recovery_rounds in refl
rounds_end s (a ∷ later) d =
    rw (round_ends s a later d) (rw (rounds_end s later (work a s.tasks_filter d).1))

-- The recovery loop ends in the rounds given exactly when one of them hands out the task with the
-- id of the settings, whether or not that task passes the filter.
pub recovery_ends :
    (s : RecoverySettings) (answers : List Answers) (d : Distributor)
    → d.recovery_settings ≡ some s
    → (run_recovery answers d).2 ≡ handed_out s.to_task_id answers
unfolding run_recovery
recovery_ends s answers d e = ground (arith, rounds_end s answers d)
