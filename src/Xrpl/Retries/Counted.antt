-- ===== src/Xrpl/Retries/Counted.antt =====
-- How often xrpl/src/ingestor.rs broadcasts the tasks of a message again.
use axelar_relayer.Base.Dict.{lookup, lookup-insert}
use axelar_relayer.Base.Int.{ℤ, pos, negsuc, int_leb, int_suc}
use axelar_relayer.Base.{
  ℕ, zero, suc, ◌&&◌, refl, ◌+◌, ◌-◌, ◌≡◌, arith, Bool, true, false, String, str_eq, str_eq_iff,
  if◌then◌else◌, unwrap_or, Option, none, some, List, [], ◌∷◌, Result, Result-cases, inl, inr, ok,
  err, is_done, calls, outcome, count_if,
}
use axelar_relayer.Gmp.Task.{RetryTask}
use axelar_relayer.Xrpl.Retries.{
  TaskRetries, RetryCall, post_broadcast, upsert, Answers, max_task_retries,
  message_id_from_retry_task, retry, handle_retriable_task, rows_after, run,
}

abbrev pub is_broadcast : {B : Type 0} → RetryCall B → Bool
is_broadcast (post_broadcast _ _) = true
is_broadcast (upsert _ _) = false

abbrev pub concerns : String → Result (Option String) String → Bool
concerns m (ok (some id)) = str_eq id m
concerns m (ok none) = false
concerns m (err _) = false

-- How many retries are left, by the stored number of those that were made.
abbrev pub left : Option ℤ → ℕ
left none = 5
left (some (pos n)) = 5 - n
left (some (negsuc n)) = 6 + n

left-suc :
    (o : Option ℤ)
    → int_leb max_task_retries (unwrap_or o (pos 0)) ≡ false
    → left (some (int_suc (unwrap_or o (pos 0)))) + 1 ≡ left o
left-suc none h = refl
left-suc (some (pos n)) h = ground arith
left-suc (some (negsuc zero)) h = refl
left-suc (some (negsuc (suc n))) h = omega arith

module _ {B : Type 0} (m : String) where
  -- The broadcasts of a task of the message `m` that ends well.
  abbrev pub retried : Answers B → RetryTask → TaskRetries → ℕ
  retried a t rows =
      if concerns m (message_id_from_retry_task a t)
        && is_done (outcome (handle_retriable_task a t rows))
      then count_if is_broadcast (calls (handle_retriable_task a t rows))
      else 0

  abbrev pub retried_all : List (Answers B × RetryTask) → TaskRetries → ℕ
  retried_all [] rows = 0
  retried_all ((a, t) ∷ tasks) rows =
      retried a t rows
      + retried_all tasks (rows_after (outcome (handle_retriable_task a t rows)) rows)

  retried-left :
      (a : Answers B) (t : RetryTask) (rows : TaskRetries)
      → retried a t rows
          + left (lookup m (rows_after (outcome (handle_retriable_task a t rows)) rows))
        ≡ left (lookup m rows)
  unfolding handle_retriable_task retry
  retried-left a t rows = elim (Result-cases (message_id_from_retry_task a t)) [
    | inl (none, q) ↦ ground arith
    | inl (some id, q) ↦
        let more = int_suc (unwrap_or (lookup id rows) (pos 0)) in
        ground (arith, lookup-insert id m more rows, str_eq_iff id m, left-suc (lookup id rows))
    | inr (e, q) ↦ ground arith
  ]

  -- However many tasks of a message come, among tasks of others and whatever is answered: the
  -- broadcasts of those that end well, with the retries that the table leaves the message behind
  -- them, are the retries that it left before them. So they are five at most for a message that the
  -- table does not have.
  pub retries_bounded :
      (tasks : List (Answers B × RetryTask)) (rows : TaskRetries)
      → retried_all tasks rows + left (lookup m (run tasks rows).1) ≡ left (lookup m rows)
  unfolding run
  retries_bounded [] rows = omega arith
  retries_bounded ((a, t) ∷ tasks) rows = omega (
    arith,
    retried-left a t rows,
    retries_bounded tasks (rows_after (outcome (handle_retriable_task a t rows)) rows),
  )
