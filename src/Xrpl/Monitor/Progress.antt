-- ===== src/Xrpl/Monitor/Progress.antt =====
-- That xrpl/src/queued_tx_monitor.rs settles every transaction in the end.
use axelar_relayer.Base.{
  not, ◌||◌, Bool, ℕ, ◌+◌, ◌<◌, ◌≤◌, ◌≡◌, ◌⊎◌, inl, inr, refl, arith, Bool-cases, true, false, leb,
  if◌then◌else◌, String, str_eq, str_eq_iff, Option, Option-cases, none, some, List, [], ◌∷◌,
  length, Result-cases, ok, err, ◌∙◌,
}
use axelar_relayer.Base.Dict.{lookup, insert, lookup-insert}
use axelar_relayer.Xrpl.QueuedTransactions.{
  QueuedTransaction, QueuedTransactionStatus, Row, Table, is_queued, is_ready,
  update_transaction_status, increment_retry, get_queued_transactions_ready_for_check,
}
use axelar_relayer.Xrpl.Monitor.{
  Answers, TxStatus, max_retries, check_transaction_status, update, check_each, work,
}
use axelar_relayer.Xrpl.Monitor.Update.{IsKeyed, judged}
use axelar_relayer.Xrpl.Monitor.Rounds.{
  round_judges, not_due_kept, check_each-written, check_each-failed, work-selected, work-failed,
}

insert-IsKeyed : (k : String) (r : Row) (t : Table) → IsKeyed t → IsKeyed (insert k r t)
unfolding insert lookup
insert-IsKeyed k r [] key = (refl, tt)
insert-IsKeyed k r ((j, w) ∷ t) key = elim (Bool-cases (str_eq j k)) [
  | inl same ↦ rw same (rw ((str_eq_iff j k).0 same) at key.0, key.1)
  | inr differs ↦
      let other : str_eq k j ≡ false = ground (arith, str_eq_iff j k, str_eq_iff k j) in
      rw differs (lookup-insert k j r t ∙ rw (other, key.0) refl, insert-IsKeyed k r t key.1)
]

status-IsKeyed :
    (now : ℕ) (k : String) (status : QueuedTransactionStatus) (t : Table)
    → IsKeyed t
    → IsKeyed (update_transaction_status now k status t)
status-IsKeyed now k status t key = elim (Option-cases (lookup k t)) [
  | inl e ↦
      let same : update_transaction_status now k status t ≡ t =
        unfold update_transaction_status in ground (arith, e) in
      rw same key
  | inr (r, e) ↦
      let new : Row = record r { status = status; last_checked = some now } in
      let put : update_transaction_status now k status t ≡ insert k new t =
        unfold update_transaction_status in ground (arith, e) in
      rw put (insert-IsKeyed k new t key)
]

retry-IsKeyed : (now : ℕ) (k : String) (t : Table) → IsKeyed t → IsKeyed (increment_retry now k t)
retry-IsKeyed now k t key = elim (Option-cases (lookup k t)) [
  | inl e ↦
      let same : increment_retry now k t ≡ t = unfold increment_retry in ground (arith, e) in
      rw same key
  | inr (r, e) ↦
      let new : Row = record r { retries = r.retries + 1; last_checked = some now } in
      let put : increment_retry now k t ≡ insert k new t =
        unfold increment_retry in ground (arith, e) in
      rw put (insert-IsKeyed k new t key)
]

-- the status that a check gives, `none` for one more retry
abbrev decision : Answers → QueuedTransaction → Option QueuedTransactionStatus
decision a tx =
    if leb max_retries tx.retries
    then some QueuedTransactionStatus.expired
    else elim (check_transaction_status a tx.tx_hash) [
      | ok TxStatus.confirmed ↦ some QueuedTransactionStatus.confirmed
      | ok TxStatus.queued ↦ none
      | ok TxStatus.dropped ↦ some QueuedTransactionStatus.dropped
      | err _ ↦ none
    ]

abbrev decided : ℕ → String → Table → Option QueuedTransactionStatus → Table
decided now k t none = increment_retry now k t
decided now k t (some status) = update_transaction_status now k status t

update-decided :
    (a : Answers) (tx : QueuedTransaction) (t : Table)
    → update a tx t ≡ decided (a.clock tx.tx_hash) tx.tx_hash t (decision a tx)
unfolding update
update-decided a tx t = ground arith

decided-IsKeyed :
    (now : ℕ) (k : String) (t : Table) (o : Option QueuedTransactionStatus)
    → IsKeyed t
    → IsKeyed (decided now k t o)
decided-IsKeyed now k t none key = retry-IsKeyed now k t key
decided-IsKeyed now k t (some status) key = status-IsKeyed now k status t key

update-IsKeyed :
    (a : Answers) (tx : QueuedTransaction) (t : Table) → IsKeyed t → IsKeyed (update a tx t)
update-IsKeyed a tx t key =
    rw (update-decided a tx t)
      (decided-IsKeyed (a.clock tx.tx_hash) tx.tx_hash t (decision a tx) key)

check_each-IsKeyed :
    (a : Answers) (txs : List QueuedTransaction) (t : Table)
    → IsKeyed t
    → IsKeyed (check_each a txs t).1
check_each-IsKeyed a [] t key = unfold check_each in key
check_each-IsKeyed a (tx ∷ txs) t key = elim (Result-cases (a.written tx.tx_hash)) [
  | inl (u, e) ↦
      rw (check_each-written a tx txs t u e)
        (check_each-IsKeyed a txs (update a tx t) (update-IsKeyed a tx t key))
  | inr (x, e) ↦ rw (check_each-failed a tx txs t x e) key
]

work-IsKeyed : (a : Answers) (t : Table) → IsKeyed t → IsKeyed (work a t)
work-IsKeyed a t key = elim (Result-cases a.selected) [
  | inl (u, e) ↦
      rw (work-selected a t u e)
        (check_each-IsKeyed a (get_queued_transactions_ready_for_check a.now t) t key)
  | inr (x, e) ↦ rw (work-failed a t x e) key
]

unfoldable pub run : List Answers → Table → Table
run [] t = t
run (a ∷ later) t = run later (work a t)

abbrev pub is_due_if_queued : ℕ → Option Row → Bool
is_due_if_queued now none = true
is_due_if_queued now (some r) = not (is_queued r.status) || is_ready now r

due_row :
    (a : Answers) (h : String) (r : Row) (o : Option Row)
    → o ≡ some r
    → is_due_if_queued a.now o ≡ true
    → is_queued r.status ≡ true
    → is_ready a.now r ≡ true
due_row a h r o e due queued = ground (arith, e)

-- The database answers in every round, and whenever the transaction is still queued it is due: the
-- rounds are those that check it.
abbrev pub Checked : String → List Answers → Table → Type 0
Checked h [] t = Unit
Checked h (a ∷ later) t =
    (a.selected ≡ ok tt)
    × ((k : String) → a.written k ≡ ok tt)
    × (is_due_if_queued a.now (lookup h t) ≡ true)
    × Checked h later (work a t)

settled_waits : (now : ℕ) (r : Row) → is_queued r.status ≡ false → is_ready now r ≡ false
unfolding is_ready
settled_waits now r settled = rw settled refl

stays_settled :
    (rounds : List Answers) (t : Table) (h : String) (r : Row)
    → IsKeyed t
    → lookup h t ≡ some r
    → is_queued r.status ≡ false
    → lookup h (run rounds t) ≡ some r
unfolding run
stays_settled [] t h r key row settled = row
stays_settled (a ∷ rounds) t h r key row settled =
    stays_settled rounds (work a t) h r (work-IsKeyed a t key)
      (not_due_kept a t h r key row (settled_waits a.now r settled)) settled

-- a check settles a transaction or counts, and the one after 20 retries settles it
judged_lem :
    (a : Answers) (h : String) (r : Row)
    → is_queued r.status ≡ true
    → (is_queued (judged a h r).status ≡ false)
      ⊎ ((r.retries < max_retries) × ((judged a h r).retries ≡ r.retries + 1))
judged_lem a h r queued = ground arith

-- In a table with one row for a hash, a queued transaction with at most 20 retries, which is due in
-- each of at least 21 - `retries` rounds as long as it is still queued, is settled behind them as
-- confirmed, dropped or expired, whatever the ledger answers, when the database answers every query.
pub settles_in_time :
    (rounds : List Answers) (t : Table) (h : String) (r : Row)
    → IsKeyed t
    → lookup h t ≡ some r
    → r.retries ≤ max_retries
    → max_retries < r.retries + length rounds
    → Checked h rounds t
    → (r' : Row) × (lookup h (run rounds t) ≡ some r') × (is_queued r'.status ≡ false)
unfolding run
settles_in_time [] t h r key row few enough c = absurd (omega arith)
settles_in_time (a ∷ rounds) t h r key row few enough (s, w, due, later) =
    elim (Bool-cases (is_queued r.status)) [
      | inr settled ↦
          let same = not_due_kept a t h r key row (settled_waits a.now r settled) in
          (r, stays_settled rounds (work a t) h r (work-IsKeyed a t key) same settled, settled)
      | inl queued ↦
          let new : lookup h (work a t) ≡ some (judged a h r) =
            round_judges a t h s w key ∙ rw (row, due_row a h r (lookup h t) row due queued) refl in
          let key' = work-IsKeyed a t key in
          elim (judged_lem a h r queued) [
            | inl settled ↦ (
              judged a h r,
              stays_settled rounds (work a t) h (judged a h r) key' new settled,
              settled,
            )
            | inr (under, more) ↦
                settles_in_time rounds (work a t) h (judged a h r) key' new
                  (omega (arith, under, more)) (omega (arith, enough, more)) later
          ]
    ]
