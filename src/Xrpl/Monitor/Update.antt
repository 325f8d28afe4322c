-- ===== src/Xrpl/Monitor/Update.antt =====
-- What the update of xrpl/src/queued_tx_monitor.rs does to the row of the transaction, and to the
-- other rows.
use axelar_relayer.Base.{
  ℕ, ◌+◌, ◌≡◌, inl, inr, arith, Bool, false, leb, if◌then◌else◌, String, str_eq, Option,
  Option-cases, none, some, [], ◌∷◌, ok, err,
}
use axelar_relayer.Base.Dict.{lookup, insert, lookup-insert}
use axelar_relayer.Xrpl.QueuedTransactions.{
  QueuedTransaction, QueuedTransactionStatus, Row, Table, is_ready, update_transaction_status,
  increment_retry,
}
use axelar_relayer.Xrpl.Monitor.{Answers, TxStatus, max_retries, check_transaction_status, update}

-- The hash is the primary key.
abbrev pub IsKeyed : Table → Type 0
IsKeyed [] = Unit
IsKeyed ((h, r) ∷ t) = (lookup h t ≡ none) × IsKeyed t

-- the new row of a transaction that is checked
abbrev pub judged : Answers → String → Row → Row
judged a h r =
    let settled : QueuedTransactionStatus → Row =
      λ status. record r { status = status; last_checked = some (a.clock h) } in
    let later : Row = record r { retries = r.retries + 1; last_checked = some (a.clock h) } in
    if leb max_retries r.retries
    then settled QueuedTransactionStatus.expired
    else elim (check_transaction_status a h) [
      | ok TxStatus.confirmed ↦ settled QueuedTransactionStatus.confirmed
      | ok TxStatus.queued ↦ later
      | ok TxStatus.dropped ↦ settled QueuedTransactionStatus.dropped
      | err _ ↦ later
    ]

-- what a round makes of a row
abbrev pub after_round : Answers → String → Option Row → Option Row
after_round a h none = none
after_round a h (some r) = some (if is_ready a.now r then judged a h r else r)

abbrev pub after_ready : ℕ → Option Row → Bool
after_ready now none = false
after_ready now (some r) = is_ready now r

abbrev pub tx_of : String → Row → QueuedTransaction
tx_of h r = record {
  tx_hash = h;
  retries = r.retries;
  account = some r.account;
  sequence = some r.sequence;
  status = r.status;
}

updated :
    (a : Answers) (tx : QueuedTransaction) (r : Row) (t : Table)
    → lookup tx.tx_hash t ≡ some r
    → tx.retries ≡ r.retries
    → update a tx t ≡ insert tx.tx_hash (judged a tx.tx_hash r) t
unfolding update update_transaction_status increment_retry
updated a tx r t row same = ground (arith, row, same)

pub update-lookup :
    (a : Answers) (tx : QueuedTransaction) (r : Row) (t : Table) (h : String)
    → lookup tx.tx_hash t ≡ some r
    → tx.retries ≡ r.retries
    → lookup h (update a tx t)
      ≡ (if str_eq tx.tx_hash h then some (judged a tx.tx_hash r) else lookup h t)
update-lookup a tx r t h row same =
    rw (updated a tx r t row same) (lookup-insert tx.tx_hash h (judged a tx.tx_hash r) t)

module _ (now : ℕ) (key h : String) (t : Table) (differs : str_eq key h ≡ false) where
  status_other :
      (status : QueuedTransactionStatus)
      → lookup h (update_transaction_status now key status t) ≡ lookup h t
  unfolding update_transaction_status
  status_other status = elim (Option-cases (lookup key t)) [
    | inl e ↦ ground (arith, e)
    | inr (r, e) ↦ ground (
      arith,
      e,
      lookup-insert key h (record r { status = status; last_checked = some now }) t,
      differs,
    )
  ]

  retry_other : lookup h (increment_retry now key t) ≡ lookup h t
  unfolding increment_retry
  retry_other = elim (Option-cases (lookup key t)) [
    | inl e ↦ ground (arith, e)
    | inr (r, e) ↦ ground (
      arith,
      e,
      lookup-insert key h (record r { retries = r.retries + 1; last_checked = some now }) t,
      differs,
    )
  ]

pub update_other :
    (a : Answers) (tx : QueuedTransaction) (t : Table) (h : String)
    → str_eq tx.tx_hash h ≡ false
    → lookup h (update a tx t) ≡ lookup h t
unfolding update
update_other a tx t h differs =
    let settled = status_other (a.clock tx.tx_hash) tx.tx_hash h t differs in
    ground (
      arith,
      settled QueuedTransactionStatus.expired,
      settled QueuedTransactionStatus.confirmed,
      settled QueuedTransactionStatus.dropped,
      retry_other (a.clock tx.tx_hash) tx.tx_hash h t differs,
    )
