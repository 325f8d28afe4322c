-- ===== src/Xrpl/QueuedTransactions.antt =====
-- xrpl/src/models/queued_transactions.rs: the table of the transactions that the ledger has queued,
-- by their hash. Time is in seconds, and a query sees the time at which it runs. `retries` is
-- never NULL: no query writes it but for its default and `retries + 1`. The rows that a query
-- selects come in the order of the table.
use axelar_relayer.Base.{
  ℕ, ◌+◌, ◌*◌, ◌^◌, Bool, true, false, ◌&&◌, ltb, if◌then◌else◌, String, Option, none, some, List,
  [], ◌∷◌,
}
use axelar_relayer.Base.Dict.{lookup, insert}
use axelar_relayer.Base.Int.{ℤ}

pub data QueuedTransactionStatus : Type 0 where
  queued confirmed dropped expired : QueuedTransactionStatus

pub record QueuedTransaction : Type 0 where
  pub tx_hash : String
  pub retries : ℕ
  pub account : Option String
  pub sequence : Option ℤ
  pub status : QueuedTransactionStatus

-- A row, without its key and without the time of its insertion, which nothing reads.
pub record Row : Type 0 where
  pub account : String
  pub sequence : ℤ
  pub status : QueuedTransactionStatus
  pub retries : ℕ
  pub last_checked : Option ℕ

abbrev pub Table : Type 0
Table = List (String × Row)

abbrev pub is_queued : QueuedTransactionStatus → Bool
is_queued QueuedTransactionStatus.queued = true
is_queued QueuedTransactionStatus.confirmed = false
is_queued QueuedTransactionStatus.dropped = false
is_queued QueuedTransactionStatus.expired = false

-- `last_checked IS NULL OR last_checked < NOW() - INTERVAL '1 second' * POW(2, retries) * 10`
abbrev pub is_due : ℕ → Option ℕ → ℕ → Bool
is_due now none retries = true
is_due now (some last) retries = ltb (last + 2 ^ retries * 10) now

unfoldable pub is_ready : ℕ → Row → Bool
is_ready now r = is_queued r.status && is_due now r.last_checked r.retries

unfoldable pub get_queued_transactions_ready_for_check : ℕ → Table → List QueuedTransaction
get_queued_transactions_ready_for_check now [] = []
get_queued_transactions_ready_for_check now ((h, r) ∷ t) =
    let rest = get_queued_transactions_ready_for_check now t in
    if is_ready now r
    then record {
      tx_hash = h;
      retries = r.retries;
      account = some r.account;
      sequence = some r.sequence;
      status = r.status;
    }
      ∷ rest
    else rest

-- an `UPDATE` of a missing row changes nothing
unfoldable pub update_transaction_status : ℕ → String → QueuedTransactionStatus → Table → Table
update_transaction_status now tx_hash status t = elim (lookup tx_hash t) [
  | none ↦ t
  | some r ↦ insert tx_hash (record r { status = status; last_checked = some now }) t
]

-- a row that is there keeps its status, its retries and its last check
unfoldable pub store_queued_transaction : ℕ → String → String → ℤ → Table → Table
store_queued_transaction now tx_hash account sequence t = elim (lookup tx_hash t) [
  | none ↦
      insert tx_hash
        (record {
          account = account;
          sequence = sequence;
          status = QueuedTransactionStatus.queued;
          retries = 0;
          last_checked = some now;
        })
        t
  | some r ↦ insert tx_hash (record r { account = account; sequence = sequence }) t
]

unfoldable pub increment_retry : ℕ → String → Table → Table
increment_retry now tx_hash t = elim (lookup tx_hash t) [
  | none ↦ t
  | some r ↦ insert tx_hash (record r { retries = r.retries + 1; last_checked = some now }) t
]
