-- ===== src/Xrpl/Monitor.antt =====
-- xrpl/src/queued_tx_monitor.rs: it asks the ledger for each queued transaction that is due, and
-- settles it or checks it later again. The ten seconds between two rounds are left out.
pub mod Update
pub mod Rounds
pub mod Progress
use axelar_relayer.Base.{
  ℕ, ◌+◌, ◌≡◌, Bool, true, false, leb, if◌then◌else◌, String, str_eq, concat, Option, none, some,
  List, [], ◌∷◌, Result, ok, err,
}
use axelar_relayer.Xrpl.QueuedTransactions.{
  QueuedTransaction, QueuedTransactionStatus, Table, get_queued_transactions_ready_for_check,
  update_transaction_status, increment_retry,
}

abbrev pub max_retries : ℕ
max_retries = 20

pub data QueuedTxMonitorError : Type 0 where
  database_error xrpl_client_error transaction_status_check_failed generic_error :
      String → QueuedTxMonitorError

pub data TxStatus : Type 0 where
  confirmed queued dropped : TxStatus

-- The error of the XRPL client: the code that the API answers, or another, by its text.
pub data ClientError : Type 0 where
  api other : String → ClientError

abbrev client_error_text : ClientError → String
client_error_text (ClientError.api code) = code
client_error_text (ClientError.other e) = e

-- What one round is answered. `validated` is the field of the transaction that the client returns;
-- `written` is the database's answer to the update of a transaction, and `clock` its time.
pub record Answers : Type 0 where
  pub now : ℕ
  pub selected : Result (Unit {0}) String
  pub validated : String → Result (Option Bool) ClientError
  pub written : String → Result (Unit {0}) String
  pub clock : String → ℕ

unfoldable pub check_transaction_status : Answers → String → Result TxStatus QueuedTxMonitorError
check_transaction_status a tx_hash = elim (a.validated tx_hash) [
  | ok (some true) ↦ ok TxStatus.confirmed
  | ok (some false) ↦ ok TxStatus.queued
  | ok none ↦ ok TxStatus.queued
  | err (ClientError.api code) ↦
      if str_eq code "txnNotFound"
      then ok TxStatus.dropped
      else err (QueuedTxMonitorError.xrpl_client_error (client_error_text (ClientError.api code)))
  | err (ClientError.other e) ↦
      err (QueuedTxMonitorError.xrpl_client_error (client_error_text (ClientError.other e)))
]

-- The update that the loop makes for a transaction.
unfoldable pub update : Answers → QueuedTransaction → Table → Table
update a tx t =
    if leb max_retries tx.retries
    then update_transaction_status (a.clock tx.tx_hash) tx.tx_hash QueuedTransactionStatus.expired t
    else elim (check_transaction_status a tx.tx_hash) [
      | ok TxStatus.confirmed ↦
          update_transaction_status (a.clock tx.tx_hash) tx.tx_hash
            QueuedTransactionStatus.confirmed t
      | ok TxStatus.queued ↦ increment_retry (a.clock tx.tx_hash) tx.tx_hash t
      | ok TxStatus.dropped ↦
          update_transaction_status (a.clock tx.tx_hash) tx.tx_hash QueuedTransactionStatus.dropped
            t
      | err _ ↦ increment_retry (a.clock tx.tx_hash) tx.tx_hash t
    ]

-- The loop: an update that fails ends it.
unfoldable pub check_each :
    Answers → List QueuedTransaction → Table → Result (Unit {0}) QueuedTxMonitorError × Table
check_each a [] t = (ok tt, t)
check_each a (tx ∷ txs) t =
    let rest = check_each a txs (update a tx t) in
    elim (a.written tx.tx_hash) [
      | ok _ ↦ rest
      | err e ↦ (err (QueuedTxMonitorError.database_error e), t)
    ]

unfoldable pub check_queued_transactions :
    Answers → Table → Result (Unit {0}) QueuedTxMonitorError × Table
check_queued_transactions a t = elim a.selected [
  | ok _ ↦ check_each a (get_queued_transactions_ready_for_check a.now t) t
  | err e ↦ (err (QueuedTxMonitorError.database_error e), t)
]

-- `work` only logs the error.
unfoldable pub work : Answers → Table → Table
work a t = (check_queued_transactions a t).1
