-- ===== src/Examples/XrplTransactions.antt =====
-- The theorems on the monitor and on the broadcaster of the XRP ledger, on two queued transactions
-- and on one payment.
use axelar_relayer.Base.{ℕ, ◌≡◌, refl, arith, true, false, some, [], ◌∷◌, ok, err}
use axelar_relayer.Base.Dict.{lookup}
use axelar_relayer.Base.Int.{pos}
use axelar_relayer.Xrpl.QueuedTransactions.{
  QueuedTransactionStatus, Row, Table, is_queued, is_ready,
}
use axelar_relayer.Xrpl.Monitor.{Answers, ClientError, check_transaction_status, work}
use axelar_relayer.Xrpl.Monitor.Update.{IsKeyed}
use axelar_relayer.Xrpl.Monitor.Rounds.{round_judges}
use axelar_relayer.Xrpl.Monitor.Progress.{run, settles_in_time}
use axelar_relayer.Xrpl.Memos.{Hex}
use axelar_relayer.Xrpl.Broadcaster.{
  ResultCategory, Transaction, Submitted, EngineResult, SubmitResponse, submit,
  store_queued_transaction, memos_of, broadcast_prover_message, broadcast_refund,
}
use axelar_relayer.Xrpl.Broadcaster

abbrev row : QueuedTransactionStatus → ℕ → ℕ → Row
row status retries last = record {
  account = "r1";
  sequence = pos 7;
  status = status;
  retries = retries;
  last_checked = some last;
}

abbrev table : Table
table =
    ("A", row QueuedTransactionStatus.queued 20 0)
    ∷ ("B", row QueuedTransactionStatus.confirmed 1 0)
    ∷ []

-- The ledger does not find the transactions; it is late enough for the last check.
abbrev answers : Answers
answers = record {
  now = 100000000;
  selected = ok tt;
  validated = λ h. err (ClientError.api "txnNotFound");
  written = λ h. ok tt;
  clock = λ h. 100000001;
}

table-IsKeyed : IsKeyed table
unfolding lookup
table-IsKeyed = (refl, (refl, tt))

round_judges_example :
    lookup "A" (work answers table)
    ≡ some (record {
      account = "r1";
      sequence = pos 7;
      status = QueuedTransactionStatus.expired;
      retries = 20;
      last_checked = some 100000001;
    })
unfolding lookup is_ready check_transaction_status
round_judges_example = round_judges answers table "A" refl (λ k. refl) table-IsKeyed

settles_in_time_example :
    (r' : Row) × (lookup "A" (run (answers ∷ []) table) ≡ some r') × (is_queued r'.status ≡ false)
unfolding lookup is_ready
settles_in_time_example =
    settles_in_time (answers ∷ []) table "A" (row QueuedTransactionStatus.queued 20 0) table-IsKeyed
      refl (omega arith) (omega arith) (refl, (λ k. refl), refl, tt)

abbrev hex : Hex
hex = record { encode = λ s. s; decode = λ s. ok s }

abbrev submitted : Submitted
submitted = record {
  transaction = Transaction.payment (
      some (
        record { memo_type = some "MESSAGE_ID"; memo_data = some "0x01" }
        ∷ record { memo_type = some "source_chain"; memo_data = some "axelar" }
        ∷ []));
  hash = some "H";
  account = "r1";
  sequence = pos 7;
}

abbrev response : SubmitResponse
response = record {
  tx_json = submitted;
  engine_result = record {
    category = ResultCategory.ter;
    is_success = false;
    is_queued = true;
    is_past_seq = false;
    text = "terQUEUED";
  };
  engine_result_message = "queued";
}

-- the table of queued transactions cannot be written
abbrev ledger : Broadcaster.Answers
ledger = record {
  submitted = λ b. ok response;
  validated = λ h. err "txnNotFound";
  stored = err "closed";
}
