-- ===== src/Xrpl/Transactions.antt =====
-- `handle_transaction` of xrpl/src/ingestor.rs, with `from_native_transaction` of
-- xrpl/src/models/xrpl_transaction.rs: a transaction of the XRP ledger is stored once and handled by
-- its kind. The ledger's types, the JSON library and the table enter by what they answer.
use axelar_relayer.Base.Texts.{to_lowercase}
use axelar_relayer.Base.{
  ℕ, ◌+◌, String, str_eq, if◌then◌else◌, is_some, not, unwrap_or, Option, none, some, List, [],
  Result, ok, err, and_then, Exec, ◌>>=◌, ◌>>◌, pure, raise, lift, call,
}
use axelar_relayer.Subscriber.{ChainTransaction}
use axelar_relayer.Gmp.Event.{Event}
use axelar_relayer.Gmp.Errors.{IngestorError}
use axelar_relayer.Xrpl.Memos.{extract_and_decode_memo}
use axelar_relayer.Xrpl.Messages.{failed}
use axelar_relayer.Xrpl.Payments.{PaymentTransaction}
use axelar_relayer.Xrpl.Routing.{XrplTransactionStatus, Transaction}
use axelar_relayer.Xrpl.Translation.{Env, EventsCall, within}
use axelar_relayer.Xrpl.Events.{handle_payment, handle_prover_tx}

pub data TransactionKind : Type 0 where
  payment : PaymentTransaction → TransactionKind
  ticket_create signer_list_set trust_set other : TransactionKind

-- `read` is what `handle_prover_tx` reads of the transaction. Dates and sequences are `u32`.
pub record NativeTransaction : Type 0 where
  pub kind : TransactionKind
  pub read : Transaction
  pub account : String
  pub date : Option ℕ
  pub ticket_sequence : Option ℕ
  pub sequence : ℕ

pub data XrplTransactionType : Type 0 where
  ticket_create payment signer_list_set trust_set unexpected : XrplTransactionType

pub data XrplTransactionSource : Type 0 where
  prover user : XrplTransactionSource

pub record XrplTransaction : Type 0 where
  pub tx_hash : String
  pub tx : String
  pub tx_type : XrplTransactionType
  pub message_id : Option String
  pub message_type : Option String
  pub status : XrplTransactionStatus
  pub verify_task : Option String
  pub verify_tx : Option String
  pub quorum_reached_task : Option String
  pub route_tx : Option String
  pub source : XrplTransactionSource
  pub sequence : Option ℕ
  pub created_at : String

pub data TransactionCall (R : Type 0) : Type 0 where
  find : String → TransactionCall R
  upsert : XrplTransaction → TransactionCall R
  events : EventsCall R → TransactionCall R

-- `message_type` is the text of the message type that a text names, `from_timestamp` that of a time.
pub record Answers (X : Type 0) : Type 0 where
  pub xrpl_multisig : String
  pub json : NativeTransaction → Result String String
  pub debug : ChainTransaction NativeTransaction X → String
  pub message_type : String → Option String
  pub from_timestamp : ℕ → Option String
  pub found : Result (Option XrplTransaction) String
  pub upserted : Result (Unit {0}) String

abbrev type_of : TransactionKind → XrplTransactionType
type_of (TransactionKind.payment _) = XrplTransactionType.payment
type_of TransactionKind.ticket_create = XrplTransactionType.ticket_create
type_of TransactionKind.signer_list_set = XrplTransactionType.signer_list_set
type_of TransactionKind.trust_set = XrplTransactionType.trust_set
type_of TransactionKind.other = XrplTransactionType.unexpected

abbrev or_text : {A : Type 0} → String → Option A → Result A String
or_text m none = err m
or_text m (some a) = ok a

abbrev or_default : Result String String → String
or_default (ok text) = text
or_default (err _) = ""

abbrev ripple_epoch : ℕ
ripple_epoch = 946684800

module _ {R D F X : Type 0} (env : Env R D F) (a : Answers X) where
  abbrev Handling : Type 0 → Type 0
  Handling A = Exec (TransactionCall R) IngestorError A

  abbrev message_type_of : Result String String → Option String
  message_type_of (ok text) = a.message_type text
  message_type_of (err _) = none

  unfoldable pub from_native_transaction : NativeTransaction → Result XrplTransaction String
  unfolding to_lowercase extract_and_decode_memo
  from_native_transaction t = and_then (or_text "No hash found" t.read.hash) (λ hash.
      and_then (or_text "No date found" t.date) (λ date.
        and_then
          (or_text "Failed to convert ledger timestamp to chrono datetime"
            (a.from_timestamp (date + ripple_epoch)))
          (λ created_at. ok (record {
            tx_hash = to_lowercase hash;
            tx = or_default (a.json t);
            tx_type = type_of t.kind;
            message_id = some (to_lowercase hash);
            message_type =
                message_type_of (extract_and_decode_memo env.routing.hex t.read.memos "type");
            status = XrplTransactionStatus.detected;
            verify_task = none;
            verify_tx = none;
            quorum_reached_task = none;
            route_tx = none;
            source =
                if str_eq t.account a.xrpl_multisig
                then XrplTransactionSource.prover
                else XrplTransactionSource.user;
            sequence = some (unwrap_or t.ticket_sequence t.sequence);
            created_at = created_at;
          }))))

  -- a row that is there already is left as it is
  unfoldable pub stored_once : TransactionKind → XrplTransaction → Handling (Unit {0})
  stored_once TransactionKind.other row = pure tt
  stored_once _ row = do
    present ← call (find row.tx_hash) (failed "" a.found)
    if not (is_some present) then call (upsert row) (failed "" a.upserted) else pure tt

  unfoldable pub payment_events : NativeTransaction → PaymentTransaction → Handling (List Event)
  unfolding handle_payment handle_prover_tx
  payment_events t p =
      if str_eq p.destination a.xrpl_multisig
      then (if not (is_some p.memos) then pure [] else within events (handle_payment env p))
      else if str_eq t.account a.xrpl_multisig
      then within events (handle_prover_tx env t.read)
      else pure []

  unfoldable pub events_of : NativeTransaction → TransactionKind → Handling (List Event)
  unfolding payment_events handle_prover_tx
  events_of t (TransactionKind.payment p) = payment_events t p
  events_of t TransactionKind.ticket_create = within events (handle_prover_tx env t.read)
  events_of t TransactionKind.trust_set =
      if str_eq t.account a.xrpl_multisig
      then within events (handle_prover_tx env t.read)
      else pure []
  events_of t TransactionKind.signer_list_set = within events (handle_prover_tx env t.read)
  events_of t TransactionKind.other = do
    lift (failed "Failed to serialize transaction: " (a.json t))
    pure []

  unfoldable pub handle_transaction : ChainTransaction NativeTransaction X → Handling (List Event)
  unfolding from_native_transaction stored_once events_of
  handle_transaction (ChainTransaction.ton x) =
      raise (IngestorError.unexpected_chain_transaction_type (a.debug (ChainTransaction.ton x)))
  handle_transaction (ChainTransaction.xrpl t) = do
    row ← lift (failed "" (from_native_transaction t))
    stored_once t.kind row
    events_of t t.kind
