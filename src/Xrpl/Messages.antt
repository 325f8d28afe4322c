-- ===== src/Xrpl/Messages.antt =====
-- What the relayer reads of a message of the XRP ledger (`XRPLMessage` of the crate `xrpl_types`),
-- with `parse_message_from_context` and `event_attribute` of relayer_base/src/utils.rs. A hash, an
-- account and a chain are their texts; an issued amount is its token and its decimal text.
use axelar_relayer.Base.Dict.{lookup}
use axelar_relayer.Base.{
  ℕ, String, str_eq, concat, Option, none, some, find_first, Result, ok, err, and_then, map_err,
}
use axelar_relayer.Gmp.Task.{TaskMetadata, WasmEvent, EventAttribute}
use axelar_relayer.Gmp.Errors.{IngestorError}

pub data PaymentAmount : Type 0 where
  drops : ℕ → PaymentAmount
  issued : String → String → PaymentAmount

pub record InterchainTransferMessage : Type 0 where
  pub tx_id : String
  pub source_address : String
  pub destination_address : String
  pub destination_chain : String
  pub payload_hash : Option String
  pub transfer_amount : PaymentAmount
  pub gas_fee_amount : PaymentAmount

pub record CallContractMessage : Type 0 where
  pub tx_id : String
  pub source_address : String
  pub destination_address : String
  pub destination_chain : String
  pub payload_hash : String
  pub gas_fee_amount : PaymentAmount

pub record AddGasMessage : Type 0 where
  pub tx_id : String
  pub source_address : String
  pub msg_id : String
  pub amount : PaymentAmount

pub record AddReservesMessage : Type 0 where
  pub tx_id : String
  pub amount : ℕ

pub record ProverMessage : Type 0 where
  pub tx_id : String
  pub unsigned_tx_hash : String

pub data XrplMessage : Type 0 where
  interchain_transfer_message : InterchainTransferMessage → XrplMessage
  call_contract_message : CallContractMessage → XrplMessage
  add_gas_message : AddGasMessage → XrplMessage
  add_reserves_message : AddReservesMessage → XrplMessage
  prover_message : ProverMessage → XrplMessage

abbrev pub tx_id : XrplMessage → String
tx_id (XrplMessage.interchain_transfer_message m) = m.tx_id
tx_id (XrplMessage.call_contract_message m) = m.tx_id
tx_id (XrplMessage.add_gas_message m) = m.tx_id
tx_id (XrplMessage.add_reserves_message m) = m.tx_id
tx_id (XrplMessage.prover_message m) = m.tx_id

value_of : Option EventAttribute → Option String
value_of none = none
value_of (some a) = some a.value

unfoldable pub event_attribute : WasmEvent → String → Option String
unfolding value_of
event_attribute event key = value_of (find_first (λ e. str_eq e.key key) event.attributes)

abbrev pub or_error : {A : Type 0} → String → Option A → Result A IngestorError
or_error m none = err (IngestorError.generic_error m)
or_error m (some a) = ok a

abbrev pub failed : {A : Type 0} → String → Result A String → Result A IngestorError
failed what = map_err (λ e. IngestorError.generic_error (concat what e))

-- `parse` is `serde_json::from_str`
unfoldable pub parse_message_from_context :
    (String → Result XrplMessage String) → Option TaskMetadata → Result XrplMessage IngestorError
parse_message_from_context parse metadata =
    and_then (or_error "Verify task missing meta field" metadata) (λ m.
      and_then (or_error "Verify task missing source_context field" m.source_context) (λ context.
        and_then
          (or_error "Verify task missing xrpl_message in source_context"
            (lookup "xrpl_message" context))
          (λ text.
            failed (concat "Failed to parse xrpl_message from " (concat text ": ")) (parse text))))
