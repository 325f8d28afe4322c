-- ===== src/Xrpl/Routing.antt =====
-- xrpl/src/ingestor.rs: what follows on the verification of a message of the XRP ledger
-- (`handle_verify`, `handle_wasm_event` and their parts). The GMP API, the XRPL client, the table of
-- transactions and the JSON and hex libraries enter by what they answer. `R` is the type of a
-- serialized request.
pub mod Quorum
pub mod Statuses
use axelar_relayer.Base.Texts.{contains, to_lowercase}
use axelar_relayer.Base.{
  Bool, true, false, not, String, str_eq, concat, if◌then◌else◌, unwrap_or, Option, none, some,
  List, [], ◌∷◌, Result, ok, err, map_err, Exec, ◌>>=◌, ◌>>◌, pure, raise, lift, call, ask,
}
use axelar_relayer.Gmp.Task.{VerifyTask, ReactToWasmEventTask, VerificationStatus}
use axelar_relayer.Gmp.Event.{Event, MessageExecutionStatus, PostEventResult}
use axelar_relayer.Gmp.Errors.{IngestorError, GmpApiError, gmp_api_text, ingestor_text}
use axelar_relayer.Xrpl.Memos.{Memo, Hex, extract_and_decode_memo, extract_hex_xrpl_memo}
use axelar_relayer.Xrpl.Messages.{
  XrplMessage, AddGasMessage, AddReservesMessage, ProverMessage, tx_id, event_attribute, or_error,
  failed, parse_message_from_context,
}

pub data XrplTransactionStatus : Type 0 where
  detected initialized verified routed : XrplTransactionStatus

-- The messages to the two contracts; the first two are to the gateway, and so is the last.
pub data ExecuteMsg : Type 0 where
  verify_messages : XrplMessage → ExecuteMsg
  confirm_add_gas_messages : AddGasMessage → ExecuteMsg
  confirm_add_reserves_message : AddReservesMessage → ExecuteMsg
  confirm_prover_message : ProverMessage → ExecuteMsg
  route_incoming_messages : XrplMessage → Option String → ExecuteMsg

-- A transaction of the ledger, by what the code reads of it. `transaction_result` is the JSON text of
-- the one of its metadata.
pub record Transaction : Type 0 where
  pub is_payment : Bool
  pub hash : Option String
  pub memos : Option (List Memo)
  pub transaction_result : Option String
  pub fee : String

pub data RoutingCall (R : Type 0) : Type 0 where
  update_verify_task : String → String → RoutingCall R
  update_verify_tx : String → String → RoutingCall R
  update_quorum_reached_task : String → String → RoutingCall R
  update_status : String → XrplTransactionStatus → RoutingCall R
  update_route_tx : String → String → RoutingCall R
  post_broadcast : String → R → RoutingCall R
  get_payload : String → RoutingCall R
  xrpl_tx : String → RoutingCall R
  post_events : List Event → RoutingCall R

-- `tx_hash` is `tx_hash_as_hex_no_prefix`, `bytes` a hex decoding, `hash` the conversion to 32 bytes,
-- `payload_bytes` that to a payload. The names of the two contracts are the configuration's.
pub record Env (R : Type 0) : Type 0 where
  pub chain_gateway : String
  pub chain_multisig_prover : String
  pub now : String
  pub hex : Hex
  pub bytes : String → Result String String
  pub hash : String → Option String
  pub payload_bytes : String → Result String String
  pub tx_hash : String → String
  pub to_value : ExecuteMsg → Result R String
  pub verify_text : VerifyTask → Result String String
  pub event_text : ReactToWasmEventTask → Result String String
  pub parse_message : String → Result XrplMessage String
  pub parse_with_cross_chain_id : String → Option XrplMessage
  pub parse_status : String → Result VerificationStatus String
  pub parse_text : String → Result String String
  pub stored : RoutingCall R → Result (Unit {0}) String
  pub broadcast : String → R → Result String GmpApiError
  pub payload : String → Result String GmpApiError
  pub transaction : String → Result Transaction String
  pub posted : List Event → Result (List PostEventResult) GmpApiError

module _ {R : Type 0} (env : Env R) where
  abbrev pub Routing : Type 0 → Type 0
  Routing A = Exec (RoutingCall R) IngestorError A

  -- a call of the table
  abbrev pub store : RoutingCall R → Routing (Unit {0})
  store c = call c (failed "" (env.stored c))

  unfoldable pub verify_message : XrplMessage → Routing (Unit {0})
  verify_message message = do
    request ←
        lift
          (failed "Failed to serialize VerifyMessages: " (env.to_value (verify_messages message)))
    verify_tx_hash ← call (post_broadcast env.chain_gateway request) (
        map_err (λ e. IngestorError.generic_error (gmp_api_text e))
          (env.broadcast env.chain_gateway request))
    store (update_verify_tx (env.tx_hash (tx_id message)) verify_tx_hash)

  unfoldable pub handle_verify : VerifyTask → Routing (Unit {0})
  unfolding verify_message parse_message_from_context
  handle_verify t = do
    message ← lift (parse_message_from_context env.parse_message t.common.meta)
    text ← lift (failed "Failed to serialize VerifyTask: " (env.verify_text t))
    store (update_verify_task (env.tx_hash (tx_id message)) text)
    verify_message message

  unfoldable pub confirm_add_gas_message_request : AddGasMessage → Routing (String × R)
  confirm_add_gas_message_request m = do
    request ← lift (
        failed "Failed to serialize ConfirmAddGasMessages: "
          (env.to_value (confirm_add_gas_messages m)))
    pure (env.chain_gateway, request)

  unfoldable pub confirm_add_reserves_message_request : AddReservesMessage → Routing (String × R)
  confirm_add_reserves_message_request m = do
    request ← lift (
        failed "Failed to serialize ConfirmAddReservesMessage: "
          (env.to_value (confirm_add_reserves_message m)))
    pure (env.chain_multisig_prover, request)

  unfoldable pub confirm_prover_message_request : Transaction → Routing (String × R)
  unfolding extract_and_decode_memo
  confirm_prover_message_request tx = do
    hash ← lift (or_error "Transaction missing field 'hash'" tx.hash)
    tx_hash_bytes ← lift (failed "Failed to decode tx hash: " (env.bytes hash))
    unsigned ← lift (failed "" (extract_and_decode_memo env.hex tx.memos "unsigned_tx_hash"))
    unsigned_bytes ← lift (failed "Failed to decode unsigned tx hash: " (env.bytes unsigned))
    id ← lift (or_error "Invalid length of tx hash bytes" (env.hash tx_hash_bytes))
    unsigned_id ←
        lift (or_error "Invalid length of unsigned tx hash bytes" (env.hash unsigned_bytes))
    request ← lift (
        failed "Failed to serialize ConfirmTxStatus: " (
          env.to_value
            (confirm_prover_message (record { tx_id = id; unsigned_tx_hash = unsigned_id }))))
    pure (env.chain_multisig_prover, request)

  -- the payload of a hash
  unfoldable pub cached_payload : Option String → Routing (Option String)
  cached_payload none = pure none
  cached_payload (some payload_hash) = do
    text ← call (get_payload payload_hash) (
        map_err
          (λ e.
            IngestorError.generic_error
              (concat "Failed to get payload from cache: " (gmp_api_text e)))
          (env.payload payload_hash))
    decoded ← lift (failed "Failed to decode payload: " (env.bytes text))
    payload ← lift (failed "Failed to convert payload bytes to array: " (env.payload_bytes decoded))
    pure (some payload)

  abbrev payload_hash_of : XrplMessage → Result (Option String) IngestorError
  payload_hash_of (XrplMessage.interchain_transfer_message m) = ok m.payload_hash
  payload_hash_of (XrplMessage.call_contract_message m) = ok (some m.payload_hash)
  payload_hash_of _ = err (
      IngestorError.generic_error
        "Routing only supported for InterchainTransferMessage and CallContractMessage")

  unfoldable pub route_incoming_message_request : XrplMessage → Routing (String × R)
  unfolding cached_payload
  route_incoming_message_request message = do
    payload_hash ← lift (payload_hash_of message)
    payload ← cached_payload payload_hash
    request ← lift (
        failed "Failed to serialize RouteIncomingMessages: "
          (env.to_value (route_incoming_messages message payload)))
    pure (env.chain_gateway, request)
