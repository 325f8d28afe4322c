-- ===== src/Xrpl/Payments/Build.antt =====
-- `build_xrpl_message` of xrpl/src/ingestor.rs.
use axelar_relayer.Base.{String, concat, Option, none, map_err, ◌>>=◌, pure, raise, lift}
use axelar_relayer.Gmp.Errors.{IngestorError}
use axelar_relayer.Xrpl.Messages.{PaymentAmount, XrplMessage, or_error, failed}
use axelar_relayer.Xrpl.Payments.{
  PaymentTransaction, MessageType, WithPayload, Env, Building, subtraction_text,
  parse_payment_amount, parse_gas_fee_amount, parse_payload_and_payload_hash, memo, hash32,
  payload_hash32, optional_hash, with_payload,
}

module _ (env : Env) where
  -- what all messages to another chain have
  abbrev pub destination :
      PaymentTransaction → Building (String × String × Option String × Option String)
  destination payment = do
    chain ← lift (memo env payment "destination_chain")
    address ← lift (memo env payment "destination_address")
    (payload, payload_hash) ← parse_payload_and_payload_hash env payment.memos
    address' ← lift (failed "Invalid destination_address: " (env.destination_address address))
    chain' ← lift (failed "Invalid destination_chain: " (env.destination_chain chain))
    pure (address', chain', payload, payload_hash)

  unfoldable pub build_interchain_transfer :
      PaymentTransaction → String → PaymentAmount → String → Building WithPayload
  unfolding parse_payload_and_payload_hash parse_gas_fee_amount
  build_interchain_transfer payment tx_id amount source_address = do
    gas ← lift (memo env payment "gas_fee_amount")
    gas_fee_amount ← lift (parse_gas_fee_amount env amount gas)
    (address, chain, payload, payload_hash) ← destination payment
    hash ← lift (optional_hash env payload_hash)
    transfer_amount ← lift (
        map_err (λ e. IngestorError.generic_error (subtraction_text e))
          (env.sub amount gas_fee_amount))
    lift (
        with_payload env
          (XrplMessage.interchain_transfer_message (record {
            tx_id = tx_id;
            source_address = source_address;
            destination_address = address;
            destination_chain = chain;
            payload_hash = hash;
            transfer_amount = transfer_amount;
            gas_fee_amount = gas_fee_amount;
          }))
          payload)

  unfoldable pub build_call_contract :
      PaymentTransaction → String → PaymentAmount → String → Building WithPayload
  unfolding parse_payload_and_payload_hash
  build_call_contract payment tx_id amount source_address = do
    (address, chain, payload, payload_hash) ← destination payment
    text ← lift (or_error "Payload hash is required for CallContract" payload_hash)
    hash ← lift (payload_hash32 env text)
    lift (
        with_payload env
          (XrplMessage.call_contract_message (record {
            tx_id = tx_id;
            source_address = source_address;
            destination_address = address;
            destination_chain = chain;
            payload_hash = hash;
            gas_fee_amount = amount;
          }))
          payload)

  unfoldable pub build_add_gas :
      PaymentTransaction → String → PaymentAmount → String → Building WithPayload
  build_add_gas payment tx_id amount source_address = do
    text ← lift (memo env payment "msg_id")
    bytes ← lift (failed "Failed to decode unsigned tx hash: " (env.bytes text))
    msg_id ← lift (or_error "Invalid length of msg_tx_id bytes" (env.hash bytes))
    lift (
        with_payload env
          (XrplMessage.add_gas_message (record {
            tx_id = tx_id;
            source_address = source_address;
            msg_id = msg_id;
            amount = amount;
          }))
          none)

  unfoldable pub build_add_reserves : String → PaymentAmount → Building WithPayload
  build_add_reserves tx_id (PaymentAmount.drops n) = lift (
      with_payload env (XrplMessage.add_reserves_message (record { tx_id = tx_id; amount = n }))
        none)
  build_add_reserves tx_id (PaymentAmount.issued _ _) =
      raise (IngestorError.generic_error "Add fee reserve requires amount to be in XRP drops")

  -- by the type of the message
  unfoldable pub built :
      PaymentTransaction → String → PaymentAmount → String → MessageType → Building WithPayload
  unfolding build_interchain_transfer build_call_contract build_add_gas build_add_reserves
  built payment tx_id amount source_address MessageType.interchain_transfer =
      build_interchain_transfer payment tx_id amount source_address
  built payment tx_id amount source_address MessageType.call_contract =
      build_call_contract payment tx_id amount source_address
  built payment tx_id amount source_address MessageType.add_gas =
      build_add_gas payment tx_id amount source_address
  built payment tx_id amount source_address MessageType.add_reserves =
      build_add_reserves tx_id amount
  built payment tx_id amount source_address (MessageType.prover text) =
      raise (IngestorError.generic_error (concat "Unsupported message type: " text))

  unfoldable pub build_xrpl_message : PaymentTransaction → Building WithPayload
  unfolding parse_payment_amount build_interchain_transfer build_call_contract build_add_gas
      build_add_reserves
  build_xrpl_message payment = do
    tx_hash ← lift (or_error "Payment transaction missing field 'hash'" payment.hash)
    tx_id ← lift (hash32 env "Failed to hex-decode tx_id" "Invalid length of tx_id bytes" tx_hash)
    type_text ← lift (memo env payment "type")
    message_type ← lift (
        failed (concat "Failed to parse message type " (concat type_text ": "))
          (env.message_type type_text))
    amount ← lift (parse_payment_amount env payment)
    source_address ← lift (failed "Invalid source account: " (env.account_id payment.account))
    built payment tx_id amount source_address message_type
