-- ===== src/Xrpl/Events.antt =====
-- `handle_payment`, `handle_gmp_message`, `handle_add_gas_message`, `handle_add_reserves_message` and
-- `handle_prover_tx` of xrpl/src/ingestor.rs, with the events of gas and of transfers: what the
-- ingestor reports of a payment on the XRP ledger.
pub mod Amounts
use axelar_relayer.Base.Texts.{to_lowercase, to_string}
use axelar_relayer.Base.{
  ℕ, ◌%◌, ◌^◌, String, concat, Option, none, some, List, [], ◌∷◌, Result, ok, err, map_err, Exec,
  ◌>>=◌, ◌>>◌, pure, raise, lift, attempt, Outcome, done, fail, panic,
}
use axelar_relayer.Gmp.Event.{Event}
use axelar_relayer.Gmp.Errors.{IngestorError}
use axelar_relayer.Prices.{
  Config, Decimals, PriceCall, get_token_by_symbol, get_token_decimals, or_panic,
  convert_token_amount_to_drops,
}
use axelar_relayer.Xrpl.Memos.{extract_and_decode_memo}
use axelar_relayer.Xrpl.Messages.{
  PaymentAmount, InterchainTransferMessage, XrplMessage, tx_id, or_error, failed,
}
use axelar_relayer.Xrpl.Payments.{PaymentTransaction, WithPayload}
use axelar_relayer.Xrpl.Payments.Build.{build_xrpl_message}
use axelar_relayer.Xrpl.Routing.{Transaction, verify_message}
use axelar_relayer.Xrpl.Translation.{
  Env, Ingesting, EventsCall, building, routing, pricing, within, get_token_id,
  call_event_from_message,
}

-- The message id, the sender and the amount of what a message pays for gas.
record GasPaid : Type 0 where
  pub msg_id : String
  pub source_address : String
  pub gas_fee_amount : PaymentAmount

abbrev text_outcome : {A : Type 0} → Outcome A String → Outcome A IngestorError
text_outcome (done a) = done a
text_outcome (fail e) = fail (IngestorError.generic_error e)
text_outcome panic = panic

abbrev within_text : {C D A : Type 0} → (C → D) → Exec C String A → Exec D IngestorError A
within_text f (o, t) = within f (text_outcome o, t)

module _ {R D F : Type 0} (env : Env R D F) where
  abbrev gas_paid : XrplMessage → Result GasPaid IngestorError
  gas_paid (XrplMessage.interchain_transfer_message m) = ok (record {
    msg_id = to_lowercase m.tx_id;
    source_address = m.source_address;
    gas_fee_amount = m.gas_fee_amount;
  })
  gas_paid (XrplMessage.call_contract_message m) = ok (record {
    msg_id = to_lowercase m.tx_id;
    source_address = m.source_address;
    gas_fee_amount = m.gas_fee_amount;
  })
  gas_paid (XrplMessage.add_gas_message m) = ok (record {
    msg_id = to_lowercase m.msg_id;
    source_address = m.source_address;
    gas_fee_amount = m.amount;
  })
  gas_paid message = err (
      IngestorError.generic_error (
        concat "Gas credit event not supported for this message type: "
          (env.message_debug message)))

  abbrev scientific : String → Result D IngestorError
  scientific amount =
      failed (concat "Failed to parse amount " (concat amount ": "))
        (env.decimals.from_scientific amount)

  unfoldable pub gas_fee_amount_drops : PaymentAmount → Option String → Ingesting env String
  unfolding to_string convert_token_amount_to_drops
  gas_fee_amount_drops (PaymentAmount.drops n) maybe_token_id = pure (to_string n)
  gas_fee_amount_drops (PaymentAmount.issued _ amount) none =
      raise (IngestorError.generic_error "Gas token id can't be None for IOU transfer")
  gas_fee_amount_drops (PaymentAmount.issued _ amount) (some gas_token_id) = do
    value ← lift (scientific amount)
    within_text pricing
        (convert_token_amount_to_drops env.config env.decimals env.price value gas_token_id)

  abbrev gas_credit : XrplMessage → GasPaid → String → Event
  gas_credit message paid drops = Event.gas_credit (record {
    common = record {
      type = "GAS_CREDIT";
      event_id = concat (to_lowercase (tx_id message)) "-gas";
      meta = some (record {
        tx_id = some (to_lowercase (tx_id message));
        from_address = none;
        finalized = none;
        source_context = none;
        timestamp = env.routing.now;
      });
    };
    message_id = paid.msg_id;
    refund_address = paid.source_address;
    payment = record { token_id = none; amount = drops };
  })

  unfoldable pub gas_credit_event_from_payment : WithPayload → Option String → Ingesting env Event
  unfolding gas_fee_amount_drops to_lowercase
  gas_credit_event_from_payment w maybe_token_id = do
    paid ← lift (gas_paid w.message)
    drops ← gas_fee_amount_drops paid.gas_fee_amount maybe_token_id
    pure (gas_credit w.message paid drops)

  -- the amount and the token id of a transfer; `10_i128.pow` wraps
  unfoldable pub token_spent : PaymentAmount → Option String → Ingesting env (String × String)
  unfolding to_string get_token_by_symbol get_token_decimals
  token_spent (PaymentAmount.drops n) maybe_token_id = do
    token ← lift (or_error "XRP token id not found" (get_token_by_symbol env.config "XRP"))
    pure (to_string n, token.id)
  token_spent (PaymentAmount.issued _ amount) none =
      raise (IngestorError.generic_error "Token id can't be None for IOU transfer")
  token_spent (PaymentAmount.issued _ amount) (some token_id) = do
    original_amount ← lift (scientific amount)
    token_decimals ← lift (or_error "Token id not found" (get_token_decimals env.config token_id))
    factor ← or_panic (env.decimals.from_i128 (10 ^ token_decimals % 2 ^ 128))
    amount_with_decimals ← lift (
        or_error "Failed to multiply amount by token decimals"
          (env.decimals.checked_mul original_amount factor))
    pure (env.decimals.trunc amount_with_decimals, token_id)

  abbrev transfer_event : InterchainTransferMessage → String → String → Event
  transfer_event m amount token_id = Event.its_interchain_transfer (record {
    common = record {
      type = "ITS/INTERCHAIN_TRANSFER";
      event_id = concat "its-interchain-transfer-" m.tx_id;
      meta = some (record {
        tx_id = some (to_lowercase m.tx_id);
        from_address = none;
        finalized = none;
        source_context = none;
        timestamp = env.routing.now;
      });
    };
    message_id = m.tx_id;
    destination_chain = m.destination_chain;
    token_spent = record { token_id = some token_id; amount = amount };
    source_address = m.source_address;
    destination_address = m.destination_address;
    data_hash = "00000000000000000000000000000000";
  })

  unfoldable pub its_interchain_transfer_event : XrplMessage → Option String → Ingesting env Event
  unfolding token_spent to_lowercase
  its_interchain_transfer_event (XrplMessage.interchain_transfer_message m) maybe_token_id = do
    (amount, token_id) ← token_spent m.transfer_amount maybe_token_id
    pure (transfer_event m amount token_id)
  its_interchain_transfer_event message maybe_token_id = raise (
      IngestorError.generic_error (
        concat "Cannot create ITSInterchainTransfer event for message: "
          (env.message_debug message)))

  -- the event that only a transfer has
  unfoldable pub transfer_events : XrplMessage → Option String → Ingesting env (List Event)
  unfolding its_interchain_transfer_event
  transfer_events (XrplMessage.interchain_transfer_message m) token_id = do
    event ← its_interchain_transfer_event (XrplMessage.interchain_transfer_message m) token_id
    pure (event ∷ [])
  transfer_events message token_id = pure []

  -- behind the call, if there is one
  unfoldable pub gmp_events : WithPayload → Option Event → Ingesting env (List Event)
  unfolding get_token_id gas_credit_event_from_payment transfer_events
  gmp_events w none = pure []
  gmp_events w (some event) = do
    token_id ← get_token_id env w.message
    gas ← gas_credit_event_from_payment w token_id
    transfers ← transfer_events w.message token_id
    pure (event ∷ gas ∷ transfers)

  unfoldable pub handle_gmp_message : WithPayload → Ingesting env (List Event)
  unfolding call_event_from_message gmp_events
  handle_gmp_message w = do maybe_event ← call_event_from_message env w; gmp_events w maybe_event

  unfoldable pub handle_add_gas_message : WithPayload → Ingesting env (List Event)
  unfolding get_token_id gas_credit_event_from_payment verify_message
  handle_add_gas_message w = do
    token_id ← get_token_id env w.message
    gas ← gas_credit_event_from_payment w token_id
    within routing (verify_message env.routing w.message)
    pure (gas ∷ [])

  unfoldable pub handle_add_reserves_message : WithPayload → Ingesting env (List Event)
  unfolding verify_message
  handle_add_reserves_message w = do within routing (verify_message env.routing w.message); pure []

  unfoldable pub handle_message : WithPayload → XrplMessage → Ingesting env (List Event)
  unfolding handle_gmp_message handle_add_gas_message handle_add_reserves_message
  handle_message w (XrplMessage.interchain_transfer_message _) = handle_gmp_message w
  handle_message w (XrplMessage.call_contract_message _) = handle_gmp_message w
  handle_message w (XrplMessage.add_gas_message _) = handle_add_gas_message w
  handle_message w (XrplMessage.add_reserves_message _) = handle_add_reserves_message w
  handle_message w (XrplMessage.prover_message _) = pure []

  -- a payment that is no message is taken as done, whatever the error
  unfoldable pub handle_payment : PaymentTransaction → Ingesting env (List Event)
  unfolding build_xrpl_message handle_message
  handle_payment payment = do
    answer ← attempt (within building (build_xrpl_message env.payments payment))
    elim answer [ ok w ↦ handle_message w w.message | err _ ↦ pure [] ]

  unfoldable pub handle_prover_tx : Transaction → Ingesting env (List Event)
  unfolding extract_and_decode_memo verify_message
  handle_prover_tx tx = do
    unsigned ←
        lift (failed "" (extract_and_decode_memo env.routing.hex tx.memos "unsigned_tx_hash"))
    unsigned_bytes ←
        lift (failed "Failed to decode unsigned tx hash: " (env.routing.bytes unsigned))
    hash ← lift (or_error "Transaction missing hash" tx.hash)
    hash_bytes ← lift (
        map_err (λ _. IngestorError.generic_error "Cannot decode tx hash") (env.routing.bytes hash))
    id ←
        lift
          (or_error "Cannot convert tx hash to bytes: invalid length" (env.routing.hash hash_bytes))
    unsigned_id ← lift (
        or_error "Cannot convert unsigned tx hash to bytes: invalid length"
          (env.routing.hash unsigned_bytes))
    within routing (
        verify_message env.routing
          (XrplMessage.prover_message (record { tx_id = id; unsigned_tx_hash = unsigned_id })))
    pure []
