-- ===== src/Xrpl/Translation.antt =====
-- `translate_message`, `get_token_id` and `call_event_from_message` of xrpl/src/ingestor.rs: what the
-- gateway makes of a message, and the call that is reported of it. The GMP API, the table and the JSON
-- and base64 libraries enter by what they answer.
use axelar_relayer.Base.Texts.{strip_0x, to_lowercase}
use axelar_relayer.Base.{
  String, concat, Option, none, some, [], ◌∷◌, map, Result, ok, err, map_err, Exec, ◌>>=◌, ◌>>◌,
  pure, lift, call, Outcome, done, fail, panic,
}
use axelar_relayer.Gmp.Event.{Event}
use axelar_relayer.Gmp.Errors.{IngestorError, GmpApiError, gmp_api_text}
use axelar_relayer.Prices.{Config, Decimals, PriceCall}
use axelar_relayer.Xrpl.Messages.{
  PaymentAmount, InterchainTransferMessage, CallContractMessage, XrplMessage, tx_id, or_error,
  failed,
}
use axelar_relayer.Xrpl.Payments.{PaymentCall, WithPayload}
use axelar_relayer.Xrpl.Routing.{XrplTransactionStatus, RoutingCall, update_status, store}

-- A message of the router, its parts by their texts; of the payload hash, that in hex.
pub record RouterMessage : Type 0 where
  pub message_id : String
  pub source_chain : String
  pub source_address : String
  pub destination_chain : String
  pub destination_address : String
  pub payload_hash : String

pub record MessageWithPayload : Type 0 where
  pub message : RouterMessage
  pub payload : String

pub data QueryMsg : Type 0 where
  xrpl_token_id : String → QueryMsg
  interchain_transfer : InterchainTransferMessage → Option String → QueryMsg
  call_contract : CallContractMessage → String → QueryMsg

pub data ItsTranslationError : Type 0 where
  request_error invalid_message_type no_payload serialization_error : String → ItsTranslationError

pub data EventsCall (R : Type 0) : Type 0 where
  building : PaymentCall → EventsCall R
  routing : RoutingCall R → EventsCall R
  pricing : PriceCall → EventsCall R
  post_query : String → R → EventsCall R

-- `message_debug` is a message's Debug text, `bytes` a hex decoding, `encode` base64.
pub record Env (R D F : Type 0) : Type 0 where
  pub payments : axelar_relayer.Xrpl.Payments.Env
  pub routing : axelar_relayer.Xrpl.Routing.Env R
  pub config : Config F
  pub decimals : Decimals D F
  pub price : String → Result (Option D) String
  pub query_value : QueryMsg → Result R String
  pub query : R → Result String GmpApiError
  pub parse_token_id : String → Result String String
  pub parse_transfer : String → Result (Option MessageWithPayload × String) String
  pub parse_call : String → Result (MessageWithPayload × String) String
  pub message_text : XrplMessage → Result String String
  pub message_debug : XrplMessage → String
  pub encode : String → String

-- the calls of a part among those of the whole
abbrev pub within : {C D E A : Type 0} → (C → D) → Exec C E A → Exec D E A
within f (o, t) = (o, map f t)

-- a part with errors of its own, which the block looks at itself; it does not panic
abbrev caught_as : {E E' A : Type 0} → Outcome A E → Outcome (Result A E) E'
caught_as (done a) = done (ok a)
caught_as (fail e) = done (err e)
caught_as panic = panic

abbrev within_errors : {C E E' A : Type 0} → Exec C E A → Exec C E' (Result A E)
within_errors (o, t) = (caught_as o, t)

-- the token of an amount that is not in drops
abbrev token_amount : XrplMessage → Result PaymentAmount IngestorError
token_amount (XrplMessage.interchain_transfer_message m) = ok m.transfer_amount
token_amount (XrplMessage.call_contract_message m) = ok m.gas_fee_amount
token_amount (XrplMessage.add_gas_message m) = ok m.amount
token_amount _ = err (IngestorError.generic_error "Unsupported payment type")

module _ {R D F : Type 0} (env : Env R D F) where
  abbrev pub Ingesting : Type 0 → Type 0
  Ingesting A = Exec (EventsCall R) IngestorError A

  unfoldable pub get_token_id : XrplMessage → Ingesting (Option String)
  get_token_id message = do
    amount ← lift (token_amount message)
    elim amount [
      | PaymentAmount.drops _ ↦ pure none
      | PaymentAmount.issued token _ ↦ do
        request ←
            lift (failed "Failed to serialize query: " (env.query_value (xrpl_token_id token)))
        body ← call (post_query env.routing.chain_gateway request) (
            map_err
              (λ e.
                IngestorError.generic_error (concat "Failed to get token id: " (gmp_api_text e)))
              (env.query request))
        token_id ← lift (failed "Failed to parse token id: " (env.parse_token_id body))
        pure (some token_id)
    ]

  unfoldable pub query_of : XrplMessage → Option String → Result QueryMsg ItsTranslationError
  query_of (XrplMessage.interchain_transfer_message m) payload = ok (interchain_transfer m payload)
  query_of (XrplMessage.call_contract_message m) none =
      err (no_payload "Payload is required for CallContractMessage")
  query_of (XrplMessage.call_contract_message m) (some payload) = ok (call_contract m payload)
  query_of message payload = err (invalid_message_type (env.message_debug message))

  unfoldable pub response_of :
      XrplMessage → String → Result (Option MessageWithPayload × String) ItsTranslationError
  response_of (XrplMessage.interchain_transfer_message _) body =
      map_err (λ e. serialization_error (concat "Failed to parse InterchainTransfer Message: " e))
        (env.parse_transfer body)
  response_of (XrplMessage.call_contract_message _) body = elim (env.parse_call body) [
    | ok (message, gas_token_id) ↦ ok (some message, gas_token_id)
    | err e ↦ err (serialization_error (concat "Failed to parse CallContract Message: " e))
  ]
  response_of message body = err (invalid_message_type (env.message_debug message))

  unfoldable pub translate_message :
      XrplMessage
      → Option String
      → Exec (EventsCall R) ItsTranslationError (Option MessageWithPayload × String)
  unfolding query_of response_of
  translate_message message payload = do
    query ← lift (query_of message payload)
    request ← lift (
        map_err (λ e. serialization_error (concat "Failed to serialize query: " e))
          (env.query_value query))
    body ←
        call (post_query env.routing.chain_gateway request)
          (map_err (λ e. request_error (gmp_api_text e)) (env.query request))
    lift (response_of message body)

  -- a message that cannot be translated is skipped, unless the request failed
  unfoldable pub translated :
      Result (Option MessageWithPayload × String) ItsTranslationError
      → Result (Option MessageWithPayload) IngestorError
  translated (ok (message, _)) = ok message
  translated (err (request_error e)) = err (IngestorError.generic_error e)
  translated (err (serialization_error e)) = err (IngestorError.generic_error e)
  translated (err (invalid_message_type _)) = ok none
  translated (err (no_payload _)) = ok none

  abbrev call_event : XrplMessage → String → MessageWithPayload → String → Event
  call_event message text m b64_payload = Event.call (record {
    common = record {
      type = "CALL";
      event_id = concat (to_lowercase (tx_id message)) "-call";
      meta = some (record {
        tx_id = some (to_lowercase (tx_id message));
        from_address = none;
        finalized = none;
        source_context = some (("xrpl_message", text) ∷ []);
        timestamp = env.routing.now;
      });
    };
    message = record {
      message_id = to_lowercase m.message.message_id;
      source_chain = m.message.source_chain;
      source_address = m.message.source_address;
      destination_address = m.message.destination_address;
      payload_hash = m.message.payload_hash;
    };
    destination_chain = m.message.destination_chain;
    payload = b64_payload;
  })

  unfoldable pub call_of : XrplMessage → String → MessageWithPayload → Ingesting Event
  unfolding strip_0x to_lowercase
  call_of message text m = do
    xrpl_tx_hash ←
        lift (or_error "Message id is not prefixed with 0x" (strip_0x m.message.message_id))
    within routing
        (store env.routing (update_status xrpl_tx_hash XrplTransactionStatus.initialized))
    bytes ← lift (failed "Failed to decode payload: " (env.payments.bytes m.payload))
    pure (call_event message text m (env.encode bytes))

  unfoldable pub call_event_from_message : WithPayload → Ingesting (Option Event)
  unfolding translate_message translated call_of
  call_event_from_message w = do
    text ← lift (failed "Failed to serialize xrpl_message: " (env.message_text w.message))
    answer ← within_errors (translate_message w.message w.payload)
    maybe_message ← lift (translated answer)
    elim maybe_message [
      | none ↦ pure none
      | some m ↦ do event ← call_of w.message text m; pure (some event)
    ]
