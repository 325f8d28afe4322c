-- ===== src/Xrpl/Payments.antt =====
-- The parts of `build_xrpl_message` of xrpl/src/ingestor.rs, with `parse_payment_amount` and
-- `parse_gas_fee_amount` of relayer_base/src/utils.rs: the message that a payment on the XRP ledger
-- carries in its memos. The types of the crate `xrpl_types`, the hex library and the GMP API enter by
-- what they answer.
pub mod Build
pub mod Amounts
use axelar_relayer.Base.Texts.{parse_u64}
use axelar_relayer.Base.{
  ℕ, ◌&&◌, Bool, true, false, String, concat, if◌then◌else◌, is_ok, Option, none, some, List, [],
  ◌∷◌, Result, ok, err, and_then, map_err, Exec, ◌>>=◌, ◌>>◌, pure, raise, lift, call,
}
use axelar_relayer.Gmp.Errors.{IngestorError, GmpApiError, gmp_api_text}
use axelar_relayer.Xrpl.Memos.{Memo, Hex, extract_from_xrpl_memo, extract_and_decode_memo}
use axelar_relayer.Xrpl.Messages.{PaymentAmount, XrplMessage, or_error, failed}

-- An amount of a payment, of `xrpl_api`: of issued ones, the value, the currency and the issuer.
pub data Amount : Type 0 where
  drops : String → Amount
  issued : String → String → String → Amount
  other : Amount

pub record PaymentTransaction : Type 0 where
  pub hash : Option String
  pub account : String
  pub destination : String
  pub memos : Option (List Memo)
  pub amount : Amount

pub data MessageType : Type 0 where
  interchain_transfer call_contract add_gas add_reserves : MessageType
  -- by its text
  prover : String → MessageType

pub data XrplError : Type 0 where
  subtraction_underflow : XrplError
  other : String → XrplError

pub data PaymentCall : Type 0 where
  post_payload : String → PaymentCall
  get_payload : String → PaymentCall

pub record WithPayload : Type 0 where
  pub message : XrplMessage
  pub payload : Option String

-- `bytes` is a hex decoding, `hash` the conversion to 32 bytes, and `payload_bytes` that to a payload.
pub record Env : Type 0 where
  pub hex : Hex
  pub bytes : String → Result String String
  pub hash : String → Option String
  pub payload_bytes : String → Result String String
  pub message_type : String → Result MessageType String
  pub account_id : String → Result String String
  pub issuer : String → Option String
  pub currency : String → Option String
  pub token : String → String → String
  pub token_amount : String → Option String
  pub destination_address : String → Result String String
  pub destination_chain : String → Result String String
  pub sub : PaymentAmount → PaymentAmount → Result PaymentAmount XrplError
  pub posted_payload : String → Result String GmpApiError
  pub cached_payload : String → Result String GmpApiError

abbrev pub Building : Type 0 → Type 0
Building A = Exec PaymentCall IngestorError A

abbrev api_failed : {A : Type 0} → String → Result A GmpApiError → Result A IngestorError
api_failed what = map_err (λ e. IngestorError.generic_error (concat what (gmp_api_text e)))

abbrev pub subtraction_text : XrplError → String
subtraction_text XrplError.subtraction_underflow = "Transfer amount is less than gas fee amount"
subtraction_text (XrplError.other e) = concat "Failed to subtract gas fee amount: " e

module _ (env : Env) where
  unfoldable pub parse_payment_amount : PaymentTransaction → Result PaymentAmount IngestorError
  unfolding parse_u64
  parse_payment_amount payment = elim payment.amount [
    | Amount.drops text ↦
        and_then (or_error "Failed to parse amount as u64" (parse_u64 text))
          (λ n. ok (PaymentAmount.drops n))
    | Amount.issued value currency issuer ↦
        and_then (or_error "Failed to parse issuer as XRPLAccountId" (env.issuer issuer)) (λ i.
          and_then (or_error "Failed to parse currency as XRPLCurrency" (env.currency currency))
            (λ c.
              and_then
                (or_error "Failed to parse amount as XRPLTokenAmount" (env.token_amount value))
                (λ v. ok (PaymentAmount.issued (env.token i c) v))))
    | Amount.other ↦
        err (IngestorError.generic_error "Payment amount must be either Drops or Issued")
  ]

  unfoldable pub parse_gas_fee_amount : PaymentAmount → String → Result PaymentAmount IngestorError
  unfolding parse_u64
  parse_gas_fee_amount (PaymentAmount.issued token _) text =
      and_then
        (or_error "Failed to parse gas fee amount as XRPLTokenAmount" (env.token_amount text))
        (λ v. ok (PaymentAmount.issued token v))
  parse_gas_fee_amount (PaymentAmount.drops _) text =
      and_then (or_error "Failed to parse gas fee amount as u64" (parse_u64 text))
        (λ n. ok (PaymentAmount.drops n))

  unfoldable pub parse_payload_and_payload_hash :
      Option (List Memo) → Building (Option String × Option String)
  unfolding extract_from_xrpl_memo
  parse_payload_and_payload_hash memos =
      let payload_hash_memo = extract_from_xrpl_memo env.hex memos "payload_hash" in
      let payload_memo = extract_from_xrpl_memo env.hex memos "payload" in
      if is_ok payload_memo && is_ok payload_hash_memo
      then raise (
          IngestorError.generic_error
            "Payment transaction cannot have both 'payload' and 'payload_hash' memos")
      else elim payload_memo [
        | ok payload ↦ do
          bytes ← lift (failed "Failed to decode payload: " (env.bytes payload))
          hash ←
              call (post_payload bytes)
                (api_failed "Failed to store payload in cache: " (env.posted_payload bytes))
          pure (some payload, some hash)
        | err _ ↦ elim payload_hash_memo [
          | ok hash ↦ do
            payload ←
                call (get_payload hash)
                  (api_failed "Failed to get payload from cache: " (env.cached_payload hash))
            pure (some payload, some hash)
          | err _ ↦ pure (none, none)
        ]
      ]

  -- a decoded memo
  abbrev pub memo : PaymentTransaction → String → Result String IngestorError
  memo payment memo_type = failed "" (extract_and_decode_memo env.hex payment.memos memo_type)

  abbrev pub hash32 : String → String → String → Result String IngestorError
  hash32 undecoded invalid text =
      and_then (map_err (λ _. IngestorError.generic_error undecoded) (env.bytes text))
        (λ bytes. or_error invalid (env.hash bytes))

  abbrev pub payload_hash32 : String → Result String IngestorError
  payload_hash32 = hash32 "Failed to hex-decode payload_hash" "Invalid length of payload_hash bytes"

  abbrev pub optional_hash : Option String → Result (Option String) IngestorError
  optional_hash none = ok none
  optional_hash (some text) = and_then (payload_hash32 text) (λ h. ok (some h))

  abbrev pub with_payload : XrplMessage → Option String → Result WithPayload IngestorError
  with_payload message none = ok (record { message = message; payload = none })
  with_payload message (some text) =
      and_then (failed "Failed to decode payload: " (env.bytes text)) (λ bytes.
        and_then (failed "Failed to convert payload to HexBinary: " (env.payload_bytes bytes))
          (λ payload. ok (record { message = message; payload = some payload })))
