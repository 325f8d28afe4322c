-- ===== src/Examples/XrplPayments.antt =====
-- The theorem on the events of payments on the XRP ledger, on a payment of 100 drops with a fee of 7.
use axelar_relayer.Base.{
  ℕ, ◌+◌, ◌-◌, ◌*◌, ◌≡◌, refl, ltb, String, if◌then◌else◌, none, some, [], ◌∷◌, Result, ok, err,
}
use axelar_relayer.Base.Texts.{parse_u64, to_string, to_lowercase}
use axelar_relayer.Gmp.Errors.{GmpApiError}
use axelar_relayer.Xrpl.Memos.{
  Memo, extract_and_decode_memo, extract_from_xrpl_memo, same_lowercase,
}
use axelar_relayer.Xrpl.Messages.{PaymentAmount}
use axelar_relayer.Xrpl.Payments.{Amount, PaymentTransaction, MessageType, XrplError, Env}
use axelar_relayer.Xrpl.Payments.Build.{build_xrpl_message, built}
use axelar_relayer.Xrpl.Events.Amounts.{transfer_reported}
use axelar_relayer.Xrpl.Events.{handle_payment, handle_message}
use axelar_relayer.Xrpl.Translation.{RouterMessage}
use axelar_relayer.Prices.{Decimals}
use axelar_relayer.Gmp.Event.{
  CommonEventFields, EventMetadata, Call, GasCredit, ItsInterchainTransfer,
}

abbrev subtracted : PaymentAmount → PaymentAmount → Result PaymentAmount XrplError
subtracted (PaymentAmount.drops a) (PaymentAmount.drops b) =
    if ltb a b then err XrplError.subtraction_underflow else ok (PaymentAmount.drops (a - b))
subtracted _ _ = err (XrplError.other "of tokens")

-- The types of the libraries are texts.
abbrev env : Env
env = record {
  hex = record { encode = λ s. s; decode = λ s. ok s };
  bytes = λ s. ok s;
  hash = λ s. some s;
  payload_bytes = λ s. ok s;
  message_type = λ s. ok MessageType.interchain_transfer;
  account_id = λ s. ok s;
  issuer = λ s. some s;
  currency = λ s. some s;
  token = λ i c. c;
  token_amount = λ s. some s;
  destination_address = λ s. ok s;
  destination_chain = λ s. ok s;
  sub = subtracted;
  posted_payload = λ b. err (GmpApiError.timeout "payload");
  cached_payload = λ h. err (GmpApiError.timeout "payload");
}

abbrev memo : String → String → Memo
memo type data' = record { memo_type = some type; memo_data = some data' }

abbrev payment : PaymentTransaction
payment = record {
  hash = some "H";
  account = "r1";
  destination = "multisig";
  memos = some (
      memo "type" "interchain_transfer"
      ∷ memo "gas_fee_amount" "7"
      ∷ memo "destination_chain" "axelar"
      ∷ memo "destination_address" "a"
      ∷ []);
  amount = Amount.drops "100";
}

-- Prices are numbers, and requests texts.
abbrev decimals : Decimals ℕ ℕ
decimals = record {
  one = 1;
  from_i32 = λ n. n;
  from_i128 = λ n. some n;
  from_f64 = λ r. some r;
  from_scientific = λ s. ok 0;
  from_str = λ s. ok 0;
  checked_mul = λ a b. some (a * b);
  checked_div = λ a b. none;
  trunc = to_string;
  round = to_string;
  rate_text = to_string;
}

abbrev routing : axelar_relayer.Xrpl.Routing.Env String
routing = record {
  chain_gateway = "gateway";
  chain_multisig_prover = "prover";
  now = "now";
  hex = record { encode = λ s. s; decode = λ s. ok s };
  bytes = λ s. ok s;
  hash = λ s. some s;
  payload_bytes = λ s. ok s;
  tx_hash = λ s. s;
  to_value = λ m. ok "request";
  verify_text = λ t. ok "verify";
  event_text = λ t. ok "event";
  parse_message = λ s. err "no message";
  parse_with_cross_chain_id = λ s. none;
  parse_status = λ s. err "no status";
  parse_text = λ s. ok s;
  stored = λ c. ok tt;
  broadcast = λ c r. ok "hash";
  payload = λ h. err (GmpApiError.timeout "payload");
  transaction = λ h. err "no transaction";
  posted = λ es. err (GmpApiError.timeout "events");
}

abbrev router_message : RouterMessage
router_message = record {
  message_id = "0xH";
  source_chain = "xrpl";
  source_address = "r1";
  destination_chain = "axelar";
  destination_address = "a";
  payload_hash = "P";
}

abbrev ingestor : axelar_relayer.Xrpl.Translation.Env String ℕ ℕ
ingestor = record {
  payments = env;
  routing = routing;
  config = record {
    deployed_tokens = record { id = "T"; symbol = "XRP"; decimals = 6 } ∷ [];
    demo_tokens_rate = [];
  };
  decimals = decimals;
  price = λ pair. ok none;
  query_value = λ q. ok "query";
  query = λ r. ok "body";
  parse_token_id = λ s. err "no token";
  parse_transfer = λ s. ok (some (record { message = router_message; payload = "p" }), "T");
  parse_call = λ s. err "no call";
  message_text = λ m. ok "message";
  message_debug = λ m. "message";
  encode = λ s. s;
}

abbrev of_transfer : String → String → CommonEventFields EventMetadata
of_transfer type event_id = record {
  type = type;
  event_id = event_id;
  meta = some (record {
    tx_id = some "h";
    from_address = none;
    finalized = none;
    source_context = none;
    timestamp = "now";
  });
}

abbrev reported_call : Call
reported_call = record {
  common = record {
    type = "CALL";
    event_id = "h-call";
    meta = some (record {
      tx_id = some "h";
      from_address = none;
      finalized = none;
      source_context = some (("xrpl_message", "message") ∷ []);
      timestamp = "now";
    });
  };
  message = record {
    message_id = "0xh";
    source_chain = "xrpl";
    source_address = "r1";
    destination_address = "a";
    payload_hash = "P";
  };
  destination_chain = "axelar";
  payload = "p";
}

abbrev reported_gas : GasCredit
reported_gas = record {
  common = of_transfer "GAS_CREDIT" "h-gas";
  message_id = "h";
  refund_address = "r1";
  payment = record { token_id = none; amount = "7" };
}

abbrev reported_transfer : ItsInterchainTransfer
reported_transfer = record {
  common = of_transfer "ITS/INTERCHAIN_TRANSFER" "its-interchain-transfer-H";
  message_id = "H";
  destination_chain = "axelar";
  token_spent = record { token_id = some "T"; amount = "93" };
  source_address = "r1";
  destination_address = "a";
  data_hash = "00000000000000000000000000000000";
}

transfer_reported_example :
    (a : ℕ) × (f : ℕ) × ("93" ≡ to_string a)
    × ("7" ≡ to_string f)
    × (a + f ≡ 100)
    × ("h" ≡ to_lowercase "H")
unfolding build_xrpl_message built extract_and_decode_memo extract_from_xrpl_memo same_lowercase
    parse_u64 handle_payment handle_message
transfer_reported_example =
    transfer_reported ingestor payment "100" 100 reported_call reported_gas reported_transfer
      (λ a b. refl) refl refl refl
