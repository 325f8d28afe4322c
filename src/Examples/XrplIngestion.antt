-- ===== src/Examples/XrplIngestion.antt =====
-- The theorems on the refunds and on the ingestion of the XRP ledger, on one refund, six tasks of one
-- message, and one payment.
use axelar_relayer.Base.{
  ℕ, ◌+◌, ◌≡◌, refl, arith, true, false, String, none, some, List, [], ◌∷◌, ok, err, done, outcome,
  calls, any_of,
}
use axelar_relayer.Base.Dict.{lookup}
use axelar_relayer.Base.Texts.{to_string, contains}
use axelar_relayer.Gmp.Task.{RetryTask, ReactToWasmEventTask, VerificationStatus}
use axelar_relayer.Gmp.Errors.{GmpApiError, gmp_api_text, ingestor_text}
use axelar_relayer.Xrpl.Memos.{Hex}
use axelar_relayer.Xrpl.Messages.{XrplMessage}
use axelar_relayer.Xrpl.Refunds.{Wallet, Payment, sign_refund}
use axelar_relayer.Xrpl.Refunds
use axelar_relayer.Xrpl.Refunds.Amounts.{refund_amount}
use axelar_relayer.Xrpl.Retries.{Answers, GatewayMsg, run}
use axelar_relayer.Xrpl.Retries.Counted.{retried_all, left, retries_bounded}
use axelar_relayer.Xrpl.Routing
use axelar_relayer.Xrpl.Routing.Quorum.{
  confirmation, quorum_reached, handle_successful_routing, handle_wasm_event,
}
use axelar_relayer.Xrpl.Routing.Statuses.{
  Phase, in_order, wasm_event_in_order, is_routed, confirmed_again_unrouted,
}
use axelar_relayer.Examples.Fixtures.{common}

abbrev hex : Hex
hex = record { encode = λ s. s; decode = λ s. ok s }

abbrev message : XrplMessage
message = XrplMessage.add_reserves_message (record { tx_id = "T"; amount = 5 })

-- transactions and their common fields are the number of drops of the fee
abbrev ledger : Refunds.Env ℕ ℕ
ledger = record {
  not_u64 = λ s. "invalid digit";
  drops = λ n. ok n;
  address = λ s. ok s;
  prepared = λ tx. ok 12;
  fee = λ c. some c;
  sign = λ tx c w. ok tx.amount;
  serialize = λ s. ok "blob";
  set = λ a. ok true;
  del = λ a. ok tt;
  secret = λ s. ok s;
  parse_key = λ s. ok s;
  public = λ s. s;
  parse_message = λ s. ok message;
  tx_hash = λ m. "T";
  trim_0x = λ s. s;
  transaction = λ h. err "none";
  transactions = λ a n. ok [];
  hex = hex;
}

abbrev payment : Payment
payment = record { account = "w"; amount = 100; destination = "r"; refund_id = "id" }

abbrev wallet : Wallet
wallet = record { secret_key = "s"; public_key = "p"; account_id = "w" }

refund_amount_example :
    outcome (sign_refund ledger payment 100 12 wallet) ≡ done (some ("blob", "88", "12"))
unfolding to_string
refund_amount_example =
    refund_amount ledger payment 100 12 88 12 wallet 88 "blob" (omega arith) (omega arith) refl refl
      refl refl

abbrev retry_task : RetryTask
retry_task = RetryTask.react_to_retriable_poll (record {
  common = common "t5" "REACT_TO_RETRIABLE_POLL";
  task = record {
    poll_id = 1;
    broadcast_id = "b";
    invoked_contract_address = "gateway";
    request_payload = "{}";
    quorum_reached_events = none;
  };
})

abbrev answered : Answers String
answered = record {
  gateway_msg = λ s. ok (GatewayMsg.verify_messages ("T" ∷ []));
  prover_msg = λ s. err "none";
  from_str = λ s. ok s;
  found = ok tt;
  posted = ok "hash";
  upserted = ok tt;
}

abbrev tasks : List (Answers String × RetryTask)
tasks =
    (answered, retry_task)
    ∷ (answered, retry_task)
    ∷ (answered, retry_task)
    ∷ (answered, retry_task)
    ∷ (answered, retry_task)
    ∷ (answered, retry_task)
    ∷ []

retries_bounded_example : retried_all "T" tasks [] + left (lookup "T" (run tasks []).1) ≡ 5
unfolding lookup
retries_bounded_example = retries_bounded "T" tasks []

-- the API has confirmed the transaction already
abbrev routing : Routing.Env String
routing = record {
  chain_gateway = "gateway";
  chain_multisig_prover = "prover";
  now = "2025-01-01T00:00:00Z";
  hex = hex;
  bytes = λ s. ok s;
  hash = λ s. some s;
  payload_bytes = λ s. ok s;
  tx_hash = λ s. s;
  to_value = λ m. ok "{}";
  verify_text = λ t. ok "{}";
  event_text = λ t. ok "{}";
  parse_message = λ s. ok message;
  parse_with_cross_chain_id = λ s. none;
  parse_status = λ s. ok VerificationStatus.succeeded_on_source_chain;
  parse_text = λ s. ok s;
  stored = λ c. ok tt;
  broadcast = λ a r. err (GmpApiError.generic_error "transaction status is already confirmed");
  payload = λ h. ok "p";
  transaction = λ h. err "none";
  posted = λ es. ok [];
}

abbrev event_task : ReactToWasmEventTask
event_task = record {
  common = common "t6" "REACT_TO_WASM_EVENT";
  task = record {
    event = record {
      attributes =
          record { key = "content"; value = "{}" } ∷ record { key = "status"; value = "ok" } ∷ [];
      type = "wasm-quorum_reached";
    };
    height = 1;
  };
}

wasm_event_in_order_example :
    in_order Phase.unverified (calls (handle_wasm_event routing event_task)) ≡ true
wasm_event_in_order_example = wasm_event_in_order routing event_task

confirmed_again_unrouted_example :
    (any_of is_routed (calls (quorum_reached routing message event_task)) ≡ false)
    × (outcome (quorum_reached routing message event_task)
        ≡ outcome (handle_successful_routing routing message none event_task))
unfolding contains confirmation ingestor_text gmp_api_text
confirmed_again_unrouted_example =
    confirmed_again_unrouted routing message event_task none "prover" "{}"
      (GmpApiError.generic_error "transaction status is already confirmed") refl refl refl refl
