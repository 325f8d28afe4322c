-- ===== src/Examples/TonTraces.antt =====
-- The theorems on the parser and on the ingestor of TON traces, on a trace of two transactions, whose
-- second one is an approval.
use axelar_relayer.Base.{
  Option, str_eq, done, ◌*◌, ◌/◌, ℕ, ◌==◌, ◌≡◌, refl, false, String, if◌then◌else◌, none, some,
  List, [], ◌∷◌, ok, calls,
}
use axelar_relayer.Base.Dict.{lookup}
use axelar_relayer.Base.Int.{pos}
use axelar_relayer.Gmp.Event.{Event}
use axelar_relayer.Subscriber.{ChainTransaction}
use axelar_relayer.Ton.Traces.{Trace, Table}
use axelar_relayer.Ton.Parser.{Parser, Kind}
use axelar_relayer.Ton.Parser
use axelar_relayer.Prices.{Decimals}
use axelar_relayer.Ton.Ingestor.{summaries, handle_transaction}
use axelar_relayer.Ton.Ingestor
use axelar_relayer.Ton.Ingestor.Summaries.{stored, with_summaries, summaries_stored}
use axelar_relayer.Examples.Fixtures.{message}

abbrev approval : Event
approval = Event.message_approved (record {
  common = record { type = "MESSAGE_APPROVED"; event_id = "e"; meta = none };
  message = message;
  cost = record { token_id = none; amount = "" };
})

abbrev approval_parser : Parser
approval_parser = record {
  key = ok (record { destination_chain = "c"; destination_address = "a"; payload_hash = "h" });
  event = λ id. ok approval;
  message_id = ok none;
}

abbrev jettons : Event
jettons = Event.gas_credit (record {
  common = record { type = "GAS_CREDIT"; event_id = "g"; meta = none };
  message_id = "m";
  refund_address = "a";
  payment = record { token_id = some "J"; amount = "5" };
})

abbrev gas_parser : Parser
gas_parser = record approval_parser { event = λ id. ok jettons }

abbrev quotient : ℕ → ℕ → Option ℕ
quotient a b = if b == 0 then none else some (a / b)

abbrev decimals : Decimals ℕ ℕ
decimals = record {
  one = 1;
  from_i32 = λ n. n;
  from_i128 = λ n. some n;
  from_f64 = λ r. some r;
  from_scientific = λ s. ok 0;
  from_str = λ s. ok 5;
  checked_mul = λ a b. some (a * b);
  checked_div = quotient;
  trunc = λ n. "";
  round = λ n. "";
  rate_text = λ n. "";
}

abbrev parser_of : Kind → ℕ → Option Parser
parser_of Kind.message_approved n = if n == 2 then some approval_parser else none
parser_of Kind.jetton_gas_added n = if n == 1 then some gas_parser else none
parser_of _ n = none

-- A transaction is a number; the first one adds gas in jettons, the second one is an approval. The
-- price of TON is zero.
abbrev parsers : Parser.Env ℕ ℕ ℕ
parsers = record {
  insufficient_gas = λ x. ok none;
  parser = λ k n. ok (parser_of k n);
  parse_biguint = λ s. ok 5;
  price = λ pair. ok (some (if str_eq pair "TON/USD" then 0 else 3));
  decimals = decimals;
}

abbrev trace : Trace (List ℕ)
trace = record {
  is_incomplete = false;
  start_lt = pos 1;
  end_lt = pos 2;
  trace_id = "A";
  transactions = 1 ∷ 2 ∷ [];
}

abbrev env : Ingestor.Env String (List ℕ)
env = record { parsed = λ x. done (approval ∷ []); updated = λ id es. ok tt; debug = λ t. t }

abbrev table : Table (List ℕ)
table =
    (
      "A",
      record {
        is_incomplete = false;
        start_lt = pos 1;
        end_lt = pos 2;
        retries = pos 10;
        transactions = 1 ∷ 2 ∷ [];
        events = none;
        updated_at = none;
      },
    )
    ∷ []

summaries_stored_example :
    (env.parsed trace ≡ done (approval ∷ []))
    × (lookup "A" (stored 9 (calls (handle_transaction env (ChainTransaction.ton trace))) table)
        ≡ with_summaries 9 (summaries (approval ∷ [])) (lookup "A" table))
unfolding handle_transaction
summaries_stored_example = summaries_stored env trace (approval ∷ []) 9 table "A" refl
