-- ===== src/Ton/Parser.antt =====
-- ton/src/transaction_parser/parser.rs: the events of a trace. What the parsers of the single
-- messages make of a transaction of type `T`, the prices and the decimals enter by what they answer. Spans and log lines are left out.
pub mod Approvals
use axelar_relayer.Base.Texts.{to_string}
use axelar_relayer.Base.{
  ℕ, ◌+◌, ◌/◌, ◌%◌, ◌^◌, ◌==◌, ◌&&◌, Bool, true, false, String, str_eq, if◌then◌else◌, Option, none,
  some, List, [], ◌∷◌, ◌++◌, Result, ok, err, and_then, map_err, map, done, fail, panic, Exec,
  ◌>>=◌, ◌>>◌, pure, lift, call, raise,
}
use axelar_relayer.Prices.{Decimals, PriceCall}
use axelar_relayer.Ton.Conversion.{GasError, gas_error_text, convert_jetton_to_native}
use axelar_relayer.Gmp.Task.{Amount}
use axelar_relayer.Gmp.Event.{Event, GasCredit}
use axelar_relayer.Ton.Traces.{Trace}
use axelar_relayer.Ton.Gas.{calc_message_gas, calc_message_gas_native_gas_refunded}
use axelar_relayer.Ton.Gas

pub record MessageMatchingKey : Type 0 where
  pub destination_chain : String
  pub destination_address : String
  pub payload_hash : String

pub data TransactionParsingError : Type 0 where
  boc_parsing message gas generic : String → TransactionParsingError

-- A parser that matched its transaction and has parsed it, by what its methods then answer.
pub record Parser : Type 0 where
  pub key : Result MessageMatchingKey TransactionParsingError
  pub event : Option String → Result Event TransactionParsingError
  pub message_id : Result (Option String) TransactionParsingError

pub data Kind : Type 0 where
  call_contract message_executed message_approved native_gas_paid native_gas_added : Kind
  jetton_gas_added jetton_gas_paid native_gas_refunded : Kind

-- `new`, `is_match` and, if it matches, `parse`, of `ParserExecuteInsufficientGas` and of the parser
-- of a kind; the parsing of a `BigUint`; the prices of the database; and the decimals library.
pub record Env (T D F : Type 0) : Type 0 where
  pub insufficient_gas : Trace (List T) → Result (Option Parser) TransactionParsingError
  pub parser : Kind → T → Result (Option Parser) TransactionParsingError
  pub parse_biguint : String → Result ℕ String
  pub price : String → Result (Option D) String
  pub decimals : Decimals D F

pub data ParserCall : Type 0 where
  pricing : PriceCall → ParserCall

abbrev pub Parsing : Type 0 → Type 0
Parsing A = Exec ParserCall TransactionParsingError A

abbrev pub key_eq : MessageMatchingKey → MessageMatchingKey → Bool
key_eq a b =
    str_eq a.destination_chain b.destination_chain
    && str_eq a.destination_address b.destination_address
    && str_eq a.payload_hash b.payload_hash

-- The `HashMap` by what it has at a key.
abbrev pub GasCreditMap : Type 0
GasCreditMap = MessageMatchingKey → Option Parser

abbrev pub empty : GasCreditMap
empty _ = none

abbrev pub insert : MessageMatchingKey → Parser → GasCreditMap → GasCreditMap
insert key p m = λ k. if key_eq key k then some p else m k

abbrev pub remove : MessageMatchingKey → GasCreditMap → GasCreditMap
remove key m = λ k. if key_eq key k then none else m k

-- What `create_parsers` fills, and its count, a `u64`.
pub record Parsers : Type 0 where
  pub parsers : List Parser
  pub call_contract : List Parser
  pub gas_credit_map : GasCreditMap
  pub message_approved_count : ℕ

abbrev pub order : List Kind
order =
    Kind.call_contract ∷ Kind.message_executed ∷ Kind.message_approved ∷ Kind.native_gas_paid
    ∷ Kind.native_gas_added ∷ Kind.jetton_gas_added ∷ Kind.jetton_gas_paid
    ∷ Kind.native_gas_refunded ∷ []

abbrev pub pushed : Parser → Parsers → Parsers
pushed p s = record s { parsers = s.parsers ++ p ∷ [] }

abbrev pub keyed :
    Result MessageMatchingKey TransactionParsingError
    → Parser
    → Parsers
    → Result Parsers TransactionParsingError
keyed (err e) p s = err e
keyed (ok key) p s = ok (record s { gas_credit_map = insert key p s.gas_credit_map })

abbrev pub gas_paid : Parser → Parsers → Result Parsers TransactionParsingError
gas_paid p s = keyed p.key p s

-- where a parser of a kind goes
unfoldable pub sorted_in : Kind → Parser → Parsers → Result Parsers TransactionParsingError
sorted_in Kind.call_contract p s = ok (record s { call_contract = s.call_contract ++ p ∷ [] })
sorted_in Kind.message_executed p s = ok (pushed p s)
sorted_in Kind.message_approved p s =
    ok (record (pushed p s) { message_approved_count = (s.message_approved_count + 1) % 2 ^ 64 })
sorted_in Kind.native_gas_paid p s = gas_paid p s
sorted_in Kind.native_gas_added p s = ok (pushed p s)
sorted_in Kind.jetton_gas_added p s = ok (pushed p s)
sorted_in Kind.jetton_gas_paid p s = gas_paid p s
sorted_in Kind.native_gas_refunded p s = ok (pushed p s)

-- the first kind that matches, `continue` behind it
abbrev pub on_match :
    Kind
    → Result (Option Parser) TransactionParsingError
    → Parsers
    → Result Parsers TransactionParsingError
    → Result Parsers TransactionParsingError
on_match k (err e) s rest = err e
on_match k (ok none) s rest = rest
on_match k (ok (some p)) s rest = sorted_in k p s

abbrev pub start : Option Parser → Parsers
start first = record {
  parsers = elim first [ none ↦ [] | some p ↦ p ∷ [] ];
  call_contract = [];
  gas_credit_map = empty;
  message_approved_count = 0;
}

module _ {T D F : Type 0} (env : Env T D F) where
  unfoldable pub try_kinds : List Kind → T → Parsers → Result Parsers TransactionParsingError
  unfolding sorted_in
  try_kinds [] tx s = ok s
  try_kinds (k ∷ kinds) tx s = on_match k (env.parser k tx) s (try_kinds kinds tx s)

  unfoldable pub each_transaction : List T → Parsers → Result Parsers TransactionParsingError
  unfolding try_kinds
  each_transaction [] s = ok s
  each_transaction (tx ∷ txs) s = and_then (try_kinds order tx s) (each_transaction txs)

  unfoldable pub create_parsers : Trace (List T) → Result Parsers TransactionParsingError
  unfolding each_transaction
  create_parsers trace =
      and_then (env.insufficient_gas trace)
        (λ first. each_transaction trace.transactions (start first))

abbrev pub or_missing : Option String → Result String TransactionParsingError
or_missing none = err (TransactionParsingError.message "Missing message_id")
or_missing (some m) = ok m

-- the event of the gas that was paid for the contract call, if there is one
unfoldable pub credited : Parser → Option Parser → Parsing (List Event)
credited cc none = pure []
credited cc (some p) = do
  id ← lift cc.message_id
  message_id ← lift (or_missing id)
  event ← lift (p.event (some message_id))
  pure (event ∷ [])

unfoldable pub contract_events : List Parser → GasCreditMap → Parsing (List Event)
unfolding credited
contract_events [] m = pure []
contract_events (cc ∷ ccs) m = do
  cc_key ← lift cc.key
  event ← lift (cc.event none)
  credit ← credited cc (m cc_key)
  rest ← contract_events ccs (remove cc_key m)
  pure (event ∷ (credit ++ rest))

unfoldable pub other_events : List Parser → Parsing (List Event)
other_events [] = pure []
other_events (p ∷ ps) = do event ← lift (p.event none); rest ← other_events ps; pure (event ∷ rest)

abbrev or_generic : {A : Type 0} → Result A String → Result A TransactionParsingError
or_generic = map_err (λ e. TransactionParsingError.generic e)

-- the conversion of an amount as a part of the parsing
abbrev pub priced : {A : Type 0} → Exec PriceCall GasError A → Parsing A
priced (done a, t) = (done a, map pricing t)
priced (fail e, t) = (fail (TransactionParsingError.generic (gas_error_text e)), map pricing t)
priced (panic, t) = (panic, map pricing t)

module _ {T D F : Type 0} (env : Env T D F) where
  unfoldable pub native_payment : GasCredit → Parsing GasCredit
  unfolding to_string convert_jetton_to_native gas_error_text
  native_payment g = elim g.payment.token_id [
    | none ↦ pure g
    | some token_id ↦ do
      amount ← lift (or_generic (env.parse_biguint g.payment.amount))
      value ←
          priced (convert_jetton_to_native env.decimals env.price env.parse_biguint token_id amount)
      pure (record g { payment = record { token_id = none; amount = to_string value } })
  ]

  -- a division by zero panics
  unfoldable pub with_cost : ℕ → ℕ → ℕ → Event → Parsing Event
  unfolding native_payment to_string
  with_cost total refund count (Event.gas_credit g) = do
    g' ← native_payment g
    pure (Event.gas_credit g')
  with_cost total refund count (Event.message_approved m) =
      if count == 0
      then (panic, [])
      else pure (
          Event.message_approved
            (record m { cost = record m.cost { amount = to_string (total / count) } }))
  with_cost total refund count (Event.message_executed m) =
      pure (Event.message_executed (record m { cost = record m.cost { amount = to_string total } }))
  with_cost total refund count (Event.gas_refunded r) =
      pure (Event.gas_refunded (record r { cost = record r.cost { amount = to_string refund } }))
  with_cost total refund count (Event.call c) = pure (Event.call c)
  with_cost total refund count (Event.cannot_execute_message_v2 c) =
      pure (Event.cannot_execute_message_v2 c)
  with_cost total refund count (Event.its_interchain_transfer i) =
      pure (Event.its_interchain_transfer i)

  unfoldable pub with_costs : ℕ → ℕ → ℕ → List Event → Parsing (List Event)
  unfolding with_cost
  with_costs total refund count [] = pure []
  with_costs total refund count (e ∷ es) = do
    event ← with_cost total refund count e
    rest ← with_costs total refund count es
    pure (event ∷ rest)

  -- `gas_view` is what the calculator reads of a transaction
  unfoldable pub parse_trace :
      List String → (List T → List Gas.Transaction) → Trace (List T) → Parsing (List Event)
  unfolding create_parsers contract_events other_events with_costs calc_message_gas
      calc_message_gas_native_gas_refunded
  parse_trace our_addresses gas_view trace = do
    let total = calc_message_gas our_addresses (gas_view trace.transactions)
    let refund = calc_message_gas_native_gas_refunded our_addresses (gas_view trace.transactions)
    s ← lift (create_parsers env trace)
    contracts ← contract_events s.call_contract s.gas_credit_map
    others ← other_events s.parsers
    with_costs total refund s.message_approved_count (contracts ++ others)
