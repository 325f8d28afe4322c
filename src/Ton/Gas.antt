-- ===== src/Ton/Gas.antt =====
-- ton/src/gas_calculator.rs: what the transactions of a trace have cost the relayer's accounts. An
-- `i128` is its two's complement, so that sums and casts wrap as in the source.
pub mod Totals
pub mod Reference
use Prim.Native.Char.{code}
use Prim.Native.String
use axelar_relayer.Base.{
  ℕ, ◌+◌, ◌-◌, ◌*◌, ◌%◌, ◌^◌, ◌≡◌, Bool, true, false, not, ◌&&◌, ltb, leb, ◌==◌, if◌then◌else◌,
  is_some, unwrap_or, Option, none, some, List, [], ◌∷◌, String,
}
use axelar_relayer.Base.Texts.{magnitude}
use axelar_relayer.Base.Dict.{lookup, insert}

-- The fields of a message and of a transaction that the calculator reads; an address is its text.
pub record TransactionMessage : Type 0 where
  pub destination : Option String
  pub value : Option String
  pub fwd_fee : Option String

-- `total_fees` is a `u64`
pub record Transaction : Type 0 where
  pub account : String
  pub total_fees : ℕ
  pub out_msgs : List TransactionMessage

non_negative : Option ℕ → Option ℕ
non_negative none = none
non_negative (some n) = if ltb n (2 ^ 127) then some n else none

negative : Option ℕ → Option ℕ
negative none = none
negative (some n) = if leb n (2 ^ 127) then some ((2 ^ 128 - n) % 2 ^ 128) else none

-- `parse::<i128>().ok()`
unfoldable pub parse_i128 : String → Option ℕ
unfolding magnitude non_negative negative
parse_i128 String.[] = none
parse_i128 (String.◌∷◌ c s) =
    if code c == 45
    then negative (magnitude s)
    else if code c == 43
    then non_negative (magnitude s)
    else non_negative (magnitude (String.◌∷◌ c s))

unfoldable pub extract_fwd_fee : TransactionMessage → ℕ
unfolding parse_i128
extract_fwd_fee msg = unwrap_or (parse_i128 (unwrap_or msg.fwd_fee "0")) 0

unfoldable pub extract_msg_value : TransactionMessage → ℕ
unfolding parse_i128
extract_msg_value msg = unwrap_or (parse_i128 (unwrap_or msg.value "0")) 0

-- `0 - n`
abbrev pub negated : ℕ → ℕ
negated n = (2 ^ 128 - n % 2 ^ 128) % 2 ^ 128

abbrev pub Balances : Type 0
Balances = List (String × ℕ)

unfoldable pub add_cost : String → ℕ → Balances → Balances
add_cost account cost balances =
    insert account ((unwrap_or (lookup account balances) 0 + cost) % 2 ^ 128) balances

abbrev pub contains_key : String → Balances → Bool
contains_key account balances = is_some (lookup account balances)

abbrev pub us_receiving : Balances → Transaction → String → Bool
us_receiving balances tx dest = not (contains_key tx.account balances) && contains_key dest balances

abbrev pub us_sending : Balances → Transaction → String → Bool
us_sending balances tx dest = contains_key tx.account balances && not (contains_key dest balances)

-- the body of the inner loop, from the destination on
unfoldable pub transfer : Transaction → TransactionMessage → String → Balances → Balances
transfer tx msg dest balances =
    let value = extract_msg_value msg in
    let sent =
      if us_sending balances tx dest then add_cost tx.account value balances else balances in
    if us_receiving sent tx dest then add_cost dest (negated value) sent else sent

unfoldable pub charge_message : Transaction → TransactionMessage → Balances → Balances
charge_message tx msg balances =
    let charged =
      if contains_key tx.account balances
      then add_cost tx.account (extract_fwd_fee msg) balances
      else balances in
    elim msg.destination [ none ↦ charged | some dest ↦ transfer tx msg dest charged ]

unfoldable pub charge_messages : Transaction → List TransactionMessage → Balances → Balances
charge_messages tx [] balances = balances
charge_messages tx (msg ∷ msgs) balances = charge_messages tx msgs (charge_message tx msg balances)

unfoldable pub charge : Transaction → Balances → Balances
charge tx balances = charge_messages tx tx.out_msgs (
    if contains_key tx.account balances
    then add_cost tx.account tx.total_fees balances
    else balances)

unfoldable pub charge_all : List Transaction → Balances → Balances
charge_all [] balances = balances
charge_all (tx ∷ txs) balances = charge_all txs (charge tx balances)

unfoldable pub no_costs : List String → Balances
no_costs [] = []
no_costs (address ∷ addresses) = insert address 0 (no_costs addresses)

unfoldable pub total : Balances → ℕ
total [] = 0
total ((_, cost) ∷ balances) = (cost + total balances) % 2 ^ 128

unfoldable pub cost : List String → List Transaction → ℕ
cost our_addresses txs = total (charge_all txs (no_costs our_addresses))

-- `if total > 0 { total as u64 } else { 0 }`
abbrev pub positive_u64 : ℕ → ℕ
positive_u64 n = if ltb 0 n && ltb n (2 ^ 127) then n % 2 ^ 64 else 0

unfoldable pub calc_message_gas : List String → List Transaction → ℕ
calc_message_gas our_addresses txs = positive_u64 (cost our_addresses txs)

-- the value of the first message of the third transaction
abbrev pub refund_of : List Transaction → Option ℕ
refund_of (_ ∷ _ ∷ tx ∷ _) = elim tx.out_msgs [
  | [] ↦ none
  | msg ∷ _ ↦ some (elim msg.value [ none ↦ 0 | some v ↦ unwrap_or (parse_i128 v) 0 ])
]
refund_of _ = none

unfoldable pub calc_message_gas_native_gas_refunded : List String → List Transaction → ℕ
calc_message_gas_native_gas_refunded our_addresses txs = elim (refund_of txs) [
  | none ↦ 0
  | some refund ↦ positive_u64 ((cost our_addresses txs + negated refund) % 2 ^ 128)
]
