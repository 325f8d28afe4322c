-- ===== src/Ton/Gas/Totals.antt =====
-- The balances of ton/src/gas_calculator.rs: their total, and whose they are.
use axelar_relayer.Base.{
  ℕ, ◌+◌, ◌%◌, ◌^◌, ◌<◌, ◌≡◌, inl, inr, refl, arith, Bool-cases, true, if◌then◌else◌, unwrap_or,
  some, List, [], ◌∷◌, String, str_eq, str_eq_iff,
}
use axelar_relayer.Base.Dict.{lookup, insert, lookup-insert}
use axelar_relayer.Ton.Gas.{Balances, add_cost, contains_key, no_costs, total}

pub total-lt : (b : Balances) → total b < 2 ^ 128
unfolding total
total-lt [] = omega arith
total-lt ((k, c) ∷ b) = omega arith

lookup-cons :
    (k j : String) (w : ℕ) (b : Balances)
    → lookup k ((j, w) ∷ b) ≡ (if str_eq j k then some w else lookup k b)
unfolding lookup
lookup-cons k j w b = refl

-- a cost that is added to one account is added to the total
pub total-add_cost :
    (k : String) (c : ℕ) (b : Balances) → total (add_cost k c b) ≡ (total b + c) % 2 ^ 128
unfolding total add_cost lookup insert
total-add_cost k c [] = omega arith
total-add_cost k c ((j, w) ∷ b) = elim (Bool-cases (str_eq j k)) [
  | inl same ↦ rw same (omega arith)
  | inr differs ↦ ground (arith, differs, total-add_cost k c b)
]

pub contains-add_cost :
    (k : String) (c : ℕ) (b : Balances) (h : String)
    → contains_key k b ≡ true
    → contains_key h (add_cost k c b) ≡ contains_key h b
unfolding add_cost
contains-add_cost k c b h there = elim (Bool-cases (str_eq k h)) [
  | inl same ↦
      let set = lookup-insert k h ((unwrap_or (lookup k b) 0 + c) % 2 ^ 128) b in
      let there' = rw ((str_eq_iff k h).0 same) at there in ground (arith, set, same, there')
  | inr differs ↦
      ground (arith, lookup-insert k h ((unwrap_or (lookup k b) 0 + c) % 2 ^ 128) b, differs)
]

unfoldable pub AllZero : Balances → Type 0
AllZero [] = Unit
AllZero ((_, c) ∷ b) = (c ≡ 0) × AllZero b

insert-AllZero : (k : String) (b : Balances) → AllZero b → AllZero (insert k 0 b)
unfolding insert AllZero
insert-AllZero k [] z = (refl, tt)
insert-AllZero k ((j, c) ∷ b) z =
    let rest = insert-AllZero k b z.1 in
    elim (Bool-cases (str_eq j k)) [
      | inl same ↦ rw (same, AllZero) (refl, z.1)
      | inr differs ↦ rw (differs, AllZero) (z.0, rest)
    ]

pub no_costs-AllZero : (ours : List String) → AllZero (no_costs ours)
unfolding no_costs AllZero
no_costs-AllZero [] = tt
no_costs-AllZero (a ∷ ours) = insert-AllZero a (no_costs ours) (no_costs-AllZero ours)

pub total-AllZero : (b : Balances) → AllZero b → total b ≡ 0
unfolding total AllZero
total-AllZero [] z = refl
total-AllZero ((_, c) ∷ b) z = omega (arith, z.0, total-AllZero b z.1)
