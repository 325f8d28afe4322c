-- ===== src/Xrpl/Refunds/Amounts.antt =====
-- What a refund of xrpl/src/refund_manager.rs pays.
use axelar_relayer.Base.Texts.{to_string}
use axelar_relayer.Base.{
  ℕ, ◌-◌, ◌^◌, ◌<◌, ◌≡◌, arith, leb, String, none, some, Bool-cases, inl, inr, ok, done, outcome,
  if◌then◌else◌,
}
use axelar_relayer.Xrpl.Refunds.{Wallet, Payment, Env, minus_i64, not_positive, sign_refund}

minus_i64-positive : (a b : ℕ) → a < 2 ^ 63 → b < 2 ^ 63 → b < a → minus_i64 a b ≡ a - b
minus_i64-positive a b l m h = omega (arith, l, m, h)

not_positive-minus_i64 :
    (a b : ℕ) → a < 2 ^ 63 → b < 2 ^ 63 → not_positive (minus_i64 a b) ≡ leb a b
not_positive-minus_i64 a b l m = ground arith

module _ {C S : Type 0} (env : Env C S) where
  -- A refund whose amount and fee are below 2^63 drops, and of which no part that is asked for fails:
  -- if the fee covers the amount there is nothing to pay and no transaction; and else the payment of
  -- the amount less the fee is signed, and its parts are reported with the fee, so that the two make
  -- the amount that was to be refunded.
  pub refund_amount :
      (tx : Payment) (amount fee paid : ℕ) (common : C) (wallet : Wallet) (signed : S)
      (blob : String)
      → amount < 2 ^ 63
      → fee < 2 ^ 63
      → env.fee common ≡ some fee
      → env.drops (amount - fee) ≡ ok paid
      → env.sign (record tx { amount = paid }) common wallet ≡ ok signed
      → env.serialize signed ≡ ok blob
      → outcome (sign_refund env tx amount common wallet)
        ≡ done
            (if leb amount fee then none else some (blob, to_string (amount - fee), to_string fee))
  unfolding sign_refund
  refund_amount tx amount fee paid common wallet signed blob l m f d s b =
      elim (Bool-cases (leb amount fee)) [
        | inl h ↦ ground (arith, not_positive-minus_i64 amount fee l m)
        | inr h ↦
            ground (arith, not_positive-minus_i64 amount fee l m, minus_i64-positive amount fee l m)
      ]
