-- ===== src/Ton/Conversion/Panics.antt =====
-- When the conversion of ton/src/transaction_parser/common.rs panics.
use axelar_relayer.Base.Texts.{to_string}
use axelar_relayer.Base.{
  ℕ, String, concat, ◌≡◌, ◌≢◌, refl, arith, Bool, false, is_some, Option, none, some, Result, ok,
  err, map_err, done, fail, panic, Exec, outcome, lift, EndsOr, EndsOr-step, EndsOr-lift,
  EndsOr-runs, Ends-given, Gives-any,
}
use axelar_relayer.Prices.{Decimals, PriceCall, get_price_of}
use axelar_relayer.Ton.Conversion.{conversion, or_conversion, quotient, convert_jetton_to_native}

or_conversion-done :
    {C A : Type 0} (m : Exec C String A) (a : A)
    → outcome (or_conversion m) ≡ done a
    → outcome m ≡ done a
or_conversion-done (done b, t) a e = ground (arith, e)
or_conversion-done (fail x, t) a e = ground (arith, e)
or_conversion-done (panic, t) a e = ground (arith, e)

or_conversion-panic :
    {C A : Type 0} (m : Exec C String A) → outcome (or_conversion m) ≡ panic → outcome m ≡ panic
or_conversion-panic (done b, t) e = ground (arith, e)
or_conversion-panic (fail x, t) e = ground (arith, e)
or_conversion-panic (panic, t) e = refl

lift-ok :
    {A : Type 0} (r : Result A String) (what : String) (a : A)
    → map_err (λ e. conversion (concat what e)) r ≡ ok a
    → r ≡ ok a
lift-ok (ok b) what a e = ground (arith, e)
lift-ok (err x) what a e = ground (arith, e)

module _ {D F : Type 0} (d : Decimals D F) where
  -- the product does not overflow, and has a quotient
  abbrev pub has_quotient : D → D → D → Bool
  has_quotient amount coin ton = elim (d.checked_mul amount coin) [
    | none ↦ false
    | some product ↦ is_some (d.checked_div product ton)
  ]

  quotient-panic :
      (a coin ton : D) → outcome (quotient d a coin ton) ≡ panic → has_quotient a coin ton ≡ false
  unfolding quotient
  quotient-panic a coin ton e = ground (arith, e)

module _ {D F : Type 0} (d : Decimals D F) (price : String → Result (Option D) String) where
  -- Some amount of a jetton whose price is known, and that of TON, that cannot be converted.
  abbrev pub HasNoQuotient : Type 0
  HasNoQuotient =
      (minter : String) × (amount : ℕ) × (coin : D) × (ton : D) × (a : D) × (outcome
          (get_price_of d price (concat minter "/USD"))
        ≡ done coin)
      × (outcome (get_price_of d price "TON/USD") ≡ done ton)
      × (d.from_str (to_string amount) ≡ ok a)
      × (has_quotient d a coin ton ≡ false)

  get_price_of-runs : (pair : String) → outcome (get_price_of d price pair) ≢ panic
  unfolding get_price_of
  get_price_of-runs pair e = ground (arith, e)

  pub convert_jetton_to_native-Ends :
      (parse_biguint : String → Result ℕ String) (minter : String) (amount : ℕ)
      → EndsOr HasNoQuotient
          (λ _. Unit)
          (outcome (convert_jetton_to_native d price parse_biguint minter amount))
  unfolding convert_jetton_to_native
  convert_jetton_to_native-Ends parse_biguint minter amount =
      let Q : ℕ → Type 0 = λ _. Unit in
      let of_coin = get_price_of d price (concat minter "/USD") in
      let of_ton = get_price_of d price "TON/USD" in
      let number = d.from_str (to_string amount) in
      EndsOr-step HasNoQuotient Q (or_conversion of_coin) _
        (λ p. absurd (get_price_of-runs (concat minter "/USD") (or_conversion-panic of_coin p)))
        (λ coin c.
          EndsOr-step HasNoQuotient Q (or_conversion of_ton) _
            (λ p. absurd (get_price_of-runs "TON/USD" (or_conversion-panic of_ton p)))
            (λ ton t.
              EndsOr-lift PriceCall HasNoQuotient Q
                (map_err (λ e. conversion (concat "Invalid amount: " e)) number) _
                (λ a n.
                  EndsOr-step HasNoQuotient Q (quotient d a coin ton) _
                    (λ p. (
                      minter,
                      amount,
                      coin,
                      ton,
                      a,
                      or_conversion-done of_coin coin c,
                      or_conversion-done of_ton ton t,
                      lift-ok number "Invalid amount: " a n,
                      quotient-panic d a coin ton p,
                    ))
                    (λ result r.
                      let parsed = map_err conversion (parse_biguint (d.round result)) in
                      EndsOr-runs HasNoQuotient Q (outcome (lift {C = PriceCall} parsed))
                        (Ends-given PriceCall Q parsed (Gives-any parsed))))))
