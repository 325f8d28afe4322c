-- ===== src/Base/Results.antt =====
-- Rust's `Result`, and the outcome of a call that may also panic.
use mathlib.Core.Bool.{Bool, true, false}
use mathlib.Core.Path.{◌≡◌, refl}
use mathlib.Core.Logic.{◌⊎◌, inl, inr}

pub data Result {ℓ κ} (A : Type ℓ) (E : Type κ) : Type (ℓ ⊔ κ) where
  ok : A → Result A E
  err : E → Result A E

abbrev pub is_ok {ℓ κ} : {A : Type ℓ} {E : Type κ} → Result A E → Bool
is_ok (ok _) = true
is_ok (err _) = false

abbrev pub map_err {ℓ κ} : {A : Type ℓ} {E F : Type κ} → (E → F) → Result A E → Result A F
map_err f (ok a) = ok a
map_err f (err e) = err (f e)

abbrev pub and_then {ℓ κ} : {A B : Type ℓ} {E : Type κ} → Result A E → (A → Result B E) → Result B E
and_then (ok a) f = f a
and_then (err e) f = err e

pub data Outcome {ℓ κ} (A : Type ℓ) (E : Type κ) : Type (ℓ ⊔ κ) where
  done : A → Outcome A E
  fail : E → Outcome A E
  panic : Outcome A E

-- To split on a computed result and keep the equation.
pub Result-cases {ℓ κ} :
    {A : Type ℓ} {E : Type κ} (r : Result A E) → ((a : A) × (r ≡ ok a)) ⊎ ((e : E) × (r ≡ err e))
Result-cases (ok a) = inl (a, refl)
Result-cases (err e) = inr (e, refl)

abbrev pub is_done {ℓ κ} : {A : Type ℓ} {E : Type κ} → Outcome A E → Bool
is_done (done _) = true
is_done (fail _) = false
is_done panic = false

abbrev pub is_panic {ℓ κ} : {A : Type ℓ} {E : Type κ} → Outcome A E → Bool
is_panic panic = true
is_panic _ = false

pub Outcome-cases {ℓ κ} :
    {A : Type ℓ} {E : Type κ} (o : Outcome A E)
    → ((a : A) × (o ≡ done a)) ⊎ (((e : E) × (o ≡ fail e)) ⊎ (o ≡ panic))
Outcome-cases (done a) = inl (a, refl)
Outcome-cases (fail e) = inr (inl (e, refl))
Outcome-cases panic = inr (inr refl)
