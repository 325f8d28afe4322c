-- ===== src/Base/Traces.antt =====
-- An asynchronous function of the relayer as the outcome that it has and the calls to the outside
-- world that it makes, in order. What the calls answer is an argument of the function.
use native.Mathlib.Omega.{arith}
use mathlib.Core.Path.{◌≡◌, refl, transport}
use mathlib.Core.Logic.{◌≢◌}
use mathlib.Core.List.{List, [], ◌∷◌, ◌++◌}
use axelar_relayer.Base.Results.{Result, ok, err, and_then, Outcome, done, fail, panic}

abbrev pub Exec {ℓ} : Type ℓ → Type ℓ → Type ℓ → Type ℓ
Exec C E A = Outcome A E × List C

-- The rest of a block, after a part with the outcome `o`.
abbrev pub continue {ℓ} : {C E A B : Type ℓ} → Outcome A E → (A → Exec C E B) → Exec C E B
continue (done a) f = f a
continue (fail e) f = (fail e, [])
continue panic f = (panic, [])

-- The calls of a part stand before those of the rest.
abbrev pub after {ℓ} : {C E B : Type ℓ} → List C → Exec C E B → Exec C E B
after t (o, u) = (o, t ++ u)

infixl 5 ◌>>=◌ ◌>>◌
abbrev pub ◌>>=◌ {ℓ} : {C E A B : Type ℓ} → Exec C E A → (A → Exec C E B) → Exec C E B
(o, t) >>= f = after t (continue o f)

abbrev pub ◌>>◌ {ℓ} : {C E A B : Type ℓ} → Exec C E A → Exec C E B → Exec C E B
m >> k = m >>= λ _. k

abbrev pub pure {ℓ} : {C E A : Type ℓ} → A → Exec C E A
pure a = (done a, [])

abbrev pub raise {ℓ} : {C E A : Type ℓ} → E → Exec C E A
raise e = (fail e, [])

-- `?` on a value that is at hand.
abbrev pub lift {ℓ} : {C E A : Type ℓ} → Result A E → Exec C E A
lift (ok a) = (done a, [])
lift (err e) = (fail e, [])

-- A call whose answer does not matter, or cannot fail.
abbrev pub tell {ℓ} : {C E : Type ℓ} → C → Exec C E (Unit {ℓ})
tell c = (done tt, c ∷ [])

-- A call that answers `r`, with `?` on its answer.
abbrev pub call {ℓ} : {C E A : Type ℓ} → C → Result A E → Exec C E A
call c (ok a) = (done a, c ∷ [])
call c (err e) = (fail e, c ∷ [])

-- A call of a part of the program, which ends with the outcome `o`, with `?` on it.
abbrev pub perform {ℓ} : {C E A : Type ℓ} → C → Outcome A E → Exec C E A
perform c o = (o, c ∷ [])

-- A call whose answer the block looks at itself.
abbrev pub ask {ℓ} : {C E A : Type ℓ} → C → A → Exec C E A
ask c a = (done a, c ∷ [])

-- A `match` on the outcome of an asynchronous part: its error does not end the block.
abbrev pub caught {ℓ} : {E A : Type ℓ} → Outcome A E → Outcome (Result A E) E
caught (done a) = done (ok a)
caught (fail e) = done (err e)
caught panic = panic

abbrev pub attempt {ℓ} : {C E A : Type ℓ} → Exec C E A → Exec C E (Result A E)
attempt (o, t) = (caught o, t)

-- A part whose error is only logged.
abbrev pub logged {ℓ} : {E A : Type ℓ} → Outcome A E → Outcome (Unit {ℓ}) E
logged (done _) = done tt
logged (fail _) = done tt
logged panic = panic

abbrev pub log_error {ℓ} : {C E A : Type ℓ} → Exec C E A → Exec C E (Unit {ℓ})
log_error (o, t) = (logged o, t)

abbrev pub calls {ℓ} : {C E A : Type ℓ} → Exec C E A → List C
calls m = m.1

abbrev pub outcome {ℓ} : {C E A : Type ℓ} → Exec C E A → Outcome A E
outcome m = m.0

-- A block behind a part that is done.
pub bind-done {ℓ} :
    {C E A B : Type ℓ} (m : Exec C E A) (a : A) (f : A → Exec C E B)
    → outcome m ≡ done a
    → (m >>= f) ≡ after (calls m) (f a)
bind-done (o, t) a f e = rw e

-- What a value that is given, or the outcome of a block, is like; an error may be any, and a block
-- does not panic.
abbrev pub Gives : {E A : Type 0} → (A → Type 0) → Result A E → Type 0
Gives P (ok a) = P a
Gives P (err e) = Unit

abbrev pub Ends : {E A : Type 0} → (A → Type 0) → Outcome A E → Type 0
Ends P (done a) = P a
Ends P (fail e) = Unit
Ends P panic = ⊥

pub Gives-any : {E A : Type 0} (r : Result A E) → Gives (λ a. Unit) r
Gives-any (ok a) = tt
Gives-any (err e) = tt

pub Gives-and_then :
    {E A B : Type 0} (P : A → Type 0) (Q : B → Type 0) (r : Result A E) (f : A → Result B E)
    → Gives P r
    → ((a : A) → P a → Gives Q (f a))
    → Gives Q (and_then r f)
Gives-and_then P Q (ok a) f p q = q a p
Gives-and_then P Q (err e) f p q = tt

pub Ends-bind :
    {C E A B : Type 0} (P : A → Type 0) (Q : B → Type 0) (m : Exec C E A) (f : A → Exec C E B)
    → Ends P (outcome m)
    → ((a : A) → P a → Ends Q (outcome (f a)))
    → Ends Q (outcome (m >>= f))
Ends-bind P Q (done a, t) f p q = q a p
Ends-bind P Q (fail e, t) f p q = tt
Ends-bind P Q (panic, t) f p q = absurd p

-- `Ends-bind` for a part that is at hand
pub Ends-lift :
    (C : Type 0) {E A B : Type 0} (P : A → Type 0) (Q : B → Type 0) (r : Result A E)
    (f : A → Exec C E B)
    → Gives P r
    → ((a : A) → P a → Ends Q (outcome (f a)))
    → Ends Q (outcome (lift r >>= f))
Ends-lift C P Q (ok a) f p q = q a p
Ends-lift C P Q (err e) f p q = tt

pub Ends-not_panic : {E A : Type 0} (P : A → Type 0) (o : Outcome A E) → Ends P o → o ≢ panic
Ends-not_panic P (done a) p h = ground arith
Ends-not_panic P (fail e) p h = ground arith
Ends-not_panic P panic p h = p

pub Ends-done :
    {E A : Type 0} (P : A → Type 0) (o : Outcome A E) (a : A) → Ends P o → o ≡ done a → P a
Ends-done P o a p q = transport (λ i. Ends P (q i)) p

pub Ends-given :
    (C : Type 0) {E A : Type 0} (P : A → Type 0) (r : Result A E)
    → Gives P r
    → Ends P (outcome (lift {C = C} r))
Ends-given C P (ok a) p = p
Ends-given C P (err e) p = tt

-- The same of a block that may panic, in a way that `K` describes.
abbrev pub EndsOr : {E A : Type 0} → Type 0 → (A → Type 0) → Outcome A E → Type 0
EndsOr K P (done a) = P a
EndsOr K P (fail e) = Unit
EndsOr K P panic = K

pub EndsOr-runs :
    {E A : Type 0} (K : Type 0) (P : A → Type 0) (o : Outcome A E) → Ends P o → EndsOr K P o
EndsOr-runs K P (done a) p = p
EndsOr-runs K P (fail e) p = tt
EndsOr-runs K P panic p = absurd p

pub EndsOr-bind :
    {C E A B : Type 0} (K : Type 0) (P : A → Type 0) (Q : B → Type 0) (m : Exec C E A)
    (f : A → Exec C E B)
    → EndsOr K P (outcome m)
    → ((a : A) → P a → EndsOr K Q (outcome (f a)))
    → EndsOr K Q (outcome (m >>= f))
EndsOr-bind K P Q (done a, t) f p q = q a p
EndsOr-bind K P Q (fail e, t) f p q = tt
EndsOr-bind K P Q (panic, t) f p q = p

-- with what the outcome of the first part is
pub EndsOr-step :
    {C E A B : Type 0} (K : Type 0) (Q : B → Type 0) (m : Exec C E A) (f : A → Exec C E B)
    → (outcome m ≡ panic → K)
    → ((a : A) → outcome m ≡ done a → EndsOr K Q (outcome (f a)))
    → EndsOr K Q (outcome (m >>= f))
EndsOr-step K Q (done a, t) f k q = q a refl
EndsOr-step K Q (fail e, t) f k q = tt
EndsOr-step K Q (panic, t) f k q = k refl

-- for a part that is at hand, of which something is known or nothing
pub EndsOr-given :
    (C : Type 0) {E A B : Type 0} (K : Type 0) (P : A → Type 0) (Q : B → Type 0) (r : Result A E)
    (f : A → Exec C E B)
    → Gives P r
    → ((a : A) → P a → EndsOr K Q (outcome (f a)))
    → EndsOr K Q (outcome (lift r >>= f))
EndsOr-given C K P Q (ok a) f p q = q a p
EndsOr-given C K P Q (err e) f p q = tt

pub EndsOr-lift :
    (C : Type 0) {E A B : Type 0} (K : Type 0) (Q : B → Type 0) (r : Result A E)
    (f : A → Exec C E B)
    → ((a : A) → r ≡ ok a → EndsOr K Q (outcome (f a)))
    → EndsOr K Q (outcome (lift r >>= f))
EndsOr-lift C K Q (ok a) f q = q a refl
EndsOr-lift C K Q (err e) f q = tt

pub EndsOr-panic :
    {E A : Type 0} (K : Type 0) (P : A → Type 0) (o : Outcome A E) → EndsOr K P o → o ≡ panic → K
EndsOr-panic K P o k e = transport (λ i. EndsOr K P (e i)) k
