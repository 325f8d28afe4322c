-- ===== src/Base/Texts.antt =====
-- Rust's operations on texts that the relayer uses: `contains`, `split('_')`, `split_once`,
-- `strip_prefix` and the parsing of integers.
use Prim.Native.Char.{Char, code}
use Prim.Native.String.{◌++◌}
use text.Mathlib.Text.{starts_with}
use text.Mathlib.TextLemmas.{nil-append, cons-append}
use text.Mathlib.TextPositions.{starts_with-append}
use axelar_relayer.Base.{
  ℕ, zero, suc, ◌+◌, ◌-◌, ◌*◌, ◌/◌, ◌%◌, ◌^◌, ◌≡◌, arith, Bool, true, ◌&&◌, ◌||◌, leb, ltb, ◌==◌,
  if◌then◌else◌, Option, none, some, String,
}
use axelar_relayer.Base.Int.{ℤ, pos, negsuc}

-- `str::contains`
unfoldable pub contains : String → String → Bool
contains t String.[] = starts_with String.[] t
contains t (String.◌∷◌ c s) = starts_with (String.◌∷◌ c s) t || contains t s

-- `split('_').next()`, which is always there
unfoldable pub first_part : String → String
first_part String.[] = String.[]
first_part (String.◌∷◌ c s) =
    let rest = first_part s in if code c == 95 then String.[] else String.◌∷◌ c rest

rest_of : String → Option String
rest_of String.[] = none
rest_of (String.◌∷◌ c s) = let rest = rest_of s in if code c == 95 then some s else rest

-- `split('_').nth(1)`
unfoldable pub second_part : String → Option String
unfolding first_part rest_of
second_part s = elim (rest_of s) [ none ↦ none | some t ↦ some (first_part t) ]

before : Char → Option (String × String) → Option (String × String)
before c none = none
before c (some (s, t)) = some (String.◌∷◌ c s, t)

-- `split_once('/')`
unfoldable pub split_once : String → Option (String × String)
unfolding before
split_once String.[] = none
split_once (String.◌∷◌ c s) =
    let rest = split_once s in if code c == 47 then some (String.[], s) else before c rest

-- `strip_prefix("0x")`
unfoldable pub strip_0x : String → Option String
strip_0x (String.◌∷◌ c (String.◌∷◌ d s)) = if code c == 48 && code d == 120 then some s else none
strip_0x s = none

digits : ℕ → String → Option ℕ
digits n String.[] = some n
digits n (String.◌∷◌ c s) =
    let rest = digits (n * 10 + (code c - 48)) s in
    if leb 48 (code c) && leb (code c) 57 then rest else none

-- a number in decimal digits, at least one
unfoldable pub magnitude : String → Option ℕ
unfolding digits
magnitude String.[] = none
magnitude (String.◌∷◌ c s) = digits 0 (String.◌∷◌ c s)

non_negative : Option ℕ → Option ℤ
non_negative none = none
non_negative (some n) = if ltb n (2 ^ 63) then some (pos n) else none

negative : Option ℕ → Option ℤ
negative none = none
negative (some n) =
    if n == 0 then some (pos 0) else if leb n (2 ^ 63) then some (negsuc (n - 1)) else none

-- `parse::<i64>().ok()`
unfoldable pub parse_i64 : String → Option ℤ
unfolding magnitude non_negative negative
parse_i64 String.[] = none
parse_i64 (String.◌∷◌ c s) =
    if code c == 45
    then negative (magnitude s)
    else if code c == 43
    then non_negative (magnitude s)
    else non_negative (magnitude (String.◌∷◌ c s))

contains-prefix : (t s : String) → starts_with s t ≡ true → contains t s ≡ true
unfolding contains
contains-prefix t String.[] h = h
contains-prefix t (String.◌∷◌ c s) h = ground (arith, h)

-- a text contains what stands in its middle
pub contains-middle : (u t v : String) → contains t (u ++ (t ++ v)) ≡ true
unfolding contains
contains-middle String.[] t v =
    rw (nil-append (t ++ v)) (contains-prefix t (t ++ v) (starts_with-append t v))
contains-middle (String.◌∷◌ c u) t v =
    let rest = contains-middle u t v in rw (cons-append c u (t ++ v)) (ground (arith, rest))

-- the letter of the second alphabet that stands where `c` does in the first
counterpart : String → String → Char → Char
counterpart String.[] _ c = c
counterpart (String.◌∷◌ _ _) String.[] c = c
counterpart (String.◌∷◌ u us) (String.◌∷◌ l ls) c =
    let rest = counterpart us ls c in if code u == code c then l else rest

-- `to_lowercase`, of the ASCII letters
unfoldable pub to_lowercase : String → String
unfolding counterpart
to_lowercase String.[] = String.[]
to_lowercase (String.◌∷◌ c s) =
    String.◌∷◌ (counterpart "ABCDEFGHIJKLMNOPQRSTUVWXYZ" "abcdefghijklmnopqrstuvwxyz" c)
      (to_lowercase s)

-- the letter at a place, as a text
letter : String → ℕ → String
letter String.[] n = String.[]
letter (String.◌∷◌ c s) n = elim n [ zero ↦ String.◌∷◌ c String.[] | suc m ↦ letter s m ]

digit : ℕ → String
unfolding letter
digit n = letter "0123456789" n

digits_of : ℕ → ℕ → String
unfolding digit
digits_of zero n = ""
digits_of (suc fuel) n = elim (n / 10) [
  | zero ↦ digit n
  | suc m ↦ digits_of fuel (suc m) ++ digit (n % 10)
]

-- `to_string` of a number; a number has fewer decimal digits than it is large, or one
unfoldable pub to_string : ℕ → String
unfolding digits_of
to_string n = digits_of (suc n) n

fits_u64 : Option ℕ → Option ℕ
fits_u64 none = none
fits_u64 (some n) = if ltb n (2 ^ 64) then some n else none

-- `u64::from_str(..).ok()`
unfoldable pub parse_u64 : String → Option ℕ
unfolding magnitude fits_u64
parse_u64 String.[] = none
parse_u64 (String.◌∷◌ c s) =
    fits_u64 (if code c == 43 then magnitude s else magnitude (String.◌∷◌ c s))
