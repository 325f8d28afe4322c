-- ===== src/Ton/QueryId.antt =====
-- ton/src/high_load_query_id.rs: the query ids of a high-load wallet. The fields are `u32`, whose
-- sums wrap; the `async` of the functions has no effect.
pub mod Order
use axelar_relayer.Base.{
  ℕ, ◌+◌, ◌-◌, ◌*◌, ◌%◌, ◌^◌, ◌≡◌, ◌≤◌, Bool, not, ◌&&◌, ltb, leb, ◌==◌, if◌then◌else◌, Result, ok,
  err,
}

pub data HighLoadQueryIdError : Type 0 where
  invalid_shift invalid_bitnumber : ℕ → HighLoadQueryIdError
  emergency_overload shift_overflow : HighLoadQueryIdError

pub record HighLoadQueryId : Type 0 where
  pub shift : ℕ
  pub bitnumber : ℕ

abbrev pub max_shift : ℕ
max_shift = 8191

abbrev pub max_bitnumber : ℕ
max_bitnumber = 1022

abbrev pub bitnumber_size : ℕ
bitnumber_size = 10

unfoldable pub from_shift_and_bitnumber : ℕ → ℕ → Result HighLoadQueryId HighLoadQueryIdError
from_shift_and_bitnumber shift bitnumber =
    if ltb max_shift shift
    then err (HighLoadQueryIdError.invalid_shift max_shift)
    else if ltb max_bitnumber bitnumber
    then err (HighLoadQueryIdError.invalid_bitnumber max_bitnumber)
    else ok (record { shift = shift; bitnumber = bitnumber })

unfoldable pub next : HighLoadQueryId → Result HighLoadQueryId HighLoadQueryIdError
unfolding from_shift_and_bitnumber
next q =
    let new_bitnumber = (q.bitnumber + 1) % 2 ^ 32 in
    let rolled_shift = (q.shift + 1) % 2 ^ 32 in
    if (q.shift == max_shift) && (new_bitnumber == max_bitnumber - 1)
    then err HighLoadQueryIdError.emergency_overload
    else if ltb max_bitnumber new_bitnumber
    then (if ltb max_shift rolled_shift
        then err HighLoadQueryIdError.shift_overflow
        else from_shift_and_bitnumber rolled_shift 0)
    else from_shift_and_bitnumber q.shift new_bitnumber

unfoldable pub has_next : HighLoadQueryId → Bool
has_next q = not (leb (max_bitnumber - 1) q.bitnumber && (q.shift == max_shift))

-- a `u64`
unfoldable pub query_id : HighLoadQueryId → ℕ
query_id q = (q.shift * 2 ^ bitnumber_size % 2 ^ 64 + q.bitnumber) % 2 ^ 64

-- The ranges that the source's comments give.
pub record IsValid (q : HighLoadQueryId) : Type 0 where
  pub shift_fits : q.shift ≤ max_shift
  pub bitnumber_fits : q.bitnumber ≤ max_bitnumber
