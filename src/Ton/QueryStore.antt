-- ===== src/Ton/QueryStore.antt =====
-- ton/src/models/ton_wallet_query_id.rs and ton/src/high_load_query_id_db_wrapper.rs: the last
-- query id of each wallet, in a table by address. A row is modelled with the columns that the
-- queries read; time is in seconds.
pub mod Sequence
pub mod Reissue
use axelar_relayer.Base.{
  ℕ, ◌+◌, ◌-◌, ◌*◌, ◌≤◌, ◌≡◌, Bool, true, false, ◌||◌, ◌&&◌, leb, ◌==◌, if◌then◌else◌, String,
  Option, none, some, List, [], ◌∷◌, str_eq, Result, ok, err, map_err, and_then,
}
use axelar_relayer.Base.Dict.{lookup, insert}
use axelar_relayer.Base.Int.{ℤ, pos, negsuc, is_negative, as_u32, as_i32}
use axelar_relayer.Ton.QueryId.{
  HighLoadQueryId, HighLoadQueryIdError, from_shift_and_bitnumber, has_next, query_id, IsValid,
}
use axelar_relayer.Ton.QueryId

pub record Row : Type 0 where
  pub shift : ℤ
  pub bitnumber : ℤ
  pub expires_at : ℕ

abbrev pub Table : Type 0
Table = List (String × Row)

-- `CURRENT_TIMESTAMP + n * INTERVAL '1 second'`, for a time that is not before the year 0
abbrev pub plus_seconds : ℕ → ℤ → ℕ
plus_seconds now (pos n) = now + n
plus_seconds now (negsuc n) = now - (n + 1)

-- the row is there and has not expired
abbrev pub live_row : ℕ → Option Row → ℤ × ℤ
live_row now none = (negsuc 0, negsuc 0)
live_row now (some r) =
    if leb now r.expires_at then (r.shift, r.bitnumber) else (negsuc 0, negsuc 0)

unfoldable pub get_query_id : ℕ → Table → String → ℤ × ℤ
get_query_id now t address = live_row now (lookup address t)

-- an `UPDATE` of a missing row changes nothing
unfoldable pub update_query_id : Table → String → ℤ → ℤ → Table
update_query_id t address shift bitnumber = elim (lookup address t) [
  | none ↦ t
  | some r ↦ insert address (record r { shift = shift; bitnumber = bitnumber }) t
]

unfoldable pub upsert_query_id : ℕ → Table → String → ℤ → ℤ → ℤ → Table
upsert_query_id now t address shift bitnumber timeout =
    insert address
      (record { shift = shift; bitnumber = bitnumber; expires_at = plus_seconds now timeout }) t

abbrev pub timeout_buffer_multiplier : ℕ
timeout_buffer_multiplier = 3

pub data WrapperError : Type 0 where
  construction_error no_next_query_id database_error : WrapperError

advance : HighLoadQueryId → Result HighLoadQueryId WrapperError
advance q =
    if has_next q
    then map_err (λ _. WrapperError.construction_error) (QueryId.next q)
    else err WrapperError.no_next_query_id

-- The id that `next` will store and return.
unfoldable pub choose : ℤ × ℤ → Result HighLoadQueryId WrapperError
unfolding advance
choose (shift, bitnumber) =
    if is_negative shift || is_negative bitnumber
    then map_err (λ _. WrapperError.construction_error) (from_shift_and_bitnumber 0 0)
    else and_then
        (map_err (λ _. WrapperError.construction_error)
          (from_shift_and_bitnumber (as_u32 shift) (as_u32 bitnumber)))
        advance

-- `timeout as i32 * TIMEOUT_BUFFER_MULTIPLIER` wraps, as the product before the cast does.
unfoldable pub store : ℕ → Table → String → ℕ → HighLoadQueryId → Table
store now t address timeout q =
    if query_id q == 0
    then upsert_query_id now t address (as_i32 q.shift) (as_i32 q.bitnumber)
        (as_i32 (timeout * timeout_buffer_multiplier))
    else update_query_id t address (as_i32 q.shift) (as_i32 q.bitnumber)

-- `read` and `written` say whether the database answers the two queries. A write that fails has
-- changed nothing.
unfoldable pub next :
    Bool → Bool → ℕ → Table → String → ℕ → Result HighLoadQueryId WrapperError × Table
next read written now t address timeout =
    if read
    then elim (choose (get_query_id now t address)) [
      | err e ↦ (err e, t)
      | ok q ↦
          if written
          then (ok q, store now t address timeout q)
          else (err WrapperError.database_error, t)
    ]
    else (err WrapperError.database_error, t)

-- One call of `next` by some wallet, with the answers of the database.
pub record NextCall : Type 0 where
  pub read : Bool
  pub written : Bool
  pub now : ℕ
  pub address : String
  pub timeout : ℕ

-- The ids that calls, in order, hand out to one wallet.
unfoldable pub issued : String → List NextCall → Table → List HighLoadQueryId
issued address [] t = []
issued address (k ∷ ks) t =
    let (r, t') = next k.read k.written k.now t k.address k.timeout in
    let rest = issued address ks t' in
    elim r [ err _ ↦ rest | ok q ↦ if str_eq k.address address then q ∷ rest else rest ]
