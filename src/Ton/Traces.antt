-- ===== src/Ton/Traces.antt =====
-- ton/src/models/ton_trace.rs: the table of the traces that were seen, by their id. `X` is the type
-- of a list of transactions, and `same` the comparison of its JSON by the database. Time is in
-- seconds. The time of a row's insertion, which nothing reads, is left out.
use axelar_relayer.Base.{
  ℕ, zero, suc, Bool, true, false, not, ◌&&◌, ◌||◌, ltb, if◌then◌else◌, String, Option, none, some,
  List, [], ◌∷◌,
}
use axelar_relayer.Base.Dict.{lookup, insert}
use axelar_relayer.Base.Int.{ℤ, pos, int_eq, int_leb, int_pred}

-- `start_lt` and `end_lt` are an `i64`.
pub record Trace (X : Type 0) : Type 0 where
  pub is_incomplete : Bool
  pub start_lt : ℤ
  pub end_lt : ℤ
  pub trace_id : String
  pub transactions : X

pub record EventSummary : Type 0 where
  pub event_id : String
  pub message_id : Option String
  pub event_type : String

-- A row of the table, without its key.
pub record TonTrace (X : Type 0) : Type 0 where
  pub is_incomplete : Bool
  pub start_lt : ℤ
  pub end_lt : ℤ
  pub retries : ℤ
  pub transactions : X
  pub events : Option (List EventSummary)
  pub updated_at : Option ℕ

abbrev pub Table : Type 0 → Type 0
Table X = List (String × TonTrace X)

-- the column's default
abbrev pub default_retries : ℤ
default_retries = pos 10

abbrev pub bool_eq : Bool → Bool → Bool
bool_eq true b = b
bool_eq false b = not b

-- NULLS FIRST, and rows of one time in the order of the table
abbrev pub not_later : Option ℕ → Option ℕ → Bool
not_later none _ = true
not_later (some a) none = false
not_later (some a) (some b) = not (ltb b a)

module _ {X : Type 0} where
  unfoldable pub by_updated_at : String × TonTrace X → Table X → Table X
  by_updated_at r [] = r ∷ []
  by_updated_at r (s ∷ rows) =
      let deeper = by_updated_at r rows in
      if not_later r.1.updated_at s.1.updated_at then r ∷ s ∷ rows else s ∷ deeper

  abbrev pub wants_retry : TonTrace X → Bool
  wants_retry r = not (int_leb r.retries (pos 0)) && r.is_incomplete

  unfoldable pub retriable : Table X → Table X
  unfolding by_updated_at
  retriable [] = []
  retriable ((k, r) ∷ rows) =
      let rest = retriable rows in if wants_retry r then by_updated_at (k, r) rest else rest

  abbrev pub limited : ℕ → Table X → Table X
  limited zero rows = []
  limited (suc n) [] = []
  limited (suc n) (r ∷ rows) = r ∷ limited n rows

  unfoldable pub fetch_retry : ℕ → Table X → Table X
  unfolding retriable
  fetch_retry limit t = limited limit (retriable t)

  -- an `UPDATE` of a missing row changes nothing
  unfoldable pub decrease_retry : String → Table X → Table X
  decrease_retry trace_id t = elim (lookup trace_id t) [
    | none ↦ t
    | some r ↦ insert trace_id (record r { retries = int_pred r.retries }) t
  ]

  unfoldable pub update_events : ℕ → String → List EventSummary → Table X → Table X
  update_events now trace_id events t = elim (lookup trace_id t) [
    | none ↦ t
    | some r ↦ insert trace_id (record r { events = some events; updated_at = some now }) t
  ]

  unfoldable pub new_row : Trace X → TonTrace X
  new_row x = record {
    is_incomplete = x.is_incomplete;
    start_lt = x.start_lt;
    end_lt = x.end_lt;
    retries = default_retries;
    transactions = x.transactions;
    events = none;
    updated_at = none;
  }

  unfoldable pub overwritten : ℕ → Trace X → TonTrace X → TonTrace X
  overwritten now x r = record r {
    is_incomplete = x.is_incomplete;
    start_lt = x.start_lt;
    end_lt = x.end_lt;
    transactions = x.transactions;
    updated_at = some now;
  }

module _ {X : Type 0} (same : X → X → Bool) where
  -- the `WHERE` of the upsert: some column differs
  unfoldable pub is_distinct : TonTrace X → Trace X → Bool
  is_distinct r x =
      not (bool_eq r.is_incomplete x.is_incomplete)
      || not (int_eq r.start_lt x.start_lt)
      || not (int_eq r.end_lt x.end_lt)
      || not (same r.transactions x.transactions)

  -- the row that is returned, if one was written
  unfoldable pub upsert_and_return_if_changed :
      ℕ → Trace X → Table X → Option (TonTrace X) × Table X
  unfolding new_row overwritten
  upsert_and_return_if_changed now x t = elim (lookup x.trace_id t) [
    | none ↦ (some (new_row x), insert x.trace_id (new_row x) t)
    | some r ↦
        if is_distinct r x
        then (some (overwritten now x r), insert x.trace_id (overwritten now x r) t)
        else (none, t)
  ]
