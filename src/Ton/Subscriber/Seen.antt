-- ===== src/Ton/Subscriber/Seen.antt =====
-- What the pollers of ton/src/subscriber.rs and ton/src/retry_subscriber.rs are for, without the
-- table: to remember the last version of each trace, and to hand out each complete trace that
-- differs from it.
use axelar_relayer.Base.{
  ℕ, ◌≡◌, refl, arith, Bool, true, false, not, ◌&&◌, ◌↔◌, inl, inr, if◌then◌else◌, is_some, String,
  str_eq, str_eq_iff, Option, none, some, Option-cases, Bool-cases, List, [], ◌∷◌, ok, keep,
}
use mathlib.Core.Path.{fun_ext}
use axelar_relayer.Base.Dict.{lookup, lookup-insert}
use axelar_relayer.Base.Int.{int_eq, int_eq_iff, int_pred}
use axelar_relayer.Ton.Traces.{
  Trace, TonTrace, Table, bool_eq, new_row, overwritten, is_distinct, decrease_retry,
  upsert_and_return_if_changed,
}
use axelar_relayer.Ton.Subscriber.{Answers, RetryAnswers, pushed, collect, collect_retry}

-- The last version of each trace, by its id.
abbrev pub Seen : Type 0 → Type 0
Seen X = String → Option (Trace X)

abbrev pub observe : {X : Type 0} → Trace X → Seen X → Seen X
observe x seen k = if str_eq x.trace_id k then some x else seen k

abbrev pub version : {X : Type 0} → String → TonTrace X → Trace X
version k r = record {
  is_incomplete = r.is_incomplete;
  start_lt = r.start_lt;
  end_lt = r.end_lt;
  trace_id = k;
  transactions = r.transactions;
}

-- What the table remembers.
abbrev pub versions : {X : Type 0} → Table X → Seen X
versions t k = elim (lookup k t) [ none ↦ none | some r ↦ some (version k r) ]

abbrev pub complete : {X : Type 0} → List (Trace X) → List (Trace X)
complete = keep (λ x. not x.is_incomplete)

module _ {X : Type 0} (same : X → X → Bool) where
  abbrev pub trace_eq : Trace X → Trace X → Bool
  trace_eq x y =
      bool_eq x.is_incomplete y.is_incomplete
      && int_eq x.start_lt y.start_lt
      && int_eq x.end_lt y.end_lt
      && same x.transactions y.transactions

  abbrev pub is_news : Seen X → Trace X → Bool
  is_news seen x = elim (seen x.trace_id) [ none ↦ true | some y ↦ not (trace_eq y x) ]

  -- The complete traces of a response that differ from the version before, in order.
  unfoldable pub news : Seen X → List (Trace X) → List (Trace X)
  news seen [] = []
  news seen (x ∷ xs) =
      let rest = news (observe x seen) xs in
      if is_news seen x && not x.is_incomplete then x ∷ rest else rest

  unfoldable pub observe_all : List (Trace X) → Seen X → Seen X
  observe_all [] seen = seen
  observe_all (x ∷ xs) seen = observe_all xs (observe x seen)

  abbrev pub SameIff : Type 0
  SameIff = (x y : X) → (same x y ≡ true) ↔ (x ≡ y)

  is_distinct_lem :
      (r : TonTrace X) (x : Trace X)
      → is_distinct same r x ≡ not (trace_eq (version x.trace_id r) x)
  unfolding is_distinct
  is_distinct_lem r x = ground arith

  pub trace_eq_sound :
      (y x : Trace X) → SameIff → y.trace_id ≡ x.trace_id → trace_eq y x ≡ true → y ≡ x
  trace_eq_sound y x iff i e = ground (
    arith,
    int_eq_iff y.start_lt x.start_lt,
    int_eq_iff y.end_lt x.end_lt,
    iff y.transactions x.transactions,
  )

  pub upsert-changed :
      (now : ℕ) (x : Trace X) (t : Table X)
      → is_some (upsert_and_return_if_changed same now x t).0 ≡ is_news (versions t) x
  unfolding upsert_and_return_if_changed
  upsert-changed now x t = elim (Option-cases (lookup x.trace_id t)) [
    | inl e ↦ ground (arith, e)
    | inr (r, e) ↦ ground (arith, e, is_distinct_lem r x)
  ]

  pub upsert-versions :
      (now : ℕ) (x : Trace X) (t : Table X) (k : String)
      → SameIff
      → versions (upsert_and_return_if_changed same now x t).1 k ≡ observe x (versions t) k
  unfolding upsert_and_return_if_changed new_row overwritten
  upsert-versions now x t k iff = elim (Option-cases (lookup x.trace_id t)) [
    | inl e ↦ ground (arith, e, lookup-insert x.trace_id k (new_row x) t, str_eq_iff x.trace_id k)
    | inr (r, e) ↦ ground (
      arith,
      e,
      is_distinct_lem r x,
      trace_eq_sound (version x.trace_id r) x iff refl,
      lookup-insert x.trace_id k (overwritten now x r) t,
      str_eq_iff x.trace_id k,
    )
  ]

  pub decrease_retry-versions :
      (id k : String) (t : Table X) → versions (decrease_retry id t) k ≡ versions t k
  unfolding decrease_retry
  decrease_retry-versions id k t = elim (Option-cases (lookup id t)) [
    | inl e ↦ rw (e, decrease_retry)
    | inr (r, e) ↦ ground (
      arith,
      e,
      lookup-insert id k (record r { retries = int_pred r.retries }) t,
      str_eq_iff id k,
    )
  ]

  collect-cons :
      (a : Answers X) (x : Trace X) (xs : List (Trace X)) (t : Table X)
      → a.upserted x.trace_id ≡ ok tt
      → collect same a (x ∷ xs) t ≡ (
        pushed
            (is_news (versions t) x && not x.is_incomplete)
            x
            (collect same a xs (upsert_and_return_if_changed same a.now x t).1).0,
        (collect same a xs (upsert_and_return_if_changed same a.now x t).1).1,
      )
  unfolding collect
  collect-cons a x xs t e = ground (arith, e, upsert-changed a.now x t)

  -- A response of which every trace is stored.
  pub collect_lem :
      (a : Answers X) (xs : List (Trace X)) (t : Table X)
      → SameIff
      → ((k : String) → a.upserted k ≡ ok tt)
      → ((collect same a xs t).0 ≡ ok (news (versions t) xs))
        × (versions (collect same a xs t).1 ≡ observe_all xs (versions t))
  unfolding collect news observe_all
  collect_lem a [] t iff h = (refl, refl)
  collect_lem a (x ∷ xs) t iff h =
      let t' : Table X = (upsert_and_return_if_changed same a.now x t).1 in
      let v : versions t' ≡ observe x (versions t) =
        fun_ext (λ k. upsert-versions a.now x t k iff) in
      let (news', versions') = collect_lem a xs t' iff h in
      rw (collect-cons a x xs t (h x.trace_id), news', v) (ground arith, rw v at versions')

  collect_retry_complete :
      (a : RetryAnswers X) (x : Trace X) (xs : List (Trace X)) (t : Table X)
      → x.is_incomplete ≡ false
      → a.upserted x.trace_id ≡ ok tt
      → collect_retry same a (x ∷ xs) t ≡ (
        pushed
            (is_news (versions t) x && not x.is_incomplete)
            x
            (collect_retry same a xs (upsert_and_return_if_changed same a.now x t).1).0,
        (collect_retry same a xs (upsert_and_return_if_changed same a.now x t).1).1,
      )
  unfolding collect_retry
  collect_retry_complete a x xs t c e = ground (arith, c, e, upsert-changed a.now x t)

  complete-skips :
      (x : Trace X) (xs : List (Trace X)) → x.is_incomplete ≡ true → complete (x ∷ xs) ≡ complete xs
  complete-skips x xs i = ground arith

  complete-keeps :
      (x : Trace X) (xs : List (Trace X))
      → x.is_incomplete ≡ false
      → complete (x ∷ xs) ≡ x ∷ complete xs
  complete-keeps x xs i = ground arith

  collect_retry-incomplete :
      (a : RetryAnswers X) (x : Trace X) (xs : List (Trace X)) (t : Table X)
      → x.is_incomplete ≡ true
      → a.decreased x.trace_id ≡ ok tt
      → collect_retry same a (x ∷ xs) t ≡ collect_retry same a xs (decrease_retry x.trace_id t)
  unfolding collect_retry
  collect_retry-incomplete a x xs t i e = ground (arith, i, e)

  -- The retries see the complete traces only.
  pub collect_retry_lem :
      (a : RetryAnswers X) (xs : List (Trace X)) (t : Table X)
      → SameIff
      → ((k : String) → a.upserted k ≡ ok tt)
      → ((k : String) → a.decreased k ≡ ok tt)
      → ((collect_retry same a xs t).0 ≡ ok (news (versions t) (complete xs)))
        × (versions (collect_retry same a xs t).1 ≡ observe_all (complete xs) (versions t))
  unfolding collect_retry news observe_all
  collect_retry_lem a [] t iff h d = (refl, refl)
  collect_retry_lem a (x ∷ xs) t iff h d = elim (Bool-cases x.is_incomplete) [
    | inl i ↦
        let t' : Table X = decrease_retry x.trace_id t in
        let v : versions t' ≡ versions t = fun_ext (λ k. decrease_retry-versions x.trace_id k t) in
        let (news', versions') = collect_retry_lem a xs t' iff h d in
        rw (collect_retry-incomplete a x xs t i (d x.trace_id), complete-skips x xs i)
          (rw v at news', rw v at versions')
    | inr c ↦
        let t' : Table X = (upsert_and_return_if_changed same a.now x t).1 in
        let v : versions t' ≡ observe x (versions t) =
          fun_ext (λ k. upsert-versions a.now x t k iff) in
        let (news', versions') = collect_retry_lem a xs t' iff h d in
        rw (collect_retry_complete a x xs t c (h x.trace_id), complete-keeps x xs c, news', v)
          (ground arith, rw v at versions')
  ]
