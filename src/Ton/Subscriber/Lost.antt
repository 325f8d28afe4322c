-- ===== src/Ton/Subscriber/Lost.antt =====
-- A failure of ton/src/subscriber.rs: an upsert that fails gives up the traces of the same response
-- that are in the table already.
use mathlib.Core.Path.{fun_ext}
use axelar_relayer.Base.{
  ◌≡◌, refl, arith, Bool, true, false, Bool-cases, inl, inr, String, str_eq, str_eq_refl, some, ℕ,
  ◌++◌, List, [], ◌∷◌, map, ok, err, count_if, ◌∙◌,
}
use axelar_relayer.Base.Int.{int_eq_iff}
use axelar_relayer.Queue.{QueueItem}
use axelar_relayer.Subscriber.{ChainTransaction, SubscriberCall, publish, work}
use axelar_relayer.Ton.Traces.{Trace, Table, upsert_and_return_if_changed}
use axelar_relayer.Ton.Subscriber.{State, Answers, start_lt, collect, poll_account}
use axelar_relayer.Ton.Subscriber.Seen.{
  Seen, observe, observe_all, versions, trace_eq, news, SameIff, upsert-versions,
}
use axelar_relayer.Ton.Subscriber.Delivered.{
  Poll, by_account, AllAnswered, item, polls, responses, polls-news, poll_account-ok,
}

abbrev pub has_id : {X : Type 0} → String → Trace X → Bool
has_id k x = str_eq x.trace_id k

-- puts a trace with this id on the queue
abbrev pub gives : {T X : Type 0} → String → SubscriberCall (ChainTransaction T (Trace X)) → Bool
gives k (publish (QueueItem.transaction (ChainTransaction.ton x))) = has_id k x
gives k (publish (QueueItem.transaction (ChainTransaction.xrpl _))) = false
gives k (publish (QueueItem.task _)) = false
gives k (publish (QueueItem.retry_construct_proof _)) = false

-- Where the trace is seen, it is the same version.
abbrev pub Unchanged : {X : Type 0} → Trace X → List (Trace X) → Type 0
Unchanged x [] = Unit {0}
Unchanged x (z ∷ zs) = (has_id x.trace_id z ≡ true → z ≡ x) × Unchanged x zs

abbrev pub AllUpserted : {X : Type 0} → Answers X → List (Trace X) → Type 0
AllUpserted a [] = Unit {0}
AllUpserted a (x ∷ xs) = (a.upserted x.trace_id ≡ ok tt) × AllUpserted a xs

module _ {X : Type 0} (same : X → X → Bool) where
  trace_eq_refl : (x : Trace X) → SameIff same → trace_eq same x x ≡ true
  trace_eq_refl x iff = ground (
    arith,
    int_eq_iff x.start_lt x.start_lt,
    int_eq_iff x.end_lt x.end_lt,
    iff x.transactions x.transactions,
  )

  news_of_seen :
      (x : Trace X) (zs : List (Trace X)) (seen : Seen X)
      → SameIff same
      → seen x.trace_id ≡ some x
      → Unchanged x zs
      → count_if (has_id x.trace_id) (news same seen zs) ≡ 0
  unfolding news
  news_of_seen x [] seen iff s u = refl
  news_of_seen x (z ∷ zs) seen iff s (u, us) = elim (Bool-cases (has_id x.trace_id z)) [
    | inl q ↦
        let ih =
          news_of_seen x zs (observe x seen) iff (ground (arith, str_eq_refl x.trace_id)) us in
        rw (u q) (ground (arith, s, trace_eq_refl x iff, ih))
    | inr q ↦
        let ih = news_of_seen x zs (observe z seen) iff (ground (arith, q, s)) us in
        ground (arith, q, ih)
  ]

  -- the table with these traces
  abbrev pub upserted_all : ℕ → List (Trace X) → Table X → Table X
  upserted_all now [] t = t
  upserted_all now (x ∷ xs) t = upserted_all now xs (upsert_and_return_if_changed same now x t).1

  upserted_all-versions :
      (now : ℕ) (xs : List (Trace X)) (t : Table X)
      → SameIff same
      → versions (upserted_all now xs t) ≡ observe_all same xs (versions t)
  unfolding observe_all
  upserted_all-versions now [] t iff = refl
  upserted_all-versions now (x ∷ xs) t iff =
      let t' : Table X = (upsert_and_return_if_changed same now x t).1 in
      let v : versions t' ≡ observe x (versions t) =
        fun_ext (λ k. upsert-versions same now x t k iff) in
      upserted_all-versions now xs t' iff ∙ rw v

  -- The table keeps what stands before the trace that fails, and nothing is returned.
  collect-lost :
      (a : Answers X) (t : Table X) (us xs : List (Trace X)) (y : Trace X) (e : String)
      → AllUpserted a us
      → a.upserted y.trace_id ≡ err e
      → collect same a (us ++ y ∷ xs) t ≡ (err e, upserted_all a.now us t)
  unfolding collect
  collect-lost a t [] xs y e h hy = ground (arith, hy)
  collect-lost a t (x ∷ us) xs y e (hx, h) hy =
      let rest = collect-lost a (upsert_and_return_if_changed same a.now x t).1 us xs y e h hy in
      ground (arith, hx, rest)

  observed_last :
      (x : Trace X) (zs : List (Trace X)) (seen : Seen X)
      → seen x.trace_id ≡ some x
      → Unchanged x zs
      → observe_all same zs seen x.trace_id ≡ some x
  unfolding observe_all
  observed_last x [] seen s u = s
  observed_last x (z ∷ zs) seen s (u, us) =
      observed_last x zs (observe z seen)
        (elim (Bool-cases (has_id x.trace_id z)) [
          | inl q ↦ rw (u q) (ground (arith, str_eq_refl x.trace_id))
          | inr q ↦ ground (arith, q, s)
        ])
        us

  observed :
      (before between : List (Trace X)) (x : Trace X) (seen : Seen X)
      → Unchanged x between
      → observe_all same (before ++ x ∷ between) seen x.trace_id ≡ some x
  unfolding observe_all
  observed [] between x seen u =
      observed_last x between (observe x seen) (ground (arith, str_eq_refl x.trace_id)) u
  observed (z ∷ before) between x seen u = observed before between x (observe z seen) u

  count-item :
      (T : Type 0) (k : String) (xs : List (Trace X))
      → count_if (gives {T = T} k) (map (item same T) xs) ≡ count_if (has_id k) xs
  count-item T k [] = refl
  count-item T k (x ∷ xs) = ground (arith, count-item T k xs)

  -- A trace that stands anywhere in a response before the first one whose upsert fails is never put
  -- on the queue, as long as its version stays the same, in the rest of the response too, and the
  -- database answers from then on: not in this round, and not in any later ones of the two pollers.
  pub lost_on_error :
      (T : Type 0) (a : Answers X) (s : State X) (before between : List (Trace X)) (x y : Trace X)
      (xs : List (Trace X)) (e : String) (later : List (Poll X))
      → SameIff same
      → a.get_traces (start_lt s) ≡ ok ((before ++ x ∷ between) ++ y ∷ xs)
      → AllUpserted a (before ++ x ∷ between)
      → a.upserted y.trace_id ≡ err e
      → Unchanged x between
      → AllAnswered later
      → Unchanged x (responses same T later (poll_account same a s).1)
      → count_if (gives x.trace_id) (polls same T (by_account a ∷ later) s).0 ≡ 0
  unfolding polls work
  lost_on_error T a s before between x y xs e later iff got stored hy u answered same' =
      let us = before ++ x ∷ between in
      let (r, t) = poll_account-ok same a s (us ++ y ∷ xs) got in
      let c = collect-lost a s.traces us xs y e stored hy in
      let (n, v) = polls-news same T later (poll_account same a s).1 iff answered in
      let kept : versions (poll_account same a s).1.traces x.trace_id ≡ some x =
        rw (t, c, upserted_all-versions a.now us s.traces iff)
          (observed before between x (versions s.traces) u) in
      rw (r, c, n)
        (count-item T x.trace_id (
            news same (versions (poll_account same a s).1.traces)
              (responses same T later (poll_account same a s).1))
          ∙ news_of_seen x (responses same T later (poll_account same a s).1)
              (versions (poll_account same a s).1.traces) iff kept same')
