-- ===== src/Ton/Subscriber/Delivered.antt =====
-- What ton/src/subscriber.rs and ton/src/retry_subscriber.rs put on the queue together, in any
-- sequence of their rounds.
use mathlib.Core.List.{map-append, append-nil, append_assoc}
use axelar_relayer.Base.{
  ◌≡◌, refl, false, Option-cases, Bool-cases, ap, ◌∙◌, arith, ◌&&◌, not, Bool, String, str_eq,
  str_eq_iff, str_eq_refl, Option, some, none, List, [], ◌∷◌, ◌++◌, map, Result, ok, err,
  Result-cases, inl, inr, if◌then◌else◌,
}
use axelar_relayer.Base.Dict.{lookup}
use axelar_relayer.Subscriber.{
  ChainTransaction, SubscriberCall, TransactionPoller, item_of, publish_all, work,
}
use axelar_relayer.Ton.Traces.{Trace, Table}
use axelar_relayer.Ton.Subscriber.{
  State, Answers, RetryAnswers, start_lt, store_latest_height, advance, collect, collect_retry,
  retried, poll_account, poll_retries, ton_subscriber, retry_subscriber,
}
use axelar_relayer.Ton.Subscriber.Seen.{
  Seen, observe, trace_eq, trace_eq_sound, versions, news, is_news, observe_all, SameIff, complete,
  collect_lem, collect_retry_lem,
}

-- A round of one of the two pollers.
pub data Poll (X : Type 0) : Type 0 where
  by_account : Answers X → Poll X
  by_retry : RetryAnswers X → Poll X

-- The database answers each statement on a trace; the client, and the other statements, may fail.
abbrev pub IsAnswered : {X : Type 0} → Poll X → Type 0
IsAnswered (by_account a) = (k : String) → a.upserted k ≡ ok tt
IsAnswered (by_retry a) =
    ((k : String) → a.upserted k ≡ ok tt) × ((k : String) → a.decreased k ≡ ok tt)

abbrev pub AllAnswered : {X : Type 0} → List (Poll X) → Type 0
AllAnswered [] = Unit {0}
AllAnswered (p ∷ ps) = IsAnswered p × AllAnswered ps

abbrev pub received : {X : Type 0} → Result (List (Trace X)) String → List (Trace X)
received (ok xs) = xs
received (err _) = []

-- The traces that the client answers in a round; of the retries, the complete ones.
abbrev pub response : {X : Type 0} → Poll X → State X → List (Trace X)
response (by_account a) s = received (a.get_traces (start_lt s))
response (by_retry a) s = complete (received (retried a s.traces))

publish_all-received :
    {S A X Item : Type 0} (poller : TransactionPoller S A (Trace X) Item)
    (r : Result (List (Trace X)) String)
    → publish_all poller r ≡ map (item_of poller) (received r)
publish_all-received poller (ok xs) = refl
publish_all-received poller (err e) = refl

module _ {X : Type 0} (same : X → X → Bool) where
  news-append :
      (xs ys : List (Trace X)) (seen : Seen X)
      → news same seen (xs ++ ys) ≡ news same seen xs ++ news same (observe_all same xs seen) ys
  unfolding news observe_all
  news-append [] ys seen = refl
  news-append (x ∷ xs) ys seen = ground (arith, news-append xs ys (observe x seen))

  observe_all-append :
      (xs ys : List (Trace X)) (seen : Seen X)
      → observe_all same (xs ++ ys) seen ≡ observe_all same ys (observe_all same xs seen)
  unfolding observe_all
  observe_all-append [] ys seen = refl
  observe_all-append (x ∷ xs) ys seen = observe_all-append xs ys (observe x seen)

  advance-traces :
      (a : Answers X) (xs : List (Trace X)) (s : State X) → (advance a xs s).traces ≡ s.traces
  unfolding advance store_latest_height
  advance-traces a xs s = ground arith

  pub poll_account-ok :
      (a : Answers X) (s : State X) (xs : List (Trace X))
      → a.get_traces (start_lt s) ≡ ok xs
      → ((poll_account same a s).0 ≡ (collect same a xs s.traces).0)
        × ((poll_account same a s).1.traces ≡ (collect same a xs s.traces).1)
  unfolding poll_account
  poll_account-ok a s xs q = ground (arith, q, advance-traces a xs s)

  poll_account-err :
      (a : Answers X) (s : State X) (e : String)
      → a.get_traces (start_lt s) ≡ err e
      → poll_account same a s ≡ (err e, s)
  unfolding poll_account
  poll_account-err a s e q = ground (arith, q)

  poll_account-news :
      (a : Answers X) (s : State X)
      → SameIff same
      → IsAnswered (by_account a)
      → (received (poll_account same a s).0
          ≡ news same (versions s.traces) (response (by_account a) s))
        × (versions (poll_account same a s).1.traces
            ≡ observe_all same (response (by_account a) s) (versions s.traces))
  unfolding news observe_all
  poll_account-news a s iff h = elim (Result-cases (a.get_traces (start_lt s))) [
    | inr (e, q) ↦ rw (poll_account-err a s e q, q) (refl, refl)
    | inl (xs, q) ↦
        let (n, v) = collect_lem same a xs s.traces iff h in
        let (r, t) = poll_account-ok a s xs q in rw (q, r, t, n) (refl, v)
  ]

  poll_retries-ok :
      (a : RetryAnswers X) (t : Table X) (xs : List (Trace X))
      → retried a t ≡ ok xs
      → poll_retries same a t ≡ collect_retry same a xs t
  unfolding poll_retries
  poll_retries-ok a t xs q = ground (arith, q)

  poll_retries-err :
      (a : RetryAnswers X) (t : Table X) (e : String)
      → retried a t ≡ err e
      → poll_retries same a t ≡ (err e, t)
  unfolding poll_retries
  poll_retries-err a t e q = ground (arith, q)

  poll_retries-news :
      (a : RetryAnswers X) (s : State X)
      → SameIff same
      → IsAnswered (by_retry a)
      → (received (poll_retries same a s.traces).0
          ≡ news same (versions s.traces) (response (by_retry a) s))
        × (versions (poll_retries same a s.traces).1
            ≡ observe_all same (response (by_retry a) s) (versions s.traces))
  unfolding news observe_all
  poll_retries-news a s iff h = elim (Result-cases (retried a s.traces)) [
    | inr (e, q) ↦ rw (poll_retries-err a s.traces e q, q) (refl, refl)
    | inl (xs, q) ↦
        let (n, v) = collect_retry_lem same a xs s.traces iff h.0 h.1 in
        rw (q, poll_retries-ok a s.traces xs q, n) (refl, v)
  ]

  module _ (T : Type 0) where
    abbrev pub Published : Type 0
    Published = List (SubscriberCall (ChainTransaction T (Trace X)))

    abbrev pub item : Trace X → SubscriberCall (ChainTransaction T (Trace X))
    item = item_of (ton_subscriber same)

    abbrev pub poll : Poll X → State X → Published × State X
    poll (by_account a) s = work (ton_subscriber same) a s
    poll (by_retry a) s =
        let (published, t) = work (retry_subscriber same) a s.traces in
        (published, record s { traces = t })

    unfoldable pub polls : List (Poll X) → State X → Published × State X
    polls [] s = ([], s)
    polls (p ∷ ps) s =
        let (published, s') = poll p s in
        let (later, s'') = polls ps s' in (published ++ later, s'')

    -- Everything that the client answers in these rounds, in order.
    unfoldable pub responses : List (Poll X) → State X → List (Trace X)
    responses [] s = []
    responses (p ∷ ps) s = response p s ++ responses ps (poll p s).1

    poll-news :
        (p : Poll X) (s : State X)
        → SameIff same
        → IsAnswered p
        → ((poll p s).0 ≡ map item (news same (versions s.traces) (response p s)))
          × (versions (poll p s).1.traces ≡ observe_all same (response p s) (versions s.traces))
    unfolding work
    poll-news (by_account a) s iff h =
        let (n, v) = poll_account-news a s iff h in
        (publish_all-received (ton_subscriber same) (poll_account same a s).0 ∙ ap (map item) n, v)
    poll-news (by_retry a) s iff h =
        let (n, v) = poll_retries-news a s iff h in
        (
          publish_all-received (retry_subscriber same) (poll_retries same a s.traces).0
              ∙ ap (map item) n,
          v,
        )

    -- In any sequence of rounds of the two pollers in which the database answers the statements on
    -- single traces, the queue is given exactly the complete traces of the responses that differ
    -- from the last version before them, in order, and the table then holds the last version of
    -- each trace; of the retries' responses only the complete traces count.
    pub polls-news :
        (ps : List (Poll X)) (s : State X)
        → SameIff same
        → AllAnswered ps
        → ((polls ps s).0 ≡ map item (news same (versions s.traces) (responses ps s)))
          × (versions (polls ps s).1.traces ≡ observe_all same (responses ps s) (versions s.traces))
    unfolding polls responses news observe_all
    polls-news [] s iff h = (refl, refl)
    polls-news (p ∷ ps) s iff (h, hs) =
        let (n, v) = poll-news p s iff h in
        let (ns, vs) = polls-news ps (poll p s).1 iff hs in
        let xs : List (Trace X) = response p s in
        let ys : List (Trace X) = responses ps (poll p s).1 in
        rw
          (
            news-append xs ys (versions s.traces),
            observe_all-append xs ys (versions s.traces),
            map-append,
            ← v,
            n,
            ns,
          )
          (refl, vs)

-- The last trace with an id.
abbrev pub last_of : {X : Type 0} → String → List (Trace X) → Option (Trace X)
last_of k [] = none
last_of k (x ∷ xs) = elim (last_of k xs) [
  | some y ↦ some y
  | none ↦ if str_eq x.trace_id k then some x else none
]

-- Each complete trace that is remembered was the last one given out with its id.
abbrev pub Delivered : {X : Type 0} → Seen X → List (Trace X) → Type 0
Delivered {X} seen given =
    (k : String) (x : Trace X)
    → seen k ≡ some x
    → x.is_incomplete ≡ false
    → last_of k given ≡ some x

last_of-append_one :
    {X : Type 0} (k : String) (xs : List (Trace X)) (x : Trace X)
    → last_of k (xs ++ x ∷ []) ≡ (if str_eq x.trace_id k then some x else last_of k xs)
last_of-append_one k [] x = ground arith
last_of-append_one k (y ∷ ys) x = ground (arith, last_of-append_one k ys x)

-- Each trace is remembered under its own id.
abbrev pub Named : {X : Type 0} → Seen X → Type 0
Named {X} seen = (k : String) (x : Trace X) → seen k ≡ some x → x.trace_id ≡ k

observe-Named : {X : Type 0} (x : Trace X) (seen : Seen X) → Named seen → Named (observe x seen)
observe-Named x seen n k y e = ground (arith, n k y, str_eq_iff x.trace_id k)

module _ {X : Type 0} (same : X → X → Bool) where
  abbrev given_next : Seen X → Trace X → List (Trace X)
  given_next seen x = if is_news same seen x && not x.is_incomplete then x ∷ [] else []

  last_given :
      (x : Trace X) (seen : Seen X) (given : List (Trace X))
      → SameIff same
      → Named seen
      → Delivered seen given
      → x.is_incomplete ≡ false
      → last_of x.trace_id (given ++ given_next seen x) ≡ some x
  last_given x seen given iff n d c = elim (Option-cases (seen x.trace_id)) [
    | inl e ↦ ground (arith, c, e, last_of-append_one x.trace_id given x, str_eq_refl x.trace_id)
    | inr (z, e) ↦ elim (Bool-cases (trace_eq same z x)) [
      | inl q ↦
          let zx : z ≡ x = trace_eq_sound same z x iff (n x.trace_id z e) q in
          let last : last_of x.trace_id given ≡ some x = d x.trace_id x (e ∙ ap some zx) c in
          ground (arith, e, q, last, append-nil given)
      | inr q ↦
          ground (arith, c, e, q, last_of-append_one x.trace_id given x, str_eq_refl x.trace_id)
    ]
  ]

  last_kept :
      (k : String) (x : Trace X) (seen : Seen X) (given : List (Trace X))
      → str_eq x.trace_id k ≡ false
      → last_of k (given ++ given_next seen x) ≡ last_of k given
  last_kept k x seen given q = ground (arith, q, last_of-append_one k given x, append-nil given)

  observe-Delivered :
      (x : Trace X) (seen : Seen X) (given : List (Trace X))
      → SameIff same
      → Named seen
      → Delivered seen given
      → Delivered (observe x seen) (given ++ given_next seen x)
  observe-Delivered x seen given iff n d k y e c = elim (Bool-cases (str_eq x.trace_id k)) [
    | inl q ↦
        let i : x.trace_id ≡ k = (str_eq_iff x.trace_id k).0 q in
        let xy : x ≡ y = ground (arith, e, q) in
        let cx : x.is_incomplete ≡ false = ground (arith, xy, c) in
        rw (← i) (last_given x seen given iff n d cx ∙ ap some xy)
    | inr q ↦ rw (last_kept k x seen given q) (d k y (rw q at e) c)
  ]

  news-cons :
      (x : Trace X) (xs : List (Trace X)) (seen : Seen X) (given : List (Trace X))
      → given ++ news same seen (x ∷ xs)
        ≡ (given ++ given_next seen x) ++ news same (observe x seen) xs
  unfolding news
  news-cons x xs seen given = elim (Bool-cases (is_news same seen x && not x.is_incomplete)) [
    | inl q ↦ ground (arith, q, append_assoc given (x ∷ []) (news same (observe x seen) xs))
    | inr q ↦ ground (arith, q, append-nil given)
  ]

  news-Delivered :
      (xs : List (Trace X)) (seen : Seen X) (given : List (Trace X))
      → SameIff same
      → Named seen
      → Delivered seen given
      → Delivered (observe_all same xs seen) (given ++ news same seen xs)
  unfolding news observe_all
  news-Delivered [] seen given iff n d = rw (append-nil given) d
  news-Delivered (x ∷ xs) seen given iff n d =
      let ih =
        news-Delivered xs (observe x seen) (given ++ given_next seen x) iff (observe-Named x seen n)
          (observe-Delivered x seen given iff n d) in
      rw (news-cons x xs seen given) ih

  -- Each complete trace that the table holds after any such rounds, from an empty table, was put on
  -- the queue in just that version, and nothing with its id was put there behind it.
  pub polls-Delivered :
      (T : Type 0) (ps : List (Poll X)) (s : State X)
      → SameIff same
      → AllAnswered ps
      → s.traces ≡ []
      → (given : List (Trace X)) × ((polls same T ps s).0 ≡ map (item same T) given)
        × Delivered (versions (polls same T ps s).1.traces) given
  unfolding lookup
  polls-Delivered T ps s iff answered empty =
      let (n, v) = polls-news same T ps s iff answered in
      let xs : List (Trace X) = responses same T ps s in
      let seen : Seen X = versions s.traces in
      let unseen : (k : String) → seen k ≡ none = λ k. rw empty refl in
      (
        news same seen xs,
        n,
        rw v (
            news-Delivered xs seen [] iff (λ k x e. absurd (ground (arith, unseen k, e)))
              (λ k x e. absurd (ground (arith, unseen k, e)))),
      )
