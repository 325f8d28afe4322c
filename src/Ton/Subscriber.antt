-- ===== src/Ton/Subscriber.antt =====
-- ton/src/subscriber.rs and ton/src/retry_subscriber.rs: the two pollers of TON traces, over the
-- table of the traces that were seen. The TON client enters by what it answers; a statement of the
-- database that fails changes nothing.
pub mod Seen
pub mod Delivered
pub mod Lost
use axelar_relayer.Base.{
  ℕ, ◌≡◌, Bool, true, false, not, ◌&&◌, if◌then◌else◌, is_some, String, Option, none, some, List,
  [], ◌∷◌, map, Result, ok, err, Outcome, panic,
}
use axelar_relayer.Base.Int.{ℤ, pos, negsuc, int_eq, int_leb}
use axelar_relayer.Subscriber.{ChainTransaction, TransactionPoller}
use axelar_relayer.Ton.Traces.{
  Trace, TonTrace, Table, fetch_retry, decrease_retry, upsert_and_return_if_changed,
}

-- The subscriber's field, the row of `subscriber_cursors` for its chain and context, and the table
-- of traces.
pub record State (X : Type 0) : Type 0 where
  pub latest_lt : ℤ
  pub height : Option ℤ
  pub traces : Table X

-- What a round is answered: the client, from a logical time on, and the database, to the height and
-- to the upsert of each trace.
pub record Answers (X : Type 0) : Type 0 where
  pub now : ℕ
  pub get_traces : Option ℤ → Result (List (Trace X)) String
  pub height_stored : Result (Unit {0}) String
  pub upserted : String → Result (Unit {0}) String

-- The same for a round of the retries, whose client is asked for traces by their ids.
pub record RetryAnswers (X : Type 0) : Type 0 where
  pub now : ℕ
  pub selected : Result (Unit {0}) String
  pub get_traces : List String → Result (List (Trace X)) String
  pub upserted : String → Result (Unit {0}) String
  pub decreased : String → Result (Unit {0}) String

-- `none` where there is no trace
abbrev pub max_lt : {X : Type 0} → List (Trace X) → Option ℤ
max_lt [] = none
max_lt (x ∷ xs) = elim (max_lt xs) [
  | none ↦ some x.end_lt
  | some m ↦ some (if int_leb x.end_lt m then m else x.end_lt)
]

-- one more trace in front of the unseen ones
abbrev pub pushed :
    {X : Type 0} → Bool → Trace X → Result (List (Trace X)) String → Result (List (Trace X)) String
pushed b x (ok xs) = ok (if b then x ∷ xs else xs)
pushed b x (err e) = err e

unfoldable pub new : {X : Type 0} → Result (Unit {0}) String → State X → Result (State X) String
new (ok _) s = ok (record s { latest_lt = elim s.height [ none ↦ negsuc 0 | some h ↦ h ] })
new (err e) s = err e

unfoldable pub store_latest_height : {X : Type 0} → Answers X → State X → State X
store_latest_height a s = elim a.height_stored [
  | ok _ ↦ record s { height = some s.latest_lt }
  | err _ ↦ s
]

abbrev pub start_lt : {X : Type 0} → State X → Option ℤ
start_lt s = if int_eq s.latest_lt (negsuc 0) then none else some s.latest_lt

-- the error of the store is only logged
unfoldable pub advance : {X : Type 0} → Answers X → List (Trace X) → State X → State X
unfolding store_latest_height
advance a xs s = elim (max_lt xs) [
  | none ↦ s
  | some m ↦ store_latest_height a (record s { latest_lt = m })
]

abbrev pub retry_limit : ℕ
retry_limit = 100

abbrev pub ids : {X : Type 0} → Table X → List String
ids [] = []
ids ((k, _) ∷ rows) = k ∷ ids rows

-- the traces of the rows that are selected, `[]` if there is none
abbrev pub asked_again : {X : Type 0} → RetryAnswers X → Table X → Result (List (Trace X)) String
asked_again a [] = ok []
asked_again a (r ∷ rows) = a.get_traces (ids (r ∷ rows))

unfoldable pub retried : {X : Type 0} → RetryAnswers X → Table X → Result (List (Trace X)) String
retried a t = elim a.selected [ err e ↦ err e | ok _ ↦ asked_again a (fetch_retry retry_limit t) ]

module _ {X : Type 0} (same : X → X → Bool) where
  -- The loop over the traces: an upsert that fails ends it.
  unfoldable pub collect :
      Answers X → List (Trace X) → Table X → Result (List (Trace X)) String × Table X
  collect a [] t = (ok [], t)
  collect a (x ∷ xs) t =
      let (changed, t') = upsert_and_return_if_changed same a.now x t in
      let (rest, t'') = collect a xs t' in
      elim (a.upserted x.trace_id) [
        | ok _ ↦ (pushed (is_some changed && not x.is_incomplete) x rest, t'')
        | err e ↦ (err e, t)
      ]

  unfoldable pub poll_account : Answers X → State X → Result (List (Trace X)) String × State X
  unfolding advance collect
  poll_account a s = elim (a.get_traces (start_lt s)) [
    | err e ↦ (err e, s)
    | ok xs ↦
        let s' = advance a xs s in
        let (unseen, t) = collect a xs s'.traces in (unseen, record s' { traces = t })
  ]

  -- The loop over the traces that were asked for again.
  unfoldable pub collect_retry :
      RetryAnswers X → List (Trace X) → Table X → Result (List (Trace X)) String × Table X
  collect_retry a [] t = (ok [], t)
  collect_retry a (x ∷ xs) t =
      let left = collect_retry a xs (decrease_retry x.trace_id t) in
      let (changed, t') = upsert_and_return_if_changed same a.now x t in
      let (rest, t'') = collect_retry a xs t' in
      if x.is_incomplete
      then elim (a.decreased x.trace_id) [ ok _ ↦ left | err e ↦ (err e, t) ]
      else elim (a.upserted x.trace_id) [
        | ok _ ↦ (pushed (is_some changed && not x.is_incomplete) x rest, t'')
        | err e ↦ (err e, t)
      ]

  unfoldable pub poll_retries : RetryAnswers X → Table X → Result (List (Trace X)) String × Table X
  unfolding collect_retry retried
  poll_retries a t = elim (retried a t) [ err e ↦ (err e, t) | ok xs ↦ collect_retry a xs t ]

  -- The two as pollers. Neither can be asked for one transaction.
  abbrev pub ton_subscriber :
      {T : Type 0}
      → TransactionPoller (State X) (Answers X) (Trace X) (ChainTransaction T (Trace X))
  ton_subscriber = record {
    make_queue_item = ChainTransaction.ton;
    poll_account = poll_account;
    poll_tx = λ _ _. panic;
  }

  abbrev pub retry_subscriber :
      {T : Type 0}
      → TransactionPoller (Table X) (RetryAnswers X) (Trace X) (ChainTransaction T (Trace X))
  retry_subscriber = record {
    make_queue_item = ChainTransaction.ton;
    poll_account = poll_retries;
    poll_tx = λ _ _. panic;
  }
