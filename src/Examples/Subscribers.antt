-- ===== src/Examples/Subscribers.antt =====
-- The theorems on the pollers, on two traces and on transactions that are the indices of their
-- ledgers.
use axelar_relayer.Base.{
  ℕ, ◌≡◌, refl, arith, ==_iff, ◌==◌, true, false, String, none, some, List, [], ◌∷◌, map, ok, err,
  count_if, inl, inr, Bool-cases, str_eq, if◌then◌else◌, leb,
}
use axelar_relayer.Base.Int.{pos, negsuc}
use axelar_relayer.Ton.Traces.{Trace}
use axelar_relayer.Ton.Subscriber.{State, Answers}
use axelar_relayer.Ton.Subscriber.Seen.{SameIff, versions, news, observe_all}
use axelar_relayer.Ton.Subscriber.Delivered.{
  Poll, by_account, item, polls, responses, polls-news, Delivered, polls-Delivered,
}
use axelar_relayer.Ton.Subscriber.Lost.{gives, lost_on_error}
use axelar_relayer.Xrpl.Subscriber
use axelar_relayer.Xrpl.Subscriber.Order.{Step, polled, Rises, IsLawful, polled-Rises}

same-SameIff : SameIff ◌==◌
same-SameIff = ==_iff

abbrev trace : String → ℕ → Trace ℕ
trace id n = record {
  is_incomplete = false;
  start_lt = pos 1;
  end_lt = pos n;
  trace_id = id;
  transactions = n;
}

abbrev empty : State ℕ
empty = record { latest_lt = negsuc 0; height = none; traces = [] }

abbrev answers : List (Trace ℕ) → Answers ℕ
answers xs = record {
  now = 5;
  get_traces = λ lt. ok xs;
  height_stored = ok tt;
  upserted = λ id. ok tt;
}

-- the second round sees the trace "A" again, unchanged
abbrev rounds : List (Poll ℕ)
rounds =
    by_account (answers (trace "A" 3 ∷ trace "B" 4 ∷ []))
    ∷ by_account (answers (trace "A" 3 ∷ []))
    ∷ []

polls-news_example :
    ((polls ◌==◌ ℕ rounds empty).0
      ≡ map (item ◌==◌ ℕ) (news ◌==◌ (versions []) (responses ◌==◌ ℕ rounds empty)))
    × (versions (polls ◌==◌ ℕ rounds empty).1.traces
        ≡ observe_all ◌==◌ (responses ◌==◌ ℕ rounds empty) (versions []))
polls-news_example = polls-news ◌==◌ ℕ rounds empty same-SameIff ((λ k. refl), ((λ k. refl), tt))

polls-Delivered_example :
    (given : List (Trace ℕ)) × ((polls ◌==◌ ℕ rounds empty).0 ≡ map (item ◌==◌ ℕ) given)
    × Delivered (versions (polls ◌==◌ ℕ rounds empty).1.traces) given
polls-Delivered_example =
    polls-Delivered ◌==◌ ℕ rounds empty same-SameIff ((λ k. refl), ((λ k. refl), tt)) refl

-- the upsert of "B" fails
abbrev failing : Answers ℕ
failing = record {
  now = 5;
  get_traces = λ lt. ok (trace "A" 3 ∷ trace "B" 4 ∷ []);
  height_stored = ok tt;
  upserted = λ id. elim (str_eq id "B") [ true ↦ err "closed" | false ↦ ok tt ];
}

lost_on_error_example :
    count_if
      (gives "A")
      (polls ◌==◌ ℕ (by_account failing ∷ by_account (answers (trace "A" 3 ∷ [])) ∷ []) empty).0
    ≡ 0
unfolding responses
lost_on_error_example =
    lost_on_error ◌==◌ ℕ failing empty [] [] (trace "A" 3) (trace "B" 4) [] "closed"
      (by_account (answers (trace "A" 3 ∷ [])) ∷ []) same-SameIff refl (refl, tt) refl tt
      ((λ k. refl), tt) ((λ h. refl), tt)

-- The ledger has two transactions, of its ledgers 7 and 8, and answers only while there is none.
abbrev ledger : Subscriber.Answers ℕ
ledger = record {
  get_transactions = λ low. if leb low 7 then ok (7 ∷ 8 ∷ []) else ok [];
  height_stored = ok tt;
  called = λ h. err "none";
}

ledger-IsLawful : IsLawful some (Step.polls ledger)
ledger-IsLawful = (
  λ low txs h. elim (Bool-cases (leb low 7)) [
    | inl q ↦
        let t : 7 ∷ 8 ∷ [] ≡ txs = ground (arith, q, h) in
        rw (← t) (ground (arith, q), omega arith, (ground (arith, q), omega arith, tt))
    | inr q ↦ let t : [] ≡ txs = ground (arith, q, h) in rw (← t) tt
  ],
  refl,
)

polled-Rises_example : Rises some (
    polled some
      (Step.polls ledger ∷ Step.restarts (ok tt) ∷ Step.polls ledger ∷ [])
      (record { latest_ledger = negsuc 0; height = none }))
polled-Rises_example =
    polled-Rises some (Step.polls ledger ∷ Step.restarts (ok tt) ∷ Step.polls ledger ∷ [])
      (record { latest_ledger = negsuc 0; height = none })
      (ledger-IsLawful, (tt, (ledger-IsLawful, tt))) (inl (refl, refl))
