-- ===== src/Ingestor/Delivery.antt =====
-- The ingestor's consumer (relayer_base/src/ingestor.rs) and what it does with each delivery.
use axelar_relayer.Base.{
  ◌≡◌, refl, Bool, true, false, not, ◌||◌, List, [], ◌∷◌, String, str_eq, if◌then◌else◌, arith,
  Result, Result-cases, inl, inr, ok, err, is_ok, Exec, calls, outcome, Outcome, done, fail, panic,
  count_if, any_of, is_done,
}
use axelar_relayer.Gmp.Event.{Event, PostEventResult}
use axelar_relayer.Gmp.Errors.{IngestorError, GmpApiError}
use axelar_relayer.Queue.{Delivery, Codec, Answers, AmqpCall}
use axelar_relayer.Queue.Consumer.{Verdict, settle}
use axelar_relayer.Ingestor.{
  IngestorCall, post_events, Handlers, is_retriable, check_results, consume_transaction,
  process_delivery,
}

unfoldable pub verdict : Outcome (Unit {0}) IngestorError → Verdict
verdict (done _) = Verdict.handled
verdict (fail IngestorError.irrelevant_task) = Verdict.irrelevant
verdict (fail _) = Verdict.failed
verdict panic = Verdict.panicked

module _ {Tx D V : Type 0} (h : Handlers Tx) (c : Codec Tx D V) (a : Answers V) where
  -- the worker's calls, and then those that settle the delivery
  unfoldable pub on_delivery :
      Delivery D V → List (IngestorCall Tx) × Exec (AmqpCall Tx D V) String (Unit {0})
  unfolding process_delivery verdict
  on_delivery d =
      let worked = process_delivery h c.from_slice d.data' in
      (calls worked, settle c a d (verdict (outcome worked)))

-- The events of a batch are accepted, or at least not to be posted again.
abbrev pub is_settled_result : PostEventResult → Bool
is_settled_result r = str_eq r.status "ACCEPTED" || not (is_retriable r)

check_results_iff :
    (rs : List PostEventResult)
    → is_ok (check_results rs) ≡ not (any_of (λ r. not (is_settled_result r)) rs)
unfolding check_results
check_results_iff [] = refl
check_results_iff (r ∷ rs) = ground (arith, check_results_iff rs)

abbrev pub all_settled : Result (List PostEventResult) GmpApiError → Bool
all_settled (ok rs) = not (any_of (λ r. not (is_settled_result r)) rs)
all_settled (err _) = false

abbrev pub is_empty {ℓ} : {A : Type ℓ} → List A → Bool
is_empty [] = true
is_empty (_ ∷ _) = false

abbrev pub is_post : {Tx : Type 0} → IngestorCall Tx → Bool
is_post (post_events _) = true
is_post _ = false

module _ {Tx : Type 0} (h : Handlers Tx) where
  -- Consuming a transaction for which the handler gives events posts them once, and posts nothing
  -- where the list is empty. It succeeds exactly when the list is empty or the post succeeds and
  -- each event is accepted or not retriable.
  pub consume_transaction_posts :
      (tx : Tx) (events : List Event)
      → h.transaction tx ≡ done events
      → (count_if is_post (calls (consume_transaction h tx)) ≡ (if is_empty events then 0 else 1))
        × (is_done (outcome (consume_transaction h tx))
            ≡ (is_empty events || all_settled (h.post events)))
  unfolding consume_transaction
  consume_transaction_posts tx [] e = (ground arith, ground arith)
  consume_transaction_posts tx (x ∷ xs) e = elim (Result-cases (h.post (x ∷ xs))) [
    | inl (rs, q) ↦ (ground arith, ground (arith, check_results_iff rs))
    | inr (_, q) ↦ (ground arith, ground arith)
  ]
