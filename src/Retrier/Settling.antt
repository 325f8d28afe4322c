-- ===== src/Retrier/Settling.antt =====
-- How relayer_base/src/proof_retrier.rs settles deliveries, and when it ends.
use axelar_relayer.Base.{
  ◌≡◌, refl, ap, arith, Bool, true, false, if◌then◌else◌, List, [], ◌∷◌, ◌++◌, map, String, Result,
  Result-cases, inl, inr, ok, err, is_ok, done, fail, panic, Exec, attempt, ◌>>=◌, ◌>>◌,
  count_if-append, ◌≢◌, is_done, calls, outcome, count_if,
}
use axelar_relayer.Queue.{QueueItem, Delivery, Codec, Answers, AmqpCall, republish}
use axelar_relayer.Queue.Republish.{is_settle, republish_settles_once}
use axelar_relayer.Retrier.{
  RetrierCall, amqp, Env, cached, process_delivery, settle, on_delivery, run,
}

abbrev pub settles : {Tx D V : Type 0} → RetrierCall Tx D V → Bool
settles (amqp k) = is_settle k
settles _ = false

module _ {Tx D V : Type 0} where
  settles-amqp :
      (ks : List (AmqpCall Tx D V)) → count_if settles (map amqp ks) ≡ count_if is_settle ks
  settles-amqp [] = refl
  settles-amqp (k ∷ ks) = ground (arith, settles-amqp ks)

  module _ (env : Env) (c : Codec Tx D V) (a : Answers V) (d : Delivery D V) where
    abbrev Calls : Type 0
    Calls = RetrierCall Tx D V

    -- a part that settles nothing, before one that settles once
    behind_settles :
        (m : Exec Calls String (Unit {0}))
        (f : Result (Unit {0}) String → Exec Calls String (Unit {0}))
        → outcome m ≢ panic
        → count_if settles (calls m) ≡ 0
        → ((r : Result (Unit {0}) String) → count_if settles (calls (f r)) ≡ 1)
        → count_if settles (calls (attempt m >>= f)) ≡ 1
    behind_settles (done u, cs) f runs nothing once =
        ground (arith, nothing, once (ok u), count_if-append settles cs (calls (f (ok u))))
    behind_settles (fail e, cs) f runs nothing once =
        ground (arith, nothing, once (err e), count_if-append settles cs (calls (f (err e))))
    behind_settles (panic, cs) f runs nothing once = absurd (runs refl)

    process_settles_nothing :
        count_if settles (calls {A = Unit {0}} (process_delivery {Tx = Tx} env c.from_slice d)) ≡ 0
    unfolding process_delivery cached
    process_settles_nothing = ground arith

    process_runs : outcome {C = Calls} (process_delivery env c.from_slice d) ≢ panic
    unfolding process_delivery cached
    process_runs = ground arith

    module _ (item : QueueItem Tx) (read : c.from_slice d.data' ≡ ok item) where
      republished : (force : Bool) → count_if settles (map amqp (calls (republish c a d force))) ≡ 1
      republished force = ground (
        arith,
        settles-amqp (calls (republish c a d force)),
        republish_settles_once c a d force,
        read,
      )

      either_way_settles :
          (r : Result (Unit {0}) String) → count_if settles (calls (settle env c a d r)) ≡ 1
      unfolding settle
      either_way_settles (ok _) = ground arith
      either_way_settles (err e) = ground (arith, republished false)

  -- The retrier settles each delivery of a queue item exactly once, whatever Redis, the cache and the
  -- broker answer, and one of anything else not at all.
  pub retrier_settles :
      (env : Env) (c : Codec Tx D V) (a : Answers V) (d : Delivery D V)
      → count_if settles (calls (on_delivery env c a d))
        ≡ (if is_ok (c.from_slice d.data') then 1 else 0)
  unfolding on_delivery
  retrier_settles env c a d = elim (Result-cases (c.from_slice d.data')) [
    | inr (x, e) ↦ ground (arith, e)
    | inl (QueueItem.task t, e) ↦ ground (arith, e, republished env c a d (QueueItem.task t) e true)
    | inl (QueueItem.transaction t, e) ↦
        ground (arith, e, republished env c a d (QueueItem.transaction t) e true)
    | inl (QueueItem.retry_construct_proof i, e) ↦ ground (
      arith,
      e,
      behind_settles env c a d (process_delivery env c.from_slice d) (settle env c a d)
          (process_runs env c a d) (process_settles_nothing env c a d)
          (either_way_settles env c a d (QueueItem.retry_construct_proof i) e),
    )
  ]

  module _ (env : Env) (c : Codec Tx D V) (a : Answers V) where
    run-cons :
        (d : Delivery D V) (later : List (Delivery D V))
        → run env c a (d ∷ later) ≡ (on_delivery env c a d >> run env c a later)
    unfolding run
    run-cons d later = refl

    undecodable_first :
        (later : List (Delivery D V)) (d : Delivery D V)
        → is_ok (c.from_slice d.data') ≡ false
        → (calls (run env c a (d ∷ later)) ≡ calls (run env c a []))
          × (is_done (outcome (run env c a (d ∷ later))) ≡ false)
    unfolding run on_delivery
    undecodable_first later d bad = (ground (arith, bad), ground (arith, bad))

  -- the same calls, and no good end, from the second part on
  replaced :
      (m k k' : Exec (RetrierCall Tx D V) String (Unit {0}))
      → is_done (outcome (m >> k)) ≡ true
      → (is_done (outcome k) ≡ true → (calls k' ≡ calls k) × (is_done (outcome k') ≡ false))
      → (calls (m >> k') ≡ calls (m >> k)) × (is_done (outcome (m >> k')) ≡ false)
  replaced (done u, cs) k k' ends later = (ap (λ l. cs ++ l) (later ends).0, (later ends).1)
  replaced (fail e, cs) k k' ends later = absurd (ground (arith, ends))
  replaced (panic, cs) k k' ends later = absurd (ground (arith, ends))

  -- A delivery that is no queue item, when the deliveries before it ended well, ends the retrier: it
  -- and those behind it are not settled, and nothing else is done for them.
  pub undecodable_ends_run :
      (env : Env) (c : Codec Tx D V) (a : Answers V) (before later : List (Delivery D V))
      (d : Delivery D V)
      → is_ok (c.from_slice d.data') ≡ false
      → is_done (outcome (run env c a before)) ≡ true
      → (calls (run env c a (before ++ d ∷ later)) ≡ calls (run env c a before))
        × (is_done (outcome (run env c a (before ++ d ∷ later))) ≡ false)
  undecodable_ends_run env c a [] later d bad ends = undecodable_first env c a later d bad
  undecodable_ends_run env c a (b ∷ before) later d bad ends =
      rw (run-cons env c a b (before ++ d ∷ later), run-cons env c a b before)
        (replaced (on_delivery env c a b) (run env c a before) (run env c a (before ++ d ∷ later))
          (rw (run-cons env c a b before) at ends)
          (undecodable_ends_run env c a before later d bad))
