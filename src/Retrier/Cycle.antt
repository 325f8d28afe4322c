-- ===== src/Retrier/Cycle.antt =====
-- A proof that fails every time, between relayer_base/src/includer_worker.rs and
-- relayer_base/src/proof_retrier.rs: the first counts the failures in Redis and hands the message
-- over, and the second reads the count under the same key. The counter expires after twelve hours;
-- the cycles here are within that time.
use mathlib.Core.List.{append-nil}
use axelar_relayer.Base.{
  ℕ, zero, suc, ◌+◌, ◌-◌, ◌≤◌, ◌<◌, ◌≡◌, refl, arith, Bool, true, false, leb, ltb, if◌then◌else◌,
  none, some, ◌==◌, length, ◌++◌, Option, err, ◌∙◌, List, [], ◌∷◌, any_of, String, str_eq,
  str_eq_refl, concat, ok, is_ok, calls,
}
use axelar_relayer.Base.Int.{pos}
use axelar_relayer.Base.Texts.{first_part, second_part, parse_i64}
use axelar_relayer.Gmp.Task.{GatewayTxTask}
use axelar_relayer.Queue.{QueueItem, Delivery, Codec, Answers, nack}
use axelar_relayer.Includer.{IncluderCall, redis_incr, publish_retry, BroadcastResult}
use axelar_relayer.Includer
use axelar_relayer.Includer.Gateway.{consume_gateway_tx}
use axelar_relayer.Retrier.{
  Env, RetrierCall, redis_get, amqp, publish_task, PayloadCacheValue, is_over, counter, on_delivery,
}
use axelar_relayer.Retrier.Limit.{limit_dead_letters, asked_again}

-- What the calls add to the counter of the key.
abbrev pub added : {W : Type 0} → String → List (IncluderCall W) → ℕ
added key [] = 0
added key (redis_incr k n ∷ cs) = (if str_eq k key then n else 0) + added key cs
added key (_ ∷ cs) = added key cs

-- The same, when Redis takes the increments.
abbrev pub counted : {W T : Type 0} → Includer.Env W T → String → List (IncluderCall W) → ℕ
counted env key cs = if is_ok (env.incr key) then added key cs else 0

-- The items that the calls put on the retrier's queue.
abbrev pub handed : {Tx W : Type 0} → List (IncluderCall W) → List (QueueItem Tx)
handed [] = []
handed (publish_retry i ∷ cs) = QueueItem.retry_construct_proof i ∷ handed cs
handed (_ ∷ cs) = handed cs

abbrev pub asks : {Tx D V : Type 0} → RetrierCall Tx D V → Bool
asks (publish_task _) = true
asks _ = false

abbrev pub dead_letters : {Tx D V : Type 0} → RetrierCall Tx D V → Bool
dead_letters (amqp (nack false)) = true
dead_letters _ = false

-- The first delivery of an item.
abbrev pub first_delivery : {D V : Type 0} → Answers V → D → Delivery D V
first_delivery a data' = record {
  data' = data';
  properties = record { headers = some a.tracing_headers; delivery_mode = some 2 };
}

-- Redis with a counter under one key; `show` is how it prints numbers, and a key that was never
-- counted is not there.
abbrev pub counting : (ℕ → String) → String → ℕ → Env → Env
counting show key n env = record env {
  failures = λ k. ok (if str_eq k key then (if n == 0 then none else some (show n)) else none);
}

-- How often the proof was asked for, and whether the message has gone to the dead letters.
abbrev pub one_more : ℕ × Bool → ℕ × Bool
one_more (n, dead) = (suc n, dead)

module _ {Tx D V : Type 0} (retrier : Env) (show : ℕ → String) where
  -- What the retrier does with the items, when the counter it reads is `n`.
  unfoldable pub retried_calls :
      Codec Tx D V → Answers V → String → ℕ → List (QueueItem Tx) → List (RetrierCall Tx D V)
  retried_calls c a key n [] = []
  retried_calls c a key n (item ∷ items) =
      let rest = retried_calls c a key n items in
      elim (c.to_vec item) [
        | err _ ↦ rest
        | ok data' ↦
            calls (on_delivery (counting show key n retrier) c a (first_delivery a data')) ++ rest
      ]

  one-delivered :
      (c : Codec Tx D V) (a : Answers V) (key : String) (n : ℕ) (item : QueueItem Tx) (data' : D)
      → c.to_vec item ≡ ok data'
      → retried_calls c a key n (item ∷ [])
        ≡ calls (on_delivery (counting show key n retrier) c a (first_delivery a data'))
  unfolding retried_calls
  one-delivered c a key n item data' e =
      let cs = calls (on_delivery (counting show key n retrier) c a (first_delivery a data')) in
      let one : retried_calls c a key n (item ∷ []) ≡ cs ++ [] = ground (arith, e) in
      one ∙ append-nil cs

module _ {W T Tx D V : Type 0} (includer : Includer.Env W T) (retrier : Env)
    (show : ℕ → String) where
  -- The failures of a proof one after the other, with `n` of them counted before. The includer puts
  -- the message on the queue before it counts the failure: where the flag is set, the retrier reads
  -- the counter before that. When it does not ask, there is no proof that could fail.
  unfoldable pub cycle :
      GatewayTxTask → Codec Tx D V → Answers V → String → List Bool → ℕ → ℕ × Bool
  unfolding retried_calls
  cycle t c a key [] n = (0, false)
  cycle t c a key (early ∷ later) n =
      let worked = calls (consume_gateway_tx includer t) in
      let n' = n + counted includer key worked in
      let done' = retried_calls retrier show c a key (if early then n else n') (handed worked) in
      let rest = cycle t c a key later n' in
      if any_of asks done' then one_more rest else (0, any_of dead_letters done')

-- Whether the failure at this index is counted after the retrier has read.
abbrev pub early_at : ℕ → List Bool → Bool
early_at k [] = false
early_at zero (early ∷ _) = early
early_at (suc k) (_ ∷ later) = early_at k later

-- How often a proof that fails is asked for: as often as it fails, and `limit` times at most.
abbrev pub limited : ℕ → List Bool → ℕ × Bool
limited limit failures =
    (if leb (length failures) limit then length failures else limit, ltb limit (length failures))

module _ {W T : Type 0} (includer : Includer.Env W T) (t : GatewayTxTask) where
  failure_counted :
      (Tx : Type 0) (blob i m s : String) (r : BroadcastResult T)
      → includer.decode t.task.execute_data ≡ ok blob
      → includer.prover_message blob ≡ ok r
      → r.message_id ≡ some m
      → r.source_chain ≡ some s
      → includer.cross_chain_id s m ≡ ok i
      → is_ok r.status ≡ false
      → (added (concat "failed_proof:" i) (calls (consume_gateway_tx includer t)) ≡ 1)
        × (handed {Tx = Tx} (calls (consume_gateway_tx includer t))
            ≡ QueueItem.retry_construct_proof i ∷ [])
  unfolding consume_gateway_tx
  failure_counted Tx blob i m s r p q a b e f =
      (ground (arith, str_eq_refl (concat "failed_proof:" i)), ground arith)

module _ {W T Tx D V : Type 0} (includer : Includer.Env W T) (retrier : Env) (show : ℕ → String)
    (t : GatewayTxTask) (c : Codec Tx D V) (a : Answers V) (blob i m s part text : String)
    (r : BroadcastResult T) (found : PayloadCacheValue) (data' : D) where
  abbrev key : String
  key = concat "failed_proof:" i

  abbrev retry_item : QueueItem Tx
  retry_item = QueueItem.retry_construct_proof i

  module _ (shown : (n : ℕ) → n ≤ 11 → parse_i64 (show n) ≡ some (pos n))
      (written : c.to_vec retry_item ≡ ok data') (item : c.from_slice data' ≡ ok retry_item)
      (second : second_part i ≡ some part)
      (parsed : retrier.cross_chain_id (first_part i) part ≡ ok i)
      (payload : retrier.get_payload i ≡ ok (some text))
      (decoded : retrier.from_str text ≡ ok found) where
    past_limit :
        (n : ℕ)
        → 10 ≤ n
        → n ≤ 11
        → retried_calls retrier show c a key n (retry_item ∷ [])
          ≡ redis_get key ∷ amqp (nack false) ∷ []
    past_limit n many few =
        let value : Option String = if n == 0 then none else some (show n) in
        let over : is_over (counter value) ≡ true = ground (arith, shown n few) in
        rw
          (
            one-delivered retrier show c a key n retry_item data' written,
            limit_dead_letters (counting show key n retrier) c a (first_delivery a data') i value
                item (rw (str_eq_refl key) refl) over,
          )
          refl

    below_limit :
        (n : ℕ)
        → n < 10
        → any_of asks (retried_calls retrier show c a key n (retry_item ∷ [])) ≡ true
    below_limit n few =
        let value : Option String = if n == 0 then none else some (show n) in
        let under : is_over (counter value) ≡ false = ground (arith, shown n (omega arith)) in
        rw
          (
            one-delivered retrier show c a key n retry_item data' written,
            asked_again (counting show key n retrier) c a (first_delivery a data') i part i text
                value found item (rw (str_eq_refl key) refl) under second parsed payload decoded,
          )
          refl

    module _ (failed : counted includer key (calls (consume_gateway_tx includer t)) ≡ 1)
        (published : handed (calls (consume_gateway_tx includer t)) ≡ retry_item ∷ []) where
      abbrev run : List Bool → ℕ → ℕ × Bool
      run = cycle includer retrier show t c a key

      cycle-asks :
          (early : Bool) (later : List Bool) (n : ℕ)
          → (if early then n else n + 1) < 10
          → run (early ∷ later) n ≡ one_more (run later (n + 1))
      unfolding cycle
      cycle-asks early later n few =
          rw (failed, published, below_limit (if early then n else n + 1) few) refl

      cycle-stops :
          (early : Bool) (later : List Bool) (n : ℕ)
          → 10 ≤ (if early then n else n + 1)
          → (if early then n else n + 1) ≤ 11
          → run (early ∷ later) n ≡ (0, true)
      unfolding cycle
      cycle-stops early later n many few =
          rw (failed, published, past_limit (if early then n else n + 1) many few) refl

      cycle-nil : (n : ℕ) → run [] n ≡ (0, false)
      unfolding cycle
      cycle-nil n = refl

      cycle-ten : (later : List Bool) → run later 10 ≡ (0, ltb 0 (length later))
      cycle-ten [] = cycle-nil 10
      cycle-ten (early ∷ later) =
          cycle-stops early later 10 (ground arith) (ground arith) ∙ ground arith

      -- `k` more failures are certainly asked for
      cycle_lem :
          (k : ℕ) (failures : List Bool)
          → k ≤ 9
          → run failures (9 - k) ≡ limited (if early_at k failures then suc k else k) failures
      cycle_lem k [] few = cycle-nil (9 - k) ∙ ground arith
      cycle_lem zero (false ∷ later) few =
          cycle-stops false later 9 (omega arith) (omega arith) ∙ ground arith
      cycle_lem zero (true ∷ later) few =
          cycle-asks true later 9 (omega arith) ∙ rw (cycle-ten later) (ground arith)
      cycle_lem (suc k) (early ∷ later) few =
          let one : (9 - suc k) + 1 ≡ 9 - k = omega (arith, few) in
          cycle-asks early later (9 - suc k) (ground arith)
          ∙ rw (one, cycle_lem k later (omega (arith, few))) (ground arith)

    -- A proof whose transaction fails every time is asked for again as often as it fails, but nine
    -- times at most, or ten if the retrier reads the counter at the tenth failure before the
    -- includer has counted it; with one failure more the message goes to the dead letters. This is
    -- for a counter that is not there at first and does not expire, when the broker delivers each
    -- message, the message, its id and its payload are read back as they were written, the payload
    -- stays cached, and Redis prints the numbers up to eleven so that they are read back.
    pub asked_nine_times :
        includer.decode t.task.execute_data ≡ ok blob
        → includer.prover_message blob ≡ ok r
        → r.message_id ≡ some m
        → r.source_chain ≡ some s
        → includer.cross_chain_id s m ≡ ok i
        → is_ok r.status ≡ false
        → includer.incr key ≡ ok tt
        → (failures : List Bool)
        → cycle includer retrier show t c a key failures 0
          ≡ limited (if early_at 9 failures then 10 else 9) failures
    asked_nine_times p q e f g bad taken failures =
        let (one, published) = failure_counted includer t Tx blob i m s r p q e f g bad in
        cycle_lem (ground (arith, one, taken)) published 9 failures (omega arith)
