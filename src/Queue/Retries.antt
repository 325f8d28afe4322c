-- ===== src/Queue/Retries.antt =====
-- The retry counter of relayer_base/src/queue.rs across redeliveries. The retry queue hands a
-- message back to the main queue with its headers (`setup_rabbitmq` declares it so).
use axelar_relayer.Base.{
  Bool, ℕ, zero, suc, ◌≡◌, true, false, Option, none, some, List, [], ◌∷◌, arith, calls,
}
use axelar_relayer.Base.Dict.{lookup}
use axelar_relayer.Queue.{
  Delivery, Codec, Answers, AmqpCall, basic_publish, retry_header, retry_count, republish,
}

module _ {Tx D V : Type 0} where
  -- The message that a republication puts on the retry queue, as it is delivered again.
  unfoldable pub next_delivery : List (AmqpCall Tx D V) → Option (Delivery D V)
  next_delivery [] = none
  next_delivery (basic_publish true d p ∷ _) = some (record { data' = d; properties = p })
  next_delivery (_ ∷ t) = next_delivery t

  module _ (c : Codec Tx D V) (a : Answers V) where
    -- A delivery after `n` rounds in which its task failed; `none` if a round left no message.
    unfoldable pub failing_rounds : ℕ → Delivery D V → Option (Delivery D V)
    failing_rounds zero d = some d
    failing_rounds (suc n) d = elim (next_delivery (calls (republish c a d false))) [
      | none ↦ none
      | some d' ↦ failing_rounds n d'
    ]

module _ {Tx D V : Type 0} (c : Codec Tx D V) (a : Answers V) where
  -- The message that comes back has the retry count 0, whatever the count was that `republish`
  -- wrote: `publish_item` replaces the headers by those of the tracing library, which do not hold
  -- the counter.
  pub retry_count_lost :
      (d d' : Delivery D V) (force : Bool)
      → lookup retry_header a.tracing_headers ≡ none
      → next_delivery (calls (republish c a d force)) ≡ some d'
      → retry_count c a d'.properties ≡ 0
  unfolding republish next_delivery
  retry_count_lost d d' force h e = ground arith
