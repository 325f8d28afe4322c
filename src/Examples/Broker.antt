-- ===== src/Examples/Broker.antt =====
-- The theorems on the queue, on concrete deliveries and runs of the buffer.
use mathlib.Core.List.{Perm}
use axelar_relayer.Base.{
  ℕ, ◌<◌, ◌≤◌, ◌≡◌, ◌↔◌, refl, arith, Bool, true, false, some, none, [], ◌∷◌, ◌++◌, ok, is_ok,
  calls, count_if, any_of, String,
}
use axelar_relayer.Base.Dict.{lookup, insert}
use axelar_relayer.Queue.{
  QueueItem, Properties, basic_publish, Delivery, ack, retry_count, republish, republish_item,
  republish_retry, publish_item, max_retries,
}
use axelar_relayer.Queue.Republish.{
  is_settle, is_dead_letter, republish_settles_once, dead_letter_iff, ack_confirmed,
}
use axelar_relayer.Queue.Buffer.{
  State, waiting, rebuffering, checking, stopped, state, produce, receive, confirm, stop, shut_down,
  Reach, here, next, init,
}
use axelar_relayer.Queue.Buffer.Conservation.{in_flight, conservation}
use axelar_relayer.Queue.Buffer.Overflow.{stuck_reachable}
use axelar_relayer.Examples.Fixtures.{Item, codec, broker, delivery}

abbrev retried : Delivery Item ℕ
retried = delivery (some (("traceparent", 7) ∷ []))

republish_settles_once_example :
    count_if is_settle (calls (republish codec broker (delivery none) true)) ≡ 1
republish_settles_once_example = republish_settles_once codec broker (delivery none) true

abbrev tired : Delivery Item ℕ
tired = delivery (some (("x-retry-count", 4) ∷ []))

dead_letter_iff_example :
    (any_of is_dead_letter (calls (republish codec broker tired false)) ≡ true) ↔ (
      (is_ok (codec.from_slice tired.data') ≡ true)
      × (max_retries < retry_count codec broker tired.properties))
dead_letter_iff_example = dead_letter_iff codec broker tired

ack_confirmed_example :
    (i : QueueItem String) × (data' : Item) × (p : Properties ℕ) × (codec.from_slice
        (delivery none).data'
      ≡ ok i)
    × (codec.to_vec i ≡ ok data')
    × (calls (republish codec broker (delivery none) false) ≡ basic_publish true data' p ∷ ack ∷ [])
    × (broker.confirm ≡ ok true)
unfolding lookup insert republish republish_item republish_retry publish_item retry_count
ack_confirmed_example = ack_confirmed codec broker (delivery none) refl

abbrev one_sent : State String
one_sent = state waiting ("a" ∷ []) [] ("a" ∷ []) false false

one_sent_reached : Reach 2 init one_sent
one_sent_reached = next here (produce "a" waiting [] [] [] false false (λ e. cc) (omega arith))

conservation_example :
    Perm ("a" ∷ []) ([] ++ (in_flight {I = String} waiting ++ ("a" ∷ []))) × (1 ≤ 2)
conservation_example = conservation one_sent_reached

abbrev all_done : State String
all_done = state stopped [] ("a" ∷ []) ("a" ∷ []) true false

all_done_reached : Reach 2 init all_done
all_done_reached =
    next
      (next
        (next (next one_sent_reached (receive "a" [] [] ("a" ∷ []) false false))
          (confirm "a" [] [] ("a" ∷ []) false false))
        (shut_down checking [] ("a" ∷ []) ("a" ∷ []) false false))
      (stop ("a" ∷ []) ("a" ∷ []) false)

abbrev stuck : Bool → State String
stuck d = state (rebuffering "a") ("b" ∷ []) [] ("a" ∷ "b" ∷ []) d false

stuck_reachable_example :
    Reach 1 init (stuck false)
    × ((stuck true).phase ≡ rebuffering "a")
    × ((stuck true).buffer ≡ "b" ∷ [])
    × ((stuck true).published ≡ [])
stuck_reachable_example =
    stuck_reachable 1 "a" ("b" ∷ []) (stuck true) (omega arith) refl
      (next here (shut_down (rebuffering "a") ("b" ∷ []) [] ("a" ∷ "b" ∷ []) false false))
