-- ===== src/Queue/Republish.antt =====
-- How `republish` of relayer_base/src/queue.rs settles a delivery.
use axelar_relayer.Base.{
  Result-cases, inl, inr, [], ◌∷◌, ◌&&◌, ◌<◌, ◌≡◌, ◌↔◌, Bool, true, false, some, arith,
  if◌then◌else◌, ok, count_if, any_of, is_ok, calls,
}
use axelar_relayer.Queue.{
  QueueItem, Properties, publish_item, Delivery, Codec, Answers, AmqpCall, send, basic_publish, ack,
  nack, max_retries, retry_count, republish,
}

-- A call that settles the delivery with the broker.
abbrev pub is_settle : {Tx D V : Type 0} → AmqpCall Tx D V → Bool
is_settle ack = true
is_settle (nack _) = true
is_settle _ = false

abbrev pub is_ack : {Tx D V : Type 0} → AmqpCall Tx D V → Bool
is_ack ack = true
is_ack _ = false

abbrev pub is_dead_letter : {Tx D V : Type 0} → AmqpCall Tx D V → Bool
is_dead_letter (nack false) = true
is_dead_letter _ = false

abbrev pub is_send : {Tx D V : Type 0} → AmqpCall Tx D V → Bool
is_send (send _) = true
is_send _ = false

module _ {Tx D V : Type 0} (c : Codec Tx D V) (a : Answers V) (d : Delivery D V) where
  -- A delivery whose data is a queue item is settled by exactly one `ack` or `nack`, whatever the
  -- broker answers and whether or not it is forced; one whose data is no item is not settled.
  pub republish_settles_once :
      (force : Bool)
      → count_if is_settle (calls (republish c a d force))
        ≡ (if is_ok (c.from_slice d.data') then 1 else 0)
  unfolding republish
  republish_settles_once force = ground arith

  -- A delivery that is not forced goes to the dead letters exactly when its data is a queue item
  -- and its retry count is past the limit.
  pub dead_letter_iff :
      (any_of is_dead_letter (calls (republish c a d false)) ≡ true)
      ↔ ((is_ok (c.from_slice d.data') ≡ true) × (max_retries < retry_count c a d.properties))
  unfolding republish
  dead_letter_iff = (λ t. (ground arith, ground arith), λ p. ground arith)

  -- If a delivery that is not forced is acknowledged, the broker has confirmed a copy before: the
  -- two calls are the publication of the encoded item on the retry queue, and the acknowledgement.
  pub ack_confirmed :
      any_of is_ack (calls (republish c a d false)) ≡ true
      → (item : QueueItem Tx) × (data' : D) × (p : Properties V) × (c.from_slice d.data' ≡ ok item)
        × (c.to_vec item ≡ ok data')
        × (calls (republish c a d false) ≡ basic_publish true data' p ∷ ack ∷ [])
        × (a.confirm ≡ ok true)
  unfolding republish publish_item
  ack_confirmed t = elim (Result-cases (c.from_slice d.data')) [
    | inr (e, q) ↦ absurd (ground arith)
    | inl (item, q) ↦ elim (Result-cases (c.to_vec item)) [
      | inr (e, r) ↦ absurd (ground arith)
      | inl (data', r) ↦ (
        item,
        data',
        record d.properties { headers = some a.tracing_headers },
        q,
        r,
        ground arith,
        ground arith,
      )
    ]
  ]

  -- A forced delivery never goes to the dead letters; if its data is a queue item, the item is sent
  -- again exactly when the broker took the acknowledgement.
  pub forced_resent :
      (any_of is_dead_letter (calls (republish c a d true)) ≡ false)
      × (any_of is_send (calls (republish c a d true))
          ≡ (is_ok (c.from_slice d.data') && is_ok a.ack))
  unfolding republish
  forced_resent = (ground arith, ground arith)
