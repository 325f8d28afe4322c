-- ===== src/Queue.antt =====
-- relayer_base/src/queue.rs: the work queue over RabbitMQ. The client library (lapin) and the JSON
-- library enter by `Codec` and `Answers`; what a function does is its outcome and its calls.
pub mod Republish
pub mod Retries
pub mod Buffer
pub mod Consumer
use axelar_relayer.Base.{
  ℕ, ◌+◌, ◌%◌, ◌^◌, String, ◌≡◌, Bool, true, false, Option, none, some, List, [], ltb,
  if◌then◌else◌, unwrap_or, concat, Result, ok, err, map_err, Exec, ◌>>=◌, ◌>>◌, pure, raise, lift,
  tell, call, ask, attempt, ◌<◌,
}
use mathlib.Core.Option.{bind}
use axelar_relayer.Base.Dict.{lookup, insert}
use axelar_relayer.Gmp.Task.{Task}

abbrev pub max_retries : ℕ
max_retries = 3

abbrev pub buffer_size : ℕ
buffer_size = 1000

abbrev pub retry_header : String
retry_header = "x-retry-count"

-- `Tx` is the type of chain transactions.
pub data QueueItem (Tx : Type 0) : Type 0 where
  task : Task → QueueItem Tx
  transaction : Tx → QueueItem Tx
  retry_construct_proof : String → QueueItem Tx

-- The parts of lapin's `BasicProperties` that the relayer sets; `V` is its `AMQPValue`.
pub record Properties (V : Type 0) : Type 0 where
  pub headers : Option (List (String × V))
  pub delivery_mode : Option ℕ

pub record Delivery (D V : Type 0) : Type 0 where
  pub data' : D
  pub properties : Properties V

-- The JSON library on queue items, and lapin on the short integers that headers hold.
pub record Codec (Tx D V : Type 0) : Type 0 where
  pub from_slice : D → Result (QueueItem Tx) String
  pub to_vec : QueueItem Tx → Result D String
  pub short_uint : ℕ → V
  pub as_short_uint : V → Option ℕ

-- What lapin documents: a value written is read again. And the JSON library: so is an item.
pub record Roundtrips {Tx D V : Type 0} (c : Codec Tx D V) : Type 0 where
  pub short_uint_read : (n : ℕ) → n < 2 ^ 16 → c.as_short_uint (c.short_uint n) ≡ some n
  pub to_vec_read : (i : QueueItem Tx) (d : D) → c.to_vec i ≡ ok d → c.from_slice d ≡ ok i

pub data AmqpCall (Tx D V : Type 0) : Type 0 where
  -- `send` puts an item into the publisher's buffer
  send : QueueItem Tx → AmqpCall Tx D V
  -- to the retry queue, or to the main queue
  basic_publish : Bool → D → Properties V → AmqpCall Tx D V
  ack : AmqpCall Tx D V
  -- with `requeue`, or to the dead letters
  nack : Bool → AmqpCall Tx D V

-- What the broker answers to the calls; a publication is confirmed by `ok true`.
pub record Answers (V : Type 0) : Type 0 where
  pub ack : Result (Unit {0}) String
  pub nack : Result (Unit {0}) String
  pub confirm : Result Bool String
  pub tracing_headers : List (String × V)

module _ {Tx D V : Type 0} (c : Codec Tx D V) (a : Answers V) where
  unfoldable pub publish : QueueItem Tx → Exec (AmqpCall Tx D V) String (Unit {0})
  publish item = tell (send item)

  unfoldable pub publish_item :
      QueueItem Tx → Bool → Option (Properties V) → Exec (AmqpCall Tx D V) String (Unit {0})
  publish_item item retry_queue properties = do
    msg ← lift (c.to_vec item)
    let sent = unwrap_or properties (record { headers = none; delivery_mode = some 2 })
    let sent = record sent { headers = some a.tracing_headers }
    confirm ← call (basic_publish retry_queue msg sent) a.confirm
    if confirm then pure tt else raise "Failed to publish message"

  -- `unwrap_or(0)` of the header
  unfoldable pub retry_count : Properties V → ℕ
  unfolding bind
  retry_count p = unwrap_or (bind (bind p.headers (lookup retry_header)) c.as_short_uint) 0

  -- the `else` branch of `republish`: back through the retry queue
  unfoldable pub republish_retry :
      QueueItem Tx → Properties V → ℕ → Exec (AmqpCall Tx D V) String (Unit {0})
  unfolding publish_item
  republish_retry item properties count = do
    let old_headers = unwrap_or properties.headers []
    let new_headers = insert retry_header (c.short_uint ((count + 1) % 2 ^ 16)) old_headers
    let properties = record properties { headers = some new_headers }
    published ← attempt (publish_item item true (some properties))
    elim published [
      | err e ↦ do ask (nack true) (a.nack); raise (concat "Failed to republish item: " e)
      | ok _ ↦ call ack (map_err (concat "Failed to ack message: ") a.ack)
    ]

  unfoldable pub republish_item :
      Delivery D V → Bool → QueueItem Tx → Exec (AmqpCall Tx D V) String (Unit {0})
  unfolding publish retry_count republish_retry
  republish_item delivery true item = do
    call ack (map_err (concat "Failed to ack message: ") a.ack)
    publish item
  republish_item delivery false item =
      let count = retry_count delivery.properties in
      if ltb max_retries count
      then call (nack false) (map_err (concat "Failed to nack message: ") a.nack)
      else republish_retry item delivery.properties count

  unfoldable pub republish : Delivery D V → Bool → Exec (AmqpCall Tx D V) String (Unit {0})
  unfolding republish_item
  republish delivery force_requeue = do
    item ← lift (c.from_slice delivery.data')
    republish_item delivery force_requeue item
