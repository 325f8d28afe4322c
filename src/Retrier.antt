-- ===== src/Retrier.antt =====
-- relayer_base/src/proof_retrier.rs, with `get` of relayer_base/src/payload_cache.rs: it asks again
-- for the proof of a message whose prover transaction has failed. Redis, the database, the JSON
-- library, the clock and the router's id type enter by what they answer.
pub mod Limit
pub mod Settling
pub mod Cycle
use axelar_relayer.Base.{
  ℕ, ◌+◌, ◌-◌, ◌*◌, ◌≡◌, ◌^◌, Bool, true, false, leb, ltb, if◌then◌else◌, Option, none, some, List,
  [], ◌∷◌, ◌++◌, map, String, concat, Result, ok, err, map_err, and_then, Outcome, Exec, ◌>>=◌,
  ◌>>◌, pure, raise, lift, call, tell, ask, attempt, log_error,
}
use axelar_relayer.Base.Int.{ℤ, pos, negsuc}
use axelar_relayer.Gmp.Task.{Task, GatewayV2Message}
use axelar_relayer.Queue.{QueueItem, Delivery, Codec, Answers, AmqpCall, ack, nack, republish}
use axelar_relayer.Base.Texts.{contains, first_part, second_part, parse_i64}

pub record PayloadCacheValue : Type 0 where
  pub message : GatewayV2Message
  pub payload : String

pub data RetrierCall (Tx D V : Type 0) : Type 0 where
  redis_get get_payload : String → RetrierCall Tx D V
  -- on the queue of the tasks
  publish_task : Task → RetrierCall Tx D V
  -- on the queue of the retrier
  amqp : AmqpCall Tx D V → RetrierCall Tx D V

-- `cross_chain_id` is `CrossChainId::new` and its text; `now` and `uuid` are fresh.
pub record Env : Type 0 where
  pub failures : String → Result (Option String) String
  pub cross_chain_id : String → String → Result String String
  pub get_payload : String → Result (Option String) String
  pub from_str : String → Result PayloadCacheValue String
  pub uuid : String
  pub now : String

abbrev pub too_many : String
too_many = "has failed too many times"

-- `format!("Message {} has failed too many times", cc_id)`
abbrev pub too_many_text : String → String
too_many_text cc_id = concat "Message " (concat cc_id (concat " " too_many))

-- the counter, if it is there and a number
abbrev pub counter : Option String → Option ℤ
counter none = none
counter (some s) = parse_i64 s

abbrev pub is_over : Option ℤ → Bool
is_over none = false
is_over (some (pos n)) = leb 10 n
is_over (some (negsuc _)) = false

abbrev or_error : {A : Type 0} → Option A → String → Result A String
or_error none e = err e
or_error (some a) e = ok a

unfoldable pub construct_proof_task : Env → PayloadCacheValue → Task
construct_proof_task env value = Task.construct_proof (record {
  common = record {
    id = concat "proof_retrier_" env.uuid;
    chain = "xrpl";
    timestamp = env.now;
    type = "CONSTRUCT_PROOF";
    meta = none;
  };
  task = record { message = value.message; payload = value.payload };
})

-- `PayloadCache::get`
unfoldable pub cached : Env → String → Result (Option PayloadCacheValue) String
cached env cc_id = elim (env.get_payload cc_id) [
  | err e ↦ err (concat "Failed to get payload from database: " e)
  | ok none ↦ ok none
  | ok (some text) ↦ elim (env.from_str text) [ err e ↦ err e | ok value ↦ ok (some value) ]
]

module _ {Tx D V : Type 0} (env : Env) where
  unfoldable pub retry_proof : String → Exec (RetrierCall Tx D V) String (Unit {0})
  unfolding cached
  retry_proof cc_id = do
    source_chain ← lift (ok (first_part cc_id))
    message_id ← lift (or_error (second_part cc_id) "Failed to get message id")
    id ← lift (
        map_err (concat "Failed to parse CrossChainId: ")
          (env.cross_chain_id source_chain message_id))
    found ← call (get_payload id) (map_err (concat "Failed to get payload: ") (cached env id))
    elim found [
      | some value ↦ tell (publish_task (construct_proof_task env value))
      | none ↦ raise (concat "Payload not found in cache for CrossChainId: " id)
    ]

  unfoldable pub process_item : QueueItem Tx → Exec (RetrierCall Tx D V) String (Unit {0})
  unfolding retry_proof
  process_item (QueueItem.task _) = raise "Irrelevant queue item"
  process_item (QueueItem.transaction _) = raise "Irrelevant queue item"
  process_item (QueueItem.retry_construct_proof cc_id) = do
    let key = concat "failed_proof:" cc_id
    value ← call (redis_get key) (map_err (concat "Failed to get Redis key: ") (env.failures key))
    if is_over (counter value) then raise (too_many_text cc_id) else retry_proof cc_id

  unfoldable pub process_delivery :
      (D → Result (QueueItem Tx) String)
      → Delivery D V
      → Exec (RetrierCall Tx D V) String (Unit {0})
  unfolding process_item
  process_delivery from_slice delivery = do
    item ← lift (map_err (concat "Failed to deserialize QueueItem: ") (from_slice delivery.data'))
    process_item item

  -- the calls of a function of the queue
  abbrev on_queue :
      {A : Type 0} → Exec (AmqpCall Tx D V) String A → Exec (RetrierCall Tx D V) String A
  on_queue (o, cs) = (o, map amqp cs)

  module _ (c : Codec Tx D V) (a : Answers V) where
    -- what the loop does with the result of a retry
    unfoldable pub settle :
        Delivery D V → Result (Unit {0}) String → Exec (RetrierCall Tx D V) String (Unit {0})
    settle delivery (ok _) = call (amqp ack) a.ack
    settle delivery (err e) =
        if contains too_many e
        then log_error (call (amqp (nack false)) a.nack)
        else log_error (on_queue (republish c a delivery false))

    unfoldable pub consume :
        Delivery D V → QueueItem Tx → Exec (RetrierCall Tx D V) String (Unit {0})
    unfolding process_delivery settle
    consume delivery (QueueItem.retry_construct_proof _) = do
      result ← attempt (process_delivery c.from_slice delivery)
      settle delivery result
    consume delivery (QueueItem.task _) = log_error (on_queue (republish c a delivery true))
    consume delivery (QueueItem.transaction _) = log_error (on_queue (republish c a delivery true))

    -- the body of the loop for a delivery
    unfoldable pub on_delivery : Delivery D V → Exec (RetrierCall Tx D V) String (Unit {0})
    unfolding consume
    on_delivery delivery = do
      item ←
          lift (map_err (concat "Failed to deserialize QueueItem: ") (c.from_slice delivery.data'))
      consume delivery item

    -- `run` over the deliveries that arrive; an error of the body ends it
    unfoldable pub run : List (Delivery D V) → Exec (RetrierCall Tx D V) String (Unit {0})
    unfolding on_delivery
    run [] = pure tt
    run (delivery ∷ later) = let rest = run later in on_delivery delivery >> rest
