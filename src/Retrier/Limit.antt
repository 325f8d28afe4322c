-- ===== src/Retrier/Limit.antt =====
-- How often relayer_base/src/proof_retrier.rs asks for a proof again.
use text.Mathlib.TextLemmas.{append_assoc}
use axelar_relayer.Base.{
  ◌≡◌, ap, ◌∙◌, arith, true, false, Option, some, [], ◌∷◌, String, concat, ok, calls,
}
use axelar_relayer.Base.Texts.{contains, contains-middle, first_part, second_part}
use axelar_relayer.Queue.{QueueItem, Delivery, Codec, Answers, ack, nack}
use axelar_relayer.Retrier.{
  PayloadCacheValue, redis_get, get_payload, publish_task, amqp, Env, too_many, too_many_text,
  counter, is_over, construct_proof_task, cached, process_delivery, on_delivery,
}

too_many_found : (cc_id : String) → contains too_many (too_many_text cc_id) ≡ true
too_many_found cc_id =
    let front = concat "Message " (concat cc_id " ") in
    let same : concat front too_many ≡ too_many_text cc_id =
      append_assoc "Message " (concat cc_id " ") too_many
      ∙ ap (concat "Message ") (append_assoc cc_id " " too_many) in
    rw same at (contains-middle front too_many "")

module _ {Tx D V : Type 0} (env : Env) (c : Codec Tx D V) (a : Answers V) (d : Delivery D V) where
  -- A message whose proof has failed ten times goes to the dead letters: its proof is not asked for
  -- again.
  pub limit_dead_letters :
      (cc_id : String) (value : Option String)
      → c.from_slice d.data' ≡ ok (QueueItem.retry_construct_proof cc_id)
      → env.failures (concat "failed_proof:" cc_id) ≡ ok value
      → is_over (counter value) ≡ true
      → calls (on_delivery env c a d)
        ≡ redis_get (concat "failed_proof:" cc_id) ∷ amqp (nack false) ∷ []
  unfolding on_delivery process_delivery
  limit_dead_letters cc_id value item read over =
      ground (arith, item, read, over, too_many_found cc_id)

  -- Below ten failures, or when there is no counter that is a number, a message whose payload is
  -- cached has its proof asked for once, with this message and payload, and its delivery is
  -- acknowledged after that.
  pub asked_again :
      (cc_id message_id id text : String) (value : Option String) (found : PayloadCacheValue)
      → c.from_slice d.data' ≡ ok (QueueItem.retry_construct_proof cc_id)
      → env.failures (concat "failed_proof:" cc_id) ≡ ok value
      → is_over (counter value) ≡ false
      → second_part cc_id ≡ some message_id
      → env.cross_chain_id (first_part cc_id) message_id ≡ ok id
      → env.get_payload id ≡ ok (some text)
      → env.from_str text ≡ ok found
      → calls (on_delivery env c a d)
        ≡ redis_get (concat "failed_proof:" cc_id)
          ∷ get_payload id
          ∷ publish_task (construct_proof_task env found)
          ∷ amqp ack
          ∷ []
  unfolding on_delivery process_delivery cached
  asked_again cc_id message_id id text value found item read under part parsed payload decoded =
      ground (arith, item, read, under, part, parsed, payload, decoded)
