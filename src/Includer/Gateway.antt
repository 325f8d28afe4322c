-- ===== src/Includer/Gateway.antt =====
-- The gateway transactions of relayer_base/src/includer_worker.rs.
use axelar_relayer.Base.{
  ◌*◌, ◌≡◌, some, List, [], ◌∷◌, String, if◌then◌else◌, ok, err, is_ok, map_err, Exec, ◌>>=◌, ◌>>◌,
  lift, call, tell, calls, arith, concat,
}
use axelar_relayer.Gmp.Task.{GatewayTxTask}
use axelar_relayer.Gmp.Event.{CannotExecuteMessageReason}
use axelar_relayer.Gmp.Errors.{IncluderError, BroadcasterError, gmp_api_text, broadcaster_text}
use axelar_relayer.Includer.{
  BroadcastResult, IncluderCall, broadcast_prover_message, cannot_execute_message, publish_retry,
  redis_incr, redis_expire, clear_payload, Env, broadcast_result_has_message, or_consumer_error,
  consumer_error, same_text,
}

module _ {W T : Type 0} (env : Env W T) where
  -- the proof is to be constructed again
  prover_failed :
      GatewayTxTask
      → String
      → String
      → BroadcasterError
      → Exec (IncluderCall W) IncluderError (Unit {0})
  prover_failed t message_id source_chain e = do
    cross_chain_id ← lift (consumer_error same_text (env.cross_chain_id source_chain message_id))
    tell (publish_retry cross_chain_id)
    let redis_key = concat "failed_proof:" cross_chain_id
    call (redis_incr redis_key 1) (map_err IncluderError.generic_error (env.incr redis_key))
    call (redis_expire redis_key (60 * 60 * 12))
        (map_err IncluderError.generic_error (env.expire redis_key))
    call
        (cannot_execute_message t.common.id message_id source_chain (broadcaster_text e)
          CannotExecuteMessageReason.error)
        (consumer_error gmp_api_text (env.cannot_execute message_id source_chain))

  -- the payload will not be needed any more
  prover_done : String → String → Exec (IncluderCall W) IncluderError (Unit {0})
  prover_done message_id source_chain = do
    cross_chain_id ← lift (consumer_error same_text (env.cross_chain_id source_chain message_id))
    call (clear_payload cross_chain_id) (consumer_error same_text (env.clear cross_chain_id))

  prover_broadcast :
      GatewayTxTask → BroadcastResult T → Exec (IncluderCall W) IncluderError (Unit {0})
  unfolding prover_failed prover_done
  prover_broadcast t result =
      if broadcast_result_has_message result
      then (do
        message_id ← lift (or_consumer_error result.message_id "Message ID is missing")
        source_chain ← lift (or_consumer_error result.source_chain "Source chain is missing")
        elim result.status [
          | err e ↦ prover_failed t message_id source_chain e
          | ok _ ↦ prover_done message_id source_chain
        ])
      else lift (consumer_error broadcaster_text result.status)

  unfoldable pub consume_gateway_tx : GatewayTxTask → Exec (IncluderCall W) IncluderError (Unit {0})
  unfolding prover_broadcast
  consume_gateway_tx t = do
    tx_blob ← lift (consumer_error same_text (env.decode t.task.execute_data))
    result ←
        call (broadcast_prover_message tx_blob)
          (consumer_error broadcaster_text (env.prover_message tx_blob))
    prover_broadcast t result

-- The proofs that calls hand to the proof retrier, and the payloads that they clear.
abbrev pub retried : {W : Type 0} → List (IncluderCall W) → List String
retried [] = []
retried (publish_retry i ∷ cs) = i ∷ retried cs
retried (_ ∷ cs) = retried cs

abbrev pub cleared : {W : Type 0} → List (IncluderCall W) → List String
cleared [] = []
cleared (clear_payload i ∷ cs) = i ∷ cleared cs
cleared (_ ∷ cs) = cleared cs

module _ {W T : Type 0} (env : Env W T) (t : GatewayTxTask) where
  -- A prover transaction with a message whose cross-chain id is `i`: if its status is an error, the
  -- proof of `i` is handed to the retrier once and the payload stays; if not, the payload of `i` is
  -- cleared once and nothing is retried.
  pub gateway_retries_or_clears :
      (blob i m s : String) (r : BroadcastResult T)
      → env.decode t.task.execute_data ≡ ok blob
      → env.prover_message blob ≡ ok r
      → r.message_id ≡ some m
      → r.source_chain ≡ some s
      → env.cross_chain_id s m ≡ ok i
      → (retried (calls (consume_gateway_tx env t)) ≡ (if is_ok r.status then [] else i ∷ []))
        × (cleared (calls (consume_gateway_tx env t)) ≡ (if is_ok r.status then i ∷ [] else []))
  unfolding consume_gateway_tx
  gateway_retries_or_clears blob i m s r p q a b e = (ground arith, ground arith)
