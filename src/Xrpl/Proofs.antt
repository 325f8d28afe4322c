-- ===== src/Xrpl/Proofs.antt =====
-- `handle_construct_proof` of xrpl/src/ingestor.rs. The payload cache, the GMP API and the JSON,
-- base64 and regex libraries enter by what they answer.
use axelar_relayer.Base.{
  Bool, String, concat, if◌then◌else◌, Result, ok, err, map_err, Exec, ◌>>=◌, ◌>>◌, pure, lift,
  call, ask,
}
use axelar_relayer.Gmp.Task.{GatewayV2Message, ConstructProofTask}
use axelar_relayer.Gmp.Event.{CannotExecuteMessageReason}
use axelar_relayer.Gmp.Errors.{IngestorError, GmpApiError, gmp_api_text, ingestor_text}
use axelar_relayer.Xrpl.Messages.{failed}

-- `R` is the type of requests and `I` that of cross-chain ids.
pub data ProofCall (R I : Type 0) : Type 0 where
  store : I → GatewayV2Message → String → ProofCall R I
  post_broadcast : String → R → ProofCall R I
  cannot_execute_message :
      String → String → String → String → CannotExecuteMessageReason → ProofCall R I

-- `request` is the JSON of a `ConstructProof` message, `matches` the regular expression for "payment
-- for ... already succeeded".
pub record ProofEnv (R I : Type 0) : Type 0 where
  pub chain_multisig_prover : String
  pub cc_id : String → String → Result I String
  pub decode : String → Result String String
  pub request : I → String → Result R String
  pub matches : Result (String → Bool) String
  pub stored : Result (Unit {0}) String
  pub posted : Result String GmpApiError
  pub reported : Result (Unit {0}) GmpApiError

module _ {R I : Type 0} (env : ProofEnv R I) where
  abbrev Proving : Type 0 → Type 0
  Proving A = Exec (ProofCall R I) IngestorError A

  -- behind the broadcast; its error is reported, unless the payment has succeeded already
  unfoldable pub proof_posted :
      ConstructProofTask → Result String IngestorError → Proving (Unit {0})
  unfolding ingestor_text
  proof_posted t (ok tx_hash) = pure tt
  proof_posted t (err e) = do
    is_match ← lift (failed "Failed to create regex: " env.matches)
    if is_match (ingestor_text e)
        then pure tt
        else call
            (cannot_execute_message t.common.id t.task.message.message_id
              t.task.message.source_chain (ingestor_text e) CannotExecuteMessageReason.error)
            (map_err (λ e'. IngestorError.generic_error (gmp_api_text e')) env.reported)

  unfoldable pub handle_construct_proof : ConstructProofTask → Proving (Unit {0})
  unfolding proof_posted
  handle_construct_proof t = do
    cc_id ← lift (
        failed "Failed to construct CrossChainId: "
          (env.cc_id t.task.message.source_chain t.task.message.message_id))
    payload_bytes ← lift (failed "Failed to decode task payload: " (env.decode t.task.payload))
    call (store cc_id t.task.message t.task.payload) (failed "" env.stored)
    request ← lift (failed "Failed to serialize ConstructProof: " (env.request cc_id payload_bytes))
    answer ← ask (post_broadcast env.chain_multisig_prover request) (
        map_err
          (λ e.
            IngestorError.generic_error (concat "Failed to broadcast message: " (gmp_api_text e)))
          env.posted)
    proof_posted t answer
