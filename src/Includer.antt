-- ===== src/Includer.antt =====
-- relayer_base/src/includer_worker.rs, with the interfaces of relayer_base/src/includer.rs: it
-- broadcasts what a task asks for. The broadcaster, the refund manager, the GMP API, Redis and the
-- payload cache enter by what they answer. `W` is the type of wallets, `T` that of transactions.
pub mod Execute
pub mod Gateway
pub mod Refund
pub mod Consume
use axelar_relayer.Base.{
  ℕ, ◌*◌, ◌≡◌, Bool, true, false, not, ◌&&◌, Option, none, some, List, [], ◌∷◌, String,
  if◌then◌else◌, is_some, Result, ok, err, is_ok, map_err, Outcome, done, fail, panic, Exec, ◌>>=◌,
  ◌>>◌, pure, raise, lift, call, ask, tell, log_error, concat,
}
use axelar_relayer.Gmp.Task.{Task, ExecuteTaskFields, RefundTaskFields, RefundTask}
use axelar_relayer.Gmp.Event.{Event, CannotExecuteMessageReason}
use axelar_relayer.Gmp.Errors.{
  IncluderError, RefundManagerError, BroadcasterError, GmpApiError, gmp_api_text,
  refund_manager_text, broadcaster_text,
}

pub record BroadcastResult (T : Type 0) : Type 0 where
  pub transaction : T
  pub tx_hash : String
  pub status : Result (Unit {0}) BroadcasterError
  pub message_id : Option String
  pub source_chain : Option String

pub data IncluderCall (W : Type 0) : Type 0 where
  broadcast_prover_message : String → IncluderCall W
  broadcast_refund : String → IncluderCall W
  broadcast_execute_message : ExecuteTaskFields → IncluderCall W
  broadcast_refund_message : RefundTaskFields → IncluderCall W
  -- task id, message id, source chain, details, reason
  cannot_execute_message :
      String → String → String → String → CannotExecuteMessageReason → IncluderCall W
  post_events : List Event → IncluderCall W
  -- `RetryConstructProof` on the queue of the proof retrier
  publish_retry : String → IncluderCall W
  redis_incr : String → ℕ → IncluderCall W
  redis_expire : String → ℕ → IncluderCall W
  clear_payload : String → IncluderCall W
  is_refund_processed : RefundTask → String → IncluderCall W
  get_wallet_lock : IncluderCall W
  build_refund_tx : String → String → String → W → IncluderCall W
  release_wallet_lock : W → IncluderCall W

-- What the parts outside the worker answer. `cross_chain_id` is `CrossChainId::new` and its
-- `to_string`; `decode` is base64 to hex.
pub record Env (W T : Type 0) : Type 0 where
  pub prover_message : String → Result (BroadcastResult T) BroadcasterError
  pub refund : String → Result String BroadcasterError
  pub execute_message : ExecuteTaskFields → Result (BroadcastResult T) BroadcasterError
  pub refund_message : RefundTaskFields → Result String BroadcasterError
  pub cannot_execute : String → String → Result (Unit {0}) GmpApiError
  pub post : List Event → Result (Unit {0}) GmpApiError
  pub incr : String → Result (Unit {0}) String
  pub expire : String → Result (Unit {0}) String
  pub clear : String → Result (Unit {0}) String
  pub cross_chain_id : String → String → Result String String
  pub decode : String → Result String String
  pub is_refund_manager_managed : Bool
  pub refund_processed : RefundTask → String → Result Bool RefundManagerError
  pub wallet_lock : Result W RefundManagerError
  pub refund_tx :
      String → String → String → W → Result (Option (String × String × String)) RefundManagerError
  pub release : W → Result (Unit {0}) RefundManagerError

abbrev pub broadcast_result_has_message : {T : Type 0} → BroadcastResult T → Bool
broadcast_result_has_message r = is_some r.message_id && is_some r.source_chain

-- `ok_or_else` with a `ConsumerError`
abbrev pub or_consumer_error : Option String → String → Result String IncluderError
or_consumer_error none m = err (IncluderError.consumer_error m)
or_consumer_error (some s) m = ok s

-- `map_err(|e| IncluderError::ConsumerError(e.to_string()))`
abbrev pub consumer_error : {A E : Type 0} → (E → String) → Result A E → Result A IncluderError
consumer_error text = map_err (λ e. IncluderError.consumer_error (text e))

abbrev pub same_text : String → String
same_text s = s
