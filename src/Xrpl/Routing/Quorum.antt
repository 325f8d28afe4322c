-- ===== src/Xrpl/Routing/Quorum.antt =====
-- xrpl/src/ingestor.rs: `handle_wasm_event`, which a quorum of the verifiers triggers, and
-- `handle_successful_routing`.
use axelar_relayer.Base.Texts.{contains, to_lowercase}
use axelar_relayer.Base.{
  Bool, true, false, not, String, str_eq, concat, if◌then◌else◌, unwrap_or, Option, none, some,
  List, [], ◌∷◌, Result, ok, err, map_err, ◌>>=◌, ◌>>◌, pure, raise, lift, call, ask,
}
use axelar_relayer.Gmp.Task.{ReactToWasmEventTask, VerificationStatus}
use axelar_relayer.Gmp.Event.{Event, MessageExecutionStatus, PostEventResult}
use axelar_relayer.Gmp.Errors.{IngestorError, gmp_api_text, ingestor_text}
use axelar_relayer.Xrpl.Memos.{extract_hex_xrpl_memo}
use axelar_relayer.Xrpl.Messages.{XrplMessage, tx_id, event_attribute, or_error, failed}
use axelar_relayer.Xrpl.Routing.{
  XrplTransactionStatus, Transaction, update_quorum_reached_task, update_status, update_route_tx,
  post_broadcast, xrpl_tx, post_events, Env, Routing, store, confirm_add_gas_message_request,
  confirm_add_reserves_message_request, confirm_prover_message_request,
  route_incoming_message_request,
}

abbrev is_reverted : MessageExecutionStatus → Bool
is_reverted MessageExecutionStatus.reverted = true
is_reverted MessageExecutionStatus.successful = false

abbrev first : List PostEventResult → Option PostEventResult
first [] = none
first (r ∷ _) = some r

-- the statuses after which the message is confirmed
abbrev pub is_final : VerificationStatus → Bool
is_final VerificationStatus.succeeded_on_source_chain = true
is_final VerificationStatus.failed_on_source_chain = true
is_final _ = false

module _ {R : Type 0} (env : Env R) where
  abbrev message_executed : Transaction → String → MessageExecutionStatus → String → String → Event
  message_executed tx hash status message_id source_chain = Event.message_executed (record {
    common = record {
      type = "MESSAGE_EXECUTED";
      event_id = hash;
      meta = some (record {
        common_meta = record {
          tx_id = some hash;
          from_address = none;
          finalized = none;
          source_context = none;
          timestamp = env.now;
        };
        command_id = none;
        child_message_ids = none;
        revert_reason = if is_reverted status then tx.transaction_result else none;
      });
    };
    message_id = message_id;
    source_chain = source_chain;
    status = status;
    cost = record { token_id = none; amount = tx.fee };
  })

  payment_routed : Transaction → ReactToWasmEventTask → Routing env (Unit {0})
  unfolding event_attribute extract_hex_xrpl_memo
  payment_routed tx t = do
    text ← lift (
        or_error "QuorumReached event for ProverMessage missing status"
          (event_attribute t.task.event "status"))
    tx_status ← lift (failed "Failed to parse status: " (env.parse_text text))
    let status =
        if str_eq tx_status "succeeded_on_source_chain"
        then MessageExecutionStatus.successful
        else MessageExecutionStatus.reverted
    message_id ← lift (
        failed "Failed to extract message_id from memos: "
          (extract_hex_xrpl_memo env.hex tx.memos "message_id"))
    source_chain ← lift (
        failed "Failed to extract source_chain from memos: "
          (extract_hex_xrpl_memo env.hex tx.memos "source_chain"))
    hash ← lift (or_error "Transaction missing field 'hash'" tx.hash)
    let event = message_executed tx hash status message_id source_chain ∷ []
    results ← call (post_events event) (
        map_err
          (λ e.
            IngestorError.generic_error (concat "Failed to broadcast message: " (gmp_api_text e)))
          (env.posted event))
    response ← lift (or_error "Failed to get response from posting events" (first results))
    if not (str_eq response.status "ACCEPTED")
        then raise (
            IngestorError.generic_error
              (concat "Failed to post event: " (unwrap_or response.error "")))
        else pure tt

  unfoldable pub handle_successful_routing :
      XrplMessage → Option Transaction → ReactToWasmEventTask → Routing env (Unit {0})
  unfolding payment_routed
  handle_successful_routing (XrplMessage.prover_message _) prover_tx t = do
    tx ← lift (or_error "Prover transaction is None" prover_tx)
    if tx.is_payment then payment_routed tx t else pure tt
  handle_successful_routing (XrplMessage.interchain_transfer_message _) prover_tx t = pure tt
  handle_successful_routing (XrplMessage.call_contract_message _) prover_tx t = pure tt
  handle_successful_routing (XrplMessage.add_gas_message _) prover_tx t = pure tt
  handle_successful_routing (XrplMessage.add_reserves_message _) prover_tx t = pure tt

  abbrev with_no_tx : Routing env (String × R) → Routing env (Option Transaction × String × R)
  with_no_tx m = do (address, request) ← m; pure (none, address, request)

  -- the transaction of a prover message, and the request with its contract
  unfoldable pub confirmation : XrplMessage → Routing env (Option Transaction × String × R)
  unfolding route_incoming_message_request confirm_prover_message_request
      confirm_add_gas_message_request confirm_add_reserves_message_request
  confirmation (XrplMessage.interchain_transfer_message m) =
      with_no_tx (route_incoming_message_request env (XrplMessage.interchain_transfer_message m))
  confirmation (XrplMessage.call_contract_message m) =
      with_no_tx (route_incoming_message_request env (XrplMessage.call_contract_message m))
  confirmation (XrplMessage.prover_message m) = do
    tx ← call (xrpl_tx m.tx_id) (failed "Failed to get transaction: " (env.transaction m.tx_id))
    (address, request) ← confirm_prover_message_request env tx
    pure (some tx, address, request)
  confirmation (XrplMessage.add_gas_message m) = with_no_tx (confirm_add_gas_message_request env m)
  confirmation (XrplMessage.add_reserves_message m) =
      with_no_tx (confirm_add_reserves_message_request env m)

  -- behind the broadcast of the confirmation
  unfoldable pub confirmed : XrplMessage → Result String IngestorError → Routing env (Unit {0})
  unfolding to_lowercase contains ingestor_text
  confirmed message (ok confirmation_tx_hash) = do
    let hash = env.tx_hash (tx_id message)
    store env (update_route_tx hash (to_lowercase confirmation_tx_hash))
    store env (update_status hash XrplTransactionStatus.routed)
  confirmed message (err e) =
      if not (contains "transaction status is already confirmed" (ingestor_text e))
      then raise e
      else pure tt

  unfoldable pub quorum_reached : XrplMessage → ReactToWasmEventTask → Routing env (Unit {0})
  unfolding confirmation confirmed handle_successful_routing
  quorum_reached message t = do
    store env (update_status (env.tx_hash (tx_id message)) XrplTransactionStatus.verified)
    (prover_tx, contract_address, request) ← confirmation message
    answer ← ask (post_broadcast contract_address request) (
        map_err
          (λ e.
            IngestorError.generic_error (concat "Failed to broadcast message: " (gmp_api_text e)))
          (env.broadcast contract_address request))
    confirmed message answer
    handle_successful_routing message prover_tx t

  abbrev message_of : String → Result XrplMessage IngestorError
  message_of content = elim (env.parse_with_cross_chain_id content) [
    | some message ↦ ok message
    | none ↦
        failed "Failed to parse content as either WithCrossChainId<XRPLMessage> or XRPLMessage: "
          (env.parse_message content)
  ]

  unfoldable pub handle_wasm_event : ReactToWasmEventTask → Routing env (Unit {0})
  unfolding quorum_reached event_attribute
  handle_wasm_event t =
      if not (str_eq t.task.event.type "wasm-quorum_reached")
      then raise (IngestorError.generic_error (concat "Unknown event name: " t.task.event.type))
      else (do
        content ← lift (
            or_error "QuorumReached event missing content" (event_attribute t.task.event "content"))
        status ← lift (
            or_error "QuorumReached event for ProverMessage missing status"
              (event_attribute t.task.event "status"))
        tx_status ← lift (failed "Failed to parse status: " (env.parse_status status))
        message ← lift (message_of content)
        text ← lift (failed "Failed to serialize QuorumReachedTask: " (env.event_text t))
        store env (update_quorum_reached_task (env.tx_hash (tx_id message)) text)
        if is_final tx_status then quorum_reached message t else pure tt)
