-- ===== src/Xrpl/Routing/Statuses.antt =====
-- The statuses that xrpl/src/ingestor.rs gives the transactions of the XRP ledger.
use axelar_relayer.Base.Texts.{contains}
use axelar_relayer.Base.{
  ◌≡◌, arith, Bool, concat, true, false, String, Option, List, [], ◌∷◌, ok, err, done, calls,
  outcome, any_of,
}
use axelar_relayer.Gmp.Task.{ReactToWasmEventTask}
use axelar_relayer.Gmp.Errors.{GmpApiError, IngestorError, gmp_api_text, ingestor_text}
use axelar_relayer.Xrpl.Messages.{XrplMessage, tx_id}
use axelar_relayer.Xrpl.Routing.{
  XrplTransactionStatus, Transaction, RoutingCall, update_quorum_reached_task, update_status,
  update_route_tx, post_broadcast, get_payload, xrpl_tx, post_events, Env,
}
use axelar_relayer.Xrpl.Routing.Quorum.{
  confirmation, quorum_reached, handle_successful_routing, handle_wasm_event,
}

-- How far a transaction is.
pub data Phase : Type 0 where
  unverified verified broadcast hashed routed : Phase

-- The status `verified` is stored first and once, then one confirmation is broadcast, then its hash is
-- stored, at most once, and behind it the status `routed`, at most once.
abbrev pub in_order : {R : Type 0} → Phase → List (RoutingCall R) → Bool
in_order p [] = true
in_order Phase.unverified (update_status _ XrplTransactionStatus.verified ∷ cs) =
    in_order Phase.verified cs
in_order Phase.verified (post_broadcast _ _ ∷ cs) = in_order Phase.broadcast cs
in_order Phase.broadcast (update_route_tx _ _ ∷ cs) = in_order Phase.hashed cs
in_order Phase.hashed (update_status _ XrplTransactionStatus.routed ∷ cs) = in_order Phase.routed cs
in_order p (update_quorum_reached_task _ _ ∷ cs) = in_order p cs
in_order p (get_payload _ ∷ cs) = in_order p cs
in_order p (xrpl_tx _ ∷ cs) = in_order p cs
in_order p (post_events _ ∷ cs) = in_order p cs
in_order _ (_ ∷ cs) = false

abbrev pub is_routed : {R : Type 0} → RoutingCall R → Bool
is_routed (update_status _ XrplTransactionStatus.routed) = true
is_routed _ = false

module _ {R : Type 0} (env : Env R) where
  -- Whatever is answered, an event of a quorum stores the status `verified` before it broadcasts the
  -- confirmation, broadcasts no second one, stores the hash of the confirmation once at most and only
  -- behind the broadcast, and the status `routed` once at most and only behind the hash.
  pub wasm_event_in_order :
      (t : ReactToWasmEventTask)
      → in_order Phase.unverified (calls (handle_wasm_event env t)) ≡ true
  unfolding handle_wasm_event
  wasm_event_in_order t = ground arith

  -- If the API refuses a confirmation because the transaction is confirmed already, the transaction
  -- does not get the status `routed`, and the event still ends the way the routing behind it does.
  pub confirmed_again_unrouted :
      (message : XrplMessage) (t : ReactToWasmEventTask) (tx : Option Transaction)
      (address : String) (request : R) (e : GmpApiError)
      → env.stored (update_status (env.tx_hash (tx_id message)) XrplTransactionStatus.verified)
        ≡ ok tt
      → outcome (confirmation env message) ≡ done (tx, address, request)
      → env.broadcast address request ≡ err e
      → contains "transaction status is already confirmed" (
          ingestor_text
            (IngestorError.generic_error (concat "Failed to broadcast message: " (gmp_api_text e))))
        ≡ true
      → (any_of is_routed (calls (quorum_reached env message t)) ≡ false)
        × (outcome (quorum_reached env message t)
            ≡ outcome (handle_successful_routing env message tx t))
  unfolding quorum_reached
  confirmed_again_unrouted (XrplMessage.interchain_transfer_message m) t tx address request e s c b
        a =
      (ground arith, ground arith)
  confirmed_again_unrouted (XrplMessage.call_contract_message m) t tx address request e s c b a =
      (ground arith, ground arith)
  confirmed_again_unrouted (XrplMessage.add_gas_message m) t tx address request e s c b a =
      (ground arith, ground arith)
  confirmed_again_unrouted (XrplMessage.add_reserves_message m) t tx address request e s c b a =
      (ground arith, ground arith)
  confirmed_again_unrouted (XrplMessage.prover_message m) t tx address request e s c b a =
      (ground arith, ground arith)
