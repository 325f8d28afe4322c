-- ===== src/Gmp/Parsing.antt =====
-- `parse_task` of relayer_base/src/utils.rs: the kind of a task is told by its `type`. The JSON
-- library is a parameter: what it reads a value as, for each type of task.
pub mod Roundtrip
use axelar_relayer.Base.{◌≡◌, Bool, String, str_eq, if◌then◌else◌, Result, ok, err, map_err}
use axelar_relayer.Gmp.Task.{
  CommonTaskFields, ConstructProofTask, GatewayTxTask, VerifyTask, ExecuteTask, RefundTask,
  ReactToWasmEventTask, ReactToRetriablePollTask, ReactToExpiredSigningSessionTask, UnknownTask,
  Task,
}
use axelar_relayer.Gmp.Errors.{GmpApiError}

pub record Serde (J : Type 0) : Type 0 where
  pub common_fields : J → Result CommonTaskFields String
  pub construct_proof : J → Result ConstructProofTask String
  pub gateway_tx : J → Result GatewayTxTask String
  pub verify : J → Result VerifyTask String
  pub execute : J → Result ExecuteTask String
  pub refund : J → Result RefundTask String
  pub react_to_wasm_event : J → Result ReactToWasmEventTask String
  pub react_to_retriable_poll : J → Result ReactToRetriablePollTask String
  pub react_to_expired_signing_session : J → Result ReactToExpiredSigningSessionTask String
  pub unknown : J → Result UnknownTask String

-- `parse_as`, and the variant that is made of its result
abbrev pub parse_as :
    {J A : Type 0} → (J → Result A String) → (A → Task) → J → Result Task GmpApiError
parse_as from_value variant task_json = elim (from_value task_json) [
  | ok task ↦ ok (variant task)
  | err e ↦ err (GmpApiError.invalid_response e)
]

module _ {J : Type 0} (serde : Serde J) where
  -- the `match` on the type
  unfoldable pub parse_typed : String → J → Result Task GmpApiError
  parse_typed type' task_json =
      if str_eq type' "CONSTRUCT_PROOF"
      then parse_as serde.construct_proof Task.construct_proof task_json
      else if str_eq type' "GATEWAY_TX"
      then parse_as serde.gateway_tx Task.gateway_tx task_json
      else if str_eq type' "VERIFY"
      then parse_as serde.verify Task.verify task_json
      else if str_eq type' "EXECUTE"
      then parse_as serde.execute Task.execute task_json
      else if str_eq type' "REFUND"
      then parse_as serde.refund Task.refund task_json
      else if str_eq type' "REACT_TO_WASM_EVENT"
      then parse_as serde.react_to_wasm_event Task.react_to_wasm_event task_json
      else if str_eq type' "REACT_TO_RETRIABLE_POLL"
      then parse_as serde.react_to_retriable_poll Task.react_to_retriable_poll task_json
      else if str_eq type' "REACT_TO_EXPIRED_SIGNING_SESSION"
      then parse_as serde.react_to_expired_signing_session Task.react_to_expired_signing_session
          task_json
      else parse_as serde.unknown Task.unknown task_json

  unfoldable pub parse_task : J → Result Task GmpApiError
  unfolding parse_typed
  parse_task task_json = elim (serde.common_fields task_json) [
    | err e ↦ err (GmpApiError.invalid_response e)
    | ok task_headers ↦ parse_typed task_headers.type task_json
  ]
