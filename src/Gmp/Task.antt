-- ===== src/Gmp/Task.antt =====
-- The tasks of relayer_base/src/gmp_api/gmp_types.rs, with their fields.
use axelar_relayer.Base.{ℕ, String, ◌≡◌, ◌↔◌, Bool, true, Option, List, arith, ◌==◌}

pub record GatewayV2Message : Type 0 where
  pub message_id : String
  pub source_chain : String
  pub source_address : String
  pub destination_address : String
  pub payload_hash : String

pub record Amount : Type 0 where
  pub token_id : Option String
  pub amount : String

pub record ScopedMessage : Type 0 where
  pub message_id : String
  pub source_chain : String

-- `source_context` is a `BTreeMap`: an association list.
pub record TaskMetadata : Type 0 where
  pub tx_id : Option String
  pub from_address : Option String
  pub finalized : Option Bool
  pub source_context : Option (List (String × String))
  pub scoped_messages : Option (List ScopedMessage)

pub record CommonTaskFields : Type 0 where
  pub id : String
  pub chain : String
  pub timestamp : String
  pub type : String
  pub meta : Option TaskMetadata

pub record ExecuteTaskFields : Type 0 where
  pub message : GatewayV2Message
  pub payload : String
  pub available_gas_balance : Amount

pub record ExecuteTask : Type 0 where
  pub common : CommonTaskFields
  pub task : ExecuteTaskFields

pub record GatewayTxTaskFields : Type 0 where
  pub execute_data : String

pub record GatewayTxTask : Type 0 where
  pub common : CommonTaskFields
  pub task : GatewayTxTaskFields

pub record VerifyTaskFields : Type 0 where
  pub message : GatewayV2Message
  pub payload : String

pub record VerifyTask : Type 0 where
  pub common : CommonTaskFields
  pub task : VerifyTaskFields

pub record ConstructProofTaskFields : Type 0 where
  pub message : GatewayV2Message
  pub payload : String

pub record ConstructProofTask : Type 0 where
  pub common : CommonTaskFields
  pub task : ConstructProofTaskFields

pub record EventAttribute : Type 0 where
  pub key : String
  pub value : String

pub record WasmEvent : Type 0 where
  pub attributes : List EventAttribute
  pub type : String

-- `height` is a `u64`.
pub record ReactToWasmEventTaskFields : Type 0 where
  pub event : WasmEvent
  pub height : ℕ

pub record ReactToWasmEventTask : Type 0 where
  pub common : CommonTaskFields
  pub task : ReactToWasmEventTaskFields

-- `session_id` is a `u64`.
pub record ReactToExpiredSigningSessionTaskFields : Type 0 where
  pub session_id : ℕ
  pub broadcast_id : String
  pub invoked_contract_address : String
  pub request_payload : String

pub record ReactToExpiredSigningSessionTask : Type 0 where
  pub common : CommonTaskFields
  pub task : ReactToExpiredSigningSessionTaskFields

pub data VerificationStatus : Type 0 where
  succeeded_on_source_chain failed_on_source_chain failed_on_destination_chain : VerificationStatus
  not_found_on_source_chain failed_to_verify in_progress unknown : VerificationStatus

-- `content` is a JSON value, which the relayer only prints: its text.
pub record QuorumReachedEvent : Type 0 where
  pub status : VerificationStatus
  pub content : String

-- `poll_id` is a `u64`.
pub record ReactToRetriablePollTaskFields : Type 0 where
  pub poll_id : ℕ
  pub broadcast_id : String
  pub invoked_contract_address : String
  pub request_payload : String
  pub quorum_reached_events : Option (List QuorumReachedEvent)

pub record ReactToRetriablePollTask : Type 0 where
  pub common : CommonTaskFields
  pub task : ReactToRetriablePollTaskFields

pub data RetryTask : Type 0 where
  react_to_retriable_poll : ReactToRetriablePollTask → RetryTask
  react_to_expired_signing_session : ReactToExpiredSigningSessionTask → RetryTask

unfoldable pub request_payload : RetryTask → String
request_payload (RetryTask.react_to_retriable_poll t) = t.task.request_payload
request_payload (RetryTask.react_to_expired_signing_session t) = t.task.request_payload

unfoldable pub invoked_contract_address : RetryTask → String
invoked_contract_address (RetryTask.react_to_retriable_poll t) = t.task.invoked_contract_address
invoked_contract_address (RetryTask.react_to_expired_signing_session t) =
    t.task.invoked_contract_address

pub record RefundTaskFields : Type 0 where
  pub message : GatewayV2Message
  pub refund_recipient_address : String
  pub remaining_gas_balance : Amount

pub record RefundTask : Type 0 where
  pub common : CommonTaskFields
  pub task : RefundTaskFields

pub record UnknownTask : Type 0 where
  pub common : CommonTaskFields

pub data Task : Type 0 where
  verify : VerifyTask → Task
  execute : ExecuteTask → Task
  gateway_tx : GatewayTxTask → Task
  construct_proof : ConstructProofTask → Task
  react_to_wasm_event : ReactToWasmEventTask → Task
  refund : RefundTask → Task
  react_to_expired_signing_session : ReactToExpiredSigningSessionTask → Task
  react_to_retriable_poll : ReactToRetriablePollTask → Task
  unknown : UnknownTask → Task

pub data TaskKind : Type 0 where
  verify execute gateway_tx construct_proof react_to_wasm_event refund : TaskKind
  react_to_expired_signing_session react_to_retriable_poll unknown : TaskKind

-- The derived equality compares the positions of the variants.
abbrev pub discriminant : TaskKind → ℕ
discriminant TaskKind.verify = 0
discriminant TaskKind.execute = 1
discriminant TaskKind.gateway_tx = 2
discriminant TaskKind.construct_proof = 3
discriminant TaskKind.react_to_wasm_event = 4
discriminant TaskKind.refund = 5
discriminant TaskKind.react_to_expired_signing_session = 6
discriminant TaskKind.react_to_retriable_poll = 7
discriminant TaskKind.unknown = 8

abbrev pub kind_eq : TaskKind → TaskKind → Bool
kind_eq a b = discriminant a == discriminant b

pub kind_eq_iff : (a b : TaskKind) → (kind_eq a b ≡ true) ↔ (a ≡ b)
kind_eq_iff a b = ground arith

unfoldable pub id : Task → String
id (Task.execute t) = t.common.id
id (Task.verify t) = t.common.id
id (Task.gateway_tx t) = t.common.id
id (Task.construct_proof t) = t.common.id
id (Task.react_to_wasm_event t) = t.common.id
id (Task.refund t) = t.common.id
id (Task.react_to_expired_signing_session t) = t.common.id
id (Task.react_to_retriable_poll t) = t.common.id
id (Task.unknown t) = t.common.id

unfoldable pub kind : Task → TaskKind
kind (Task.verify _) = TaskKind.verify
kind (Task.execute _) = TaskKind.execute
kind (Task.gateway_tx _) = TaskKind.gateway_tx
kind (Task.construct_proof _) = TaskKind.construct_proof
kind (Task.react_to_wasm_event _) = TaskKind.react_to_wasm_event
kind (Task.refund _) = TaskKind.refund
kind (Task.react_to_expired_signing_session _) = TaskKind.react_to_expired_signing_session
kind (Task.react_to_retriable_poll _) = TaskKind.react_to_retriable_poll
kind (Task.unknown _) = TaskKind.unknown
