-- ===== src/Gmp/Event.antt =====
-- The events of relayer_base/src/gmp_api/gmp_types.rs, with their fields.
use axelar_relayer.Base.{ℕ, String, Bool, Option, List}
use axelar_relayer.Gmp.Task.{Amount, GatewayV2Message}

pub record CommonEventFields (T : Type 0) : Type 0 where
  pub type : String
  pub event_id : String
  pub meta : Option T

-- `source_context` is a `HashMap`: an association list.
pub record EventMetadata : Type 0 where
  pub tx_id : Option String
  pub from_address : Option String
  pub finalized : Option Bool
  pub source_context : Option (List (String × String))
  pub timestamp : String

pub record MessageApprovedEventMetadata : Type 0 where
  pub common_meta : EventMetadata
  pub command_id : Option String

pub record MessageExecutedEventMetadata : Type 0 where
  pub common_meta : EventMetadata
  pub command_id : Option String
  pub child_message_ids : Option (List String)
  pub revert_reason : Option String

pub data CannotExecuteMessageReason : Type 0 where
  insufficient_gas error : CannotExecuteMessageReason

pub data MessageExecutionStatus : Type 0 where
  successful reverted : MessageExecutionStatus

pub record Call : Type 0 where
  pub common : CommonEventFields EventMetadata
  pub message : GatewayV2Message
  pub destination_chain : String
  pub payload : String

pub record GasRefunded : Type 0 where
  pub common : CommonEventFields EventMetadata
  pub message_id : String
  pub recipient_address : String
  pub refunded_amount : Amount
  pub cost : Amount

pub record GasCredit : Type 0 where
  pub common : CommonEventFields EventMetadata
  pub message_id : String
  pub refund_address : String
  pub payment : Amount

pub record MessageApproved : Type 0 where
  pub common : CommonEventFields MessageApprovedEventMetadata
  pub message : GatewayV2Message
  pub cost : Amount

pub record MessageExecuted : Type 0 where
  pub common : CommonEventFields MessageExecutedEventMetadata
  pub message_id : String
  pub source_chain : String
  pub status : MessageExecutionStatus
  pub cost : Amount

pub record CannotExecuteMessageV2 : Type 0 where
  pub common : CommonEventFields EventMetadata
  pub message_id : String
  pub source_chain : String
  pub reason : CannotExecuteMessageReason
  pub details : String

pub record ItsInterchainTransfer : Type 0 where
  pub common : CommonEventFields EventMetadata
  pub message_id : String
  pub destination_chain : String
  pub token_spent : Amount
  pub source_address : String
  pub destination_address : String
  pub data_hash : String

pub data Event : Type 0 where
  call : Call → Event
  gas_refunded : GasRefunded → Event
  gas_credit : GasCredit → Event
  message_approved : MessageApproved → Event
  message_executed : MessageExecuted → Event
  cannot_execute_message_v2 : CannotExecuteMessageV2 → Event
  its_interchain_transfer : ItsInterchainTransfer → Event

-- `index` is a `usize`.
pub record PostEventResult : Type 0 where
  pub status : String
  pub index : ℕ
  pub error : Option String
  pub retriable : Option Bool
