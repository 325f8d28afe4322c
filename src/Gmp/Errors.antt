-- ===== src/Gmp/Errors.antt =====
-- relayer_base/src/error.rs: the errors, and the texts that their `Display` derives.
use axelar_relayer.Base.{String, concat}

pub data IncluderError : Type 0 where
  connection : IncluderError
  rpc_error consumer_error : String → IncluderError
  irrelevant_task : IncluderError
  generic_error : String → IncluderError

pub data RefundManagerError : Type 0 where
  invalid_amount invalid_recipient generic_error : String → RefundManagerError

pub data BroadcasterError : Type 0 where
  connection_failed rpc_call_failed rpc_error : String → BroadcasterError
  insufficient_gas irrelevant_task generic_error : String → BroadcasterError

pub data GmpApiError : Type 0 where
  connection_failed request_failed error_response invalid_response : String → GmpApiError
  invalid_request timeout generic_error : String → GmpApiError

pub data IngestorError : Type 0 where
  post_event_error retriable_error : String → IngestorError
  irrelevant_task task_max_retries_reached : IngestorError
  parse_error unsupported_transaction unexpected_chain_transaction_type : String → IngestorError
  generic_error : String → IngestorError

pub data DistributorError : Type 0 where
  generic_error : String → DistributorError

-- `to_string` of each type that the relayer prints.
unfoldable pub refund_manager_text : RefundManagerError → String
refund_manager_text (RefundManagerError.invalid_amount m) = concat "Invalid amount: " m
refund_manager_text (RefundManagerError.invalid_recipient m) = concat "Invalid recipient: " m
refund_manager_text (RefundManagerError.generic_error m) = concat "Generic error: " m

unfoldable pub broadcaster_text : BroadcasterError → String
broadcaster_text (BroadcasterError.connection_failed m) = concat "Connection failed: " m
broadcaster_text (BroadcasterError.rpc_call_failed m) = concat "RPC Call Failed: " m
broadcaster_text (BroadcasterError.rpc_error m) = concat "RPC call failed: " m
broadcaster_text (BroadcasterError.insufficient_gas m) = concat "Insufficient gas: " m
broadcaster_text (BroadcasterError.irrelevant_task m) = concat "Irrelevant task: " m
broadcaster_text (BroadcasterError.generic_error m) = concat "Generic error: " m

unfoldable pub gmp_api_text : GmpApiError → String
gmp_api_text (GmpApiError.connection_failed m) = concat "Connection failed: " m
gmp_api_text (GmpApiError.request_failed m) = concat "GMP API Request failed: " m
gmp_api_text (GmpApiError.error_response m) = concat "GMP API Returned Error: " m
gmp_api_text (GmpApiError.invalid_response m) = concat "Failed to parse response from GMP API: " m
gmp_api_text (GmpApiError.invalid_request m) = concat "Invalid Request: " m
gmp_api_text (GmpApiError.timeout m) = concat "Timeout: " m
gmp_api_text (GmpApiError.generic_error m) = concat "Generic error: " m

unfoldable pub ingestor_text : IngestorError → String
ingestor_text (IngestorError.post_event_error m) = concat "Failed to post event on GMP API: " m
ingestor_text (IngestorError.retriable_error m) = concat "Failed with retriable error: " m
ingestor_text IngestorError.irrelevant_task = "Irrelevant task"
ingestor_text IngestorError.task_max_retries_reached = "Task max retries reached"
ingestor_text (IngestorError.parse_error m) = concat "Failed to parse data: " m
ingestor_text (IngestorError.unsupported_transaction m) = concat "Unsupported transaction: " m
ingestor_text (IngestorError.unexpected_chain_transaction_type m) =
    concat "Unsupported Chain Transaction Type: " m
ingestor_text (IngestorError.generic_error m) = concat "Generic error: " m
