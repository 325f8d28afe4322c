-- ===== src/Xrpl/Retries.antt =====
-- `handle_retriable_task` of xrpl/src/ingestor.rs, with `message_id_from_retry_task` of
-- xrpl/src/utils.rs and the table of relayer_base/src/models/task_retries.rs: a task that is tried
-- again is broadcast again, and counted by its message. The JSON library and the types of the
-- contracts' messages enter by what they answer; `B` is the type of a JSON value. The time of a row,
-- which nothing reads, is left out.
pub mod Counted
use axelar_relayer.Base.Dict.{lookup, insert}
use axelar_relayer.Base.Int.{ℤ, pos, int_leb, int_suc}
use axelar_relayer.Base.{
  Bool, true, false, String, concat, if◌then◌else◌, unwrap_or, Option, none, some, List, [], ◌∷◌,
  ◌++◌, Result, ok, err, and_then, map_err, Outcome, done, fail, panic, Exec, ◌>>=◌, ◌>>◌, pure,
  raise, lift, call, calls, outcome,
}
use axelar_relayer.Gmp.Task.{RetryTask, request_payload, invoked_contract_address}
use axelar_relayer.Gmp.Errors.{IngestorError}

abbrev pub max_task_retries : ℤ
max_task_retries = pos 5

-- the column `retries`, an `i32`, by `message_id`
abbrev pub TaskRetries : Type 0
TaskRetries = List (String × ℤ)

-- The messages of the two contracts, by what the code reads of them.
pub data GatewayMsg : Type 0 where
  verify_messages : List String → GatewayMsg
  other : String → GatewayMsg

pub data ProverMsg : Type 0 where
  construct_proof : String → ProverMsg
  ticket_create : ProverMsg
  other : String → ProverMsg

pub data RetryCall (B : Type 0) : Type 0 where
  post_broadcast : String → B → RetryCall B
  upsert : String → ℤ → RetryCall B

pub record Answers (B : Type 0) : Type 0 where
  pub gateway_msg : String → Result GatewayMsg String
  pub prover_msg : String → Result ProverMsg String
  pub from_str : String → Result B String
  pub found : Result (Unit {0}) String
  pub posted : Result String String
  pub upserted : Result (Unit {0}) String

first_tx_id : List String → Result (Option String) String
first_tx_id [] = err "No messages found in VerifyMessages payload"
first_tx_id (tx_id ∷ _) = ok (some tx_id)

from_gateway : GatewayMsg → Result (Option String) String
unfolding first_tx_id
from_gateway (GatewayMsg.verify_messages tx_ids) = first_tx_id tx_ids
from_gateway (GatewayMsg.other m) = err (concat "Unknown payload: " m)

from_prover : ProverMsg → Result (Option String) String
from_prover (ProverMsg.construct_proof cc_id) = ok (some cc_id)
from_prover ProverMsg.ticket_create = ok none
from_prover (ProverMsg.other m) = err (concat "Unknown payload: " m)

unfoldable pub message_id_from_retry_task :
    {B : Type 0} → Answers B → RetryTask → Result (Option String) String
unfolding from_gateway from_prover
message_id_from_retry_task a (RetryTask.react_to_retriable_poll t) =
    and_then (a.gateway_msg t.task.request_payload) from_gateway
message_id_from_retry_task a (RetryTask.react_to_expired_signing_session t) =
    and_then (a.prover_msg t.task.request_payload) from_prover

abbrev generic : {A : Type 0} → String → Result A String → Result A IngestorError
generic what = map_err (λ e. IngestorError.generic_error (concat what e))

module _ {B : Type 0} (a : Answers B) where
  -- the retries of a message that is known, and the table after them
  unfoldable pub retry :
      RetryTask → String → ℤ → TaskRetries → Exec (RetryCall B) IngestorError TaskRetries
  unfolding request_payload invoked_contract_address
  retry t message_id retries rows =
      if int_leb max_task_retries retries then raise IngestorError.task_max_retries_reached else (do
        payload ← lift (
            map_err (λ e. IngestorError.parse_error (concat "Invalid JSON: " e))
              (a.from_str (request_payload t)))
        call (post_broadcast (invoked_contract_address t) payload)
            (map_err (λ e. IngestorError.post_event_error e) a.posted)
        call (upsert message_id (int_suc retries))
            (generic "Failed to increment task retries: " a.upserted)
        pure (insert message_id (int_suc retries) rows))

  unfoldable pub handle_retriable_task :
      RetryTask → TaskRetries → Exec (RetryCall B) IngestorError TaskRetries
  unfolding retry message_id_from_retry_task
  handle_retriable_task t rows = do
    id ←
        lift (generic "Failed to get message id from retry task: " (message_id_from_retry_task a t))
    elim id [
      | none ↦ pure rows
      | some message_id ↦ do
        lift (generic "Failed to find task retries: " a.found)
        retry t message_id (unwrap_or (lookup message_id rows) (pos 0)) rows
    ]

-- a task that fails leaves the table as it was
abbrev pub rows_after : Outcome TaskRetries IngestorError → TaskRetries → TaskRetries
rows_after (done rows') rows = rows'
rows_after (fail _) rows = rows
rows_after panic rows = rows

-- The tasks one after the other, with what each is answered.
unfoldable pub run :
    {B : Type 0} → List (Answers B × RetryTask) → TaskRetries → List (RetryCall B) × TaskRetries
unfolding handle_retriable_task
run [] rows = ([], rows)
run ((a, t) ∷ tasks) rows =
    let m = handle_retriable_task a t rows in
    let (later, rows') = run tasks (rows_after (outcome m) rows) in (calls m ++ later, rows')
