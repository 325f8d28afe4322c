-- ===== src/Gmp/Models.antt =====
-- relayer_base/src/models/gmp_events.rs and relayer_base/src/models/gmp_tasks.rs: the rows that the
-- audit keeps of events and tasks. The serial numbers and the times, which nothing reads, are left
-- out, and so is the time of a task, which is its own or the present one.
use axelar_relayer.Base.{String, str_eq, Option, none, some, List, [], ◌∷◌, ◌++◌, if◌then◌else◌}
use axelar_relayer.Gmp.Task.{Task, CommonTaskFields}
use axelar_relayer.Gmp.Event.{Event, PostEventResult}

pub record EventModel : Type 0 where
  pub event_id : String
  pub message_id : Option String
  pub event_type : String
  pub event : Event
  pub response : Option PostEventResult

pub record TaskModel : Type 0 where
  pub task_id : String
  pub chain : String
  pub task_type : String
  pub message_id : Option String
  pub task : Task

abbrev event_model : String → String → String → Event → EventModel
event_model event_id event_type message_id event = record {
  event_id = event_id;
  message_id = some message_id;
  event_type = event_type;
  event = event;
  response = none;
}

unfoldable pub from_event : Event → EventModel
from_event (Event.gas_refunded e) =
    event_model e.common.event_id e.common.type e.message_id (Event.gas_refunded e)
from_event (Event.gas_credit e) =
    event_model e.common.event_id e.common.type e.message_id (Event.gas_credit e)
from_event (Event.cannot_execute_message_v2 e) =
    event_model e.common.event_id e.common.type e.message_id (Event.cannot_execute_message_v2 e)
from_event (Event.its_interchain_transfer e) =
    event_model e.common.event_id e.common.type e.message_id (Event.its_interchain_transfer e)
from_event (Event.message_executed e) =
    event_model e.common.event_id e.common.type e.message_id (Event.message_executed e)
from_event (Event.call e) =
    event_model e.common.event_id e.common.type e.message.message_id (Event.call e)
from_event (Event.message_approved e) =
    event_model e.common.event_id e.common.type e.message.message_id (Event.message_approved e)

abbrev task_model : CommonTaskFields → Option String → Task → TaskModel
task_model common message_id task = record {
  task_id = common.id;
  chain = common.chain;
  task_type = common.type;
  message_id = message_id;
  task = task;
}

unfoldable pub from_task : Task → TaskModel
from_task (Task.execute t) = task_model t.common (some t.task.message.message_id) (Task.execute t)
from_task (Task.verify t) = task_model t.common (some t.task.message.message_id) (Task.verify t)
from_task (Task.construct_proof t) =
    task_model t.common (some t.task.message.message_id) (Task.construct_proof t)
from_task (Task.refund t) = task_model t.common (some t.task.message.message_id) (Task.refund t)
from_task (Task.gateway_tx t) = task_model t.common none (Task.gateway_tx t)
from_task (Task.react_to_wasm_event t) = task_model t.common none (Task.react_to_wasm_event t)
from_task (Task.react_to_expired_signing_session t) =
    task_model t.common none (Task.react_to_expired_signing_session t)
from_task (Task.react_to_retriable_poll t) =
    task_model t.common none (Task.react_to_retriable_poll t)
from_task (Task.unknown t) = task_model t.common none (Task.unknown t)

-- A row with a serial number of its own.
unfoldable pub insert_event : EventModel → List EventModel → List EventModel
insert_event event rows = rows ++ event ∷ []

-- all rows with the id
unfoldable pub update_event_response : String → PostEventResult → List EventModel → List EventModel
update_event_response event_id response [] = []
update_event_response event_id response (r ∷ rows) =
    (if str_eq r.event_id event_id then record r { response = some response } else r)
    ∷ update_event_response event_id response rows
