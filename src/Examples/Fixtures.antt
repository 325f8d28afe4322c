-- ===== src/Examples/Fixtures.antt =====
-- Data for the examples: a broker whose messages are the items themselves, and tasks.
use axelar_relayer.Base.{ℕ, refl, sym, true, Option, none, some, List, [], ◌∷◌, String, ok}
use axelar_relayer.Gmp.Task.{
  Task, CommonTaskFields, GatewayV2Message, ExecuteTask, GatewayTxTask, VerifyTask, RefundTask,
}
use axelar_relayer.Queue.{QueueItem, Delivery, Codec, Roundtrips, Answers}

abbrev pub Item : Type 0
Item = QueueItem String

abbrev pub codec : Codec String Item ℕ
codec = record {
  from_slice = λ d. ok d;
  to_vec = λ i. ok i;
  short_uint = λ n. n;
  as_short_uint = λ n. some n;
}

pub codec-Roundtrips : Roundtrips codec
codec-Roundtrips = record { short_uint_read = λ n h. refl; to_vec_read = λ i d e. sym e }

-- every call is answered well; the tracing library sends one header
abbrev pub broker : Answers ℕ
broker = record {
  ack = ok tt;
  nack = ok tt;
  confirm = ok true;
  tracing_headers = ("traceparent", 7) ∷ [];
}

abbrev pub common : String → String → CommonTaskFields
common id type = record {
  id = id;
  chain = "xrpl";
  timestamp = "2025-01-01T00:00:00Z";
  type = type;
  meta = none;
}

abbrev pub message : GatewayV2Message
message = record {
  message_id = "0x01";
  source_chain = "axelar";
  source_address = "a";
  destination_address = "b";
  payload_hash = "c";
}

abbrev pub verify_task : VerifyTask
verify_task = record {
  common = common "t1" "VERIFY";
  task = record { message = message; payload = "p" };
}

abbrev pub gateway_task : GatewayTxTask
gateway_task = record { common = common "t2" "GATEWAY_TX"; task = record { execute_data = "data" } }

abbrev pub execute_task : ExecuteTask
execute_task = record {
  common = common "t3" "EXECUTE";
  task = record {
    message = message;
    payload = "p";
    available_gas_balance = record { token_id = none; amount = "5" };
  };
}

abbrev pub refund_task : RefundTask
refund_task = record {
  common = common "t4" "REFUND";
  task = record {
    message = message;
    refund_recipient_address = "r";
    remaining_gas_balance = record { token_id = none; amount = "5" };
  };
}

abbrev pub item : Item
item = QueueItem.task (Task.verify verify_task)

abbrev pub delivery : Option (List (String × ℕ)) → Delivery Item ℕ
delivery headers = record {
  data' = item;
  properties = record { headers = headers; delivery_mode = some 2 };
}
