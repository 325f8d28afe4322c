-- ===== src/Examples/GmpClient.antt =====
-- The theorems on the client of the GMP API and its audit, where a JSON value is a task or a text.
use axelar_relayer.Base.{
  ◌≡◌, refl, true, not, str_eq, String, none, some, [], ◌∷◌, ◌++◌, map, Result, ok, err, done, fail,
  outcome, calls, count_if,
}
use axelar_relayer.Gmp.Task.{Task, kind}
use axelar_relayer.Gmp.Event.{Event}
use axelar_relayer.Gmp.Errors.{GmpApiError}
use axelar_relayer.Gmp.Parsing.{Serde, parse_task}
use axelar_relayer.Gmp.Parsing.Roundtrip.{Written, common, parse_task-to_value}
use axelar_relayer.Gmp.Api.{
  Json, GmpApi, Answers, Response, post_broadcast, text_if_success, json_if_success, read_poll,
}
use axelar_relayer.Gmp.Api.Broadcasts.{is_send, slept, timeout_for_hash}
use axelar_relayer.Gmp.Audit.{Inner, error_result, post}
use axelar_relayer.Gmp.Audit.Recorded.{Database, taken, told_of, recorded, answered, error_recorded}
use axelar_relayer.Includer.Refund.{gas_refunded}
use axelar_relayer.Examples.Fixtures.{execute_task, refund_task}

abbrev not_this : {A : Type 0} → Result A String
not_this = err "another task"

-- a value is a task
abbrev serde : Serde Task
serde = record {
  common_fields = λ t. ok (common t);
  construct_proof = λ t. elim t [ Task.construct_proof x ↦ ok x | _ ↦ not_this ];
  gateway_tx = λ t. elim t [ Task.gateway_tx x ↦ ok x | _ ↦ not_this ];
  verify = λ t. elim t [ Task.verify x ↦ ok x | _ ↦ not_this ];
  execute = λ t. elim t [ Task.execute x ↦ ok x | _ ↦ not_this ];
  refund = λ t. elim t [ Task.refund x ↦ ok x | _ ↦ not_this ];
  react_to_wasm_event = λ t. elim t [ Task.react_to_wasm_event x ↦ ok x | _ ↦ not_this ];
  react_to_retriable_poll = λ t. elim t [ Task.react_to_retriable_poll x ↦ ok x | _ ↦ not_this ];
  react_to_expired_signing_session =
      λ t. elim t [ Task.react_to_expired_signing_session x ↦ ok x | _ ↦ not_this ];
  unknown = λ t. elim t [ Task.unknown x ↦ ok x | _ ↦ not_this ];
}

abbrev serde-Written : Written serde
serde-Written = record {
  to_value = λ t. t;
  common_read = λ t. refl;
  construct_proof_read = λ t. refl;
  gateway_tx_read = λ t. refl;
  verify_read = λ t. refl;
  execute_read = λ t. refl;
  refund_read = λ t. refl;
  wasm_event_read = λ t. refl;
  retriable_poll_read = λ t. refl;
  signing_session_read = λ t. refl;
  unknown_read = λ t. refl;
}

parse_task-to_value_example :
    parse_task serde (Task.execute execute_task) ≡ ok (Task.execute execute_task)
unfolding common kind
parse_task-to_value_example =
    parse_task-to_value serde serde-Written (Task.execute execute_task) refl

-- A value is its text. Every field has the text "RECEIVED".
abbrev json : Json String
json = record {
  from_str = λ s. ok s;
  get_field = λ v f. some "RECEIVED";
  as_str = λ v. some v;
  to_string = λ v. v;
  debug = λ v. v;
  serialize = λ v. ok v;
  serialize_events = λ es. ok "";
  read_tasks = λ s. ok none;
  read_results = λ s. ok [];
  read_keccak = λ s. ok s;
}

abbrev api : GmpApi
api = record { rpc_url = "http://gmp"; chain = "xrpl" }

abbrev accepted : Response
accepted = record { is_success = true; status_error = none; text = ok "{}"; bytes = ok "" }

abbrev slow : Answers
slow = record { server = λ r. ok accepted; polled = λ n. ok accepted }

timeout_for_hash_example :
    (outcome (post_broadcast json api slow "gateway" "{}") ≡ done "timeout")
    × (count_if is_send (calls (post_broadcast json api slow "gateway" "{}")) ≡ 32)
    × (slept (calls (post_broadcast json api slow "gateway" "{}")) ≡ 62)
unfolding text_if_success json_if_success read_poll
timeout_for_hash_example =
    timeout_for_hash json slow api "gateway" "RECEIVED" "{}" "{}" "{}" "{}" accepted refl refl refl
      refl refl (λ k h. refl)

abbrev refunded : Event
refunded = gas_refunded refund_task "0x02" "4" "1"

-- the API answers with an error
abbrev down : Inner
down = record {
  tasks = λ a. err (GmpApiError.timeout "tasks");
  posted = λ es. err (GmpApiError.timeout "events");
}

-- the database takes every row, but no answer for the event "x"
abbrev database : Database
database = record { inserts = λ m. true; updates = λ id. not (str_eq id "x") }

error_recorded_example :
    (outcome (post down (refunded ∷ [])) ≡ fail (GmpApiError.timeout "events"))
    × (recorded database (calls (post down (refunded ∷ []))) []
        ≡ map
            (answered
              (told_of database (refunded ∷ []))
              (error_result (GmpApiError.timeout "events")))
            ([] ++ taken database (refunded ∷ [])))
error_recorded_example =
    error_recorded down database (refunded ∷ []) [] (GmpApiError.timeout "events") refl
