-- ===== src/Examples/Polling.antt =====
-- The theorems on the distributor, on one round that hands out three tasks.
use axelar_relayer.Base.{◌≡◌, refl, true, false, some, none, List, [], ◌∷◌, ok, err, calls}
use axelar_relayer.Gmp.Task.{Task, id, kind}
use axelar_relayer.Distributor.{
  Distributor, RecoverySettings, Answers, default_includer_tasks, default_ingestor_tasks, work,
  run_recovery,
}
use axelar_relayer.Distributor.Routing.{includer_tasks, ingestor_tasks, work_routes}
use axelar_relayer.Distributor.Cursor.{Checkpointed, store_before_publish}
use axelar_relayer.Distributor.Recovery.{recovery_ends}
use axelar_relayer.Examples.Fixtures.{verify_task, gateway_task, refund_task}

abbrev three : List Task
three = Task.verify verify_task ∷ Task.gateway_tx gateway_task ∷ Task.refund refund_task ∷ []

abbrev answers : Answers
answers = record { latest_task_id = ok none; store = λ i. ok tt; tasks = ok three }

abbrev failing : Answers
failing = record { latest_task_id = ok none; store = λ i. err "closed"; tasks = ok three }

abbrev settings : RecoverySettings
settings = record { from_task_id = none; to_task_id = "t2"; tasks_filter = none }

-- refunds are off
abbrev distributor : Distributor
distributor = record {
  last_task_id = none;
  context = "default";
  chain = "xrpl";
  recovery_settings = some settings;
  refunds_enabled = false;
  supported_includer_tasks = default_includer_tasks;
  supported_ingestor_tasks = default_ingestor_tasks;
}

work_routes_example :
    (includer_tasks (calls (work answers none distributor).0) ≡ Task.gateway_tx gateway_task ∷ [])
    × (ingestor_tasks (calls (work answers none distributor).0) ≡ Task.verify verify_task ∷ [])
unfolding kind
work_routes_example = work_routes answers none distributor

store_before_publish_example : Checkpointed none (calls (work failing none distributor).0)
store_before_publish_example = store_before_publish failing none distributor

recovery_ends_example : (run_recovery (answers ∷ []) distributor).2 ≡ true
unfolding id
recovery_ends_example = recovery_ends settings (answers ∷ []) distributor refl
