-- ===== src/Distributor.antt =====
-- relayer_base/src/distributor.rs: it polls the GMP API for tasks after its cursor, stores the
-- cursor, and puts each task on the queue of the includer or of the ingestor. Links to tracing
-- spans are left out, and so are the two seconds between two rounds.
pub mod Routing
pub mod Cursor
pub mod Recovery
use axelar_relayer.Base.{
  ℕ, String, Bool, true, false, not, ◌&&◌, Option, none, some, List, [], ◌∷◌, ◌++◌, if◌then◌else◌,
  any_of, str_eq, concat, Result, ok, err, map_err, Outcome, done, fail, panic, Exec, ◌>>=◌, ◌>>◌,
  pure, call, calls,
}
use axelar_relayer.Gmp.Task.{Task, TaskKind, id, kind, kind_eq}
use axelar_relayer.Gmp.Errors.{DistributorError, GmpApiError, gmp_api_text}

pub record RecoverySettings : Type 0 where
  pub from_task_id : Option String
  pub to_task_id : String
  pub tasks_filter : Option (List TaskKind)

-- `chain` is what `gmp_api.get_chain()` returns.
pub record Distributor : Type 0 where
  pub last_task_id : Option String
  pub context : String
  pub chain : String
  pub recovery_settings : Option RecoverySettings
  pub refunds_enabled : Bool
  pub supported_includer_tasks : List TaskKind
  pub supported_ingestor_tasks : List TaskKind

pub data Call : Type 0 where
  get_latest_task_id : String → String → Call
  store_latest_task_id : String → String → String → Call
  get_tasks : Option String → Call
  publish_includer publish_ingestor : Task → Call

-- What the database and the GMP API answer in one round.
pub record Answers : Type 0 where
  pub latest_task_id : Result (Option String) String
  pub store : String → Result (Unit {0}) String
  pub tasks : Result (List Task) GmpApiError

abbrev pub contains : List TaskKind → TaskKind → Bool
contains kinds k = any_of (kind_eq k) kinds

abbrev pub default_includer_tasks : List TaskKind
default_includer_tasks = TaskKind.refund ∷ TaskKind.gateway_tx ∷ []

abbrev pub default_ingestor_tasks : List TaskKind
default_ingestor_tasks =
    TaskKind.verify ∷ TaskKind.construct_proof ∷ TaskKind.react_to_wasm_event
    ∷ TaskKind.react_to_retriable_poll ∷ TaskKind.react_to_expired_signing_session ∷ []

-- `expect` panics if the database does not answer.
unfoldable pub new : Answers → String → String → Bool → Exec Call DistributorError Distributor
new a context chain refunds_enabled = elim a.latest_task_id [
  | err _ ↦ (panic, get_latest_task_id chain context ∷ [])
  | ok last ↦ (
    done (record {
      last_task_id = last;
      context = context;
      chain = chain;
      recovery_settings = none;
      refunds_enabled = refunds_enabled;
      supported_includer_tasks = default_includer_tasks;
      supported_ingestor_tasks = default_ingestor_tasks;
    }),
    get_latest_task_id chain context ∷ [],
  )
]

unfoldable pub store_last_task_id : Answers → Distributor → Exec Call DistributorError (Unit {0})
store_last_task_id a d = elim d.last_task_id [
  | none ↦ pure tt
  | some task_id ↦ call (store_latest_task_id d.chain d.context task_id) (
      map_err (λ e. DistributorError.generic_error (concat "Failed to store last_task_id: " e))
        (a.store task_id))
]

unfoldable pub new_with_recovery_settings :
    Answers → String → String → RecoverySettings → Bool → Exec Call DistributorError Distributor
unfolding new store_last_task_id
new_with_recovery_settings a context chain recovery_settings refunds_enabled = do
  distributor ← new a context chain refunds_enabled
  let distributor = record distributor {
    recovery_settings = some recovery_settings;
    last_task_id = recovery_settings.from_task_id;
  }
  store_last_task_id a distributor
  pure distributor

abbrev pub passes : Option (List TaskKind) → TaskKind → Bool
passes none k = true
passes (some kinds) k = contains kinds k

-- The body of the loop from the filter on: where the task is published, if anywhere.
unfoldable pub route : Distributor → Option (List TaskKind) → Task → List Call
route d tasks_filter task =
    let k = kind task in
    if not (passes tasks_filter k)
    then []
    else if kind_eq k TaskKind.refund && not d.refunds_enabled
    then []
    else if contains d.supported_includer_tasks k
    then publish_includer task ∷ []
    else if contains d.supported_ingestor_tasks k
    then publish_ingestor task ∷ []
    else []

-- The loop over the tasks: the ids pushed, the calls, and the distributor behind it. An error of
-- the database is only logged.
unfoldable pub process :
    Answers
    → Option (List TaskKind)
    → List Task
    → Distributor
    → (List String) × (List Call) × Distributor
process a tasks_filter [] d = ([], [], d)
process a tasks_filter (task ∷ tasks) d =
    let d' = record d { last_task_id = some (id task) } in
    let (ids, rest, d'') = process a tasks_filter tasks d' in
    (id task ∷ ids, calls (store_last_task_id a d') ++ (route d' tasks_filter task ++ rest), d'')

unfoldable pub work :
    Answers
    → Option (List TaskKind)
    → Distributor
    → Exec Call DistributorError (List String) × Distributor
unfolding process
work a tasks_filter d = elim a.tasks [
  | err e ↦ (
    (
      fail (DistributorError.generic_error (concat "Failed to get tasks: " (gmp_api_text e))),
      get_tasks d.last_task_id ∷ [],
    ),
    d,
  )
  | ok tasks ↦
      let (ids, rest, d') = process a tasks_filter tasks d in
      ((done ids, get_tasks d.last_task_id ∷ rest), d')
]

-- `run_recovery` over the answers of its rounds: the calls made, the distributor, and whether the
-- loop has ended.
unfoldable pub recovery_rounds :
    RecoverySettings → List Answers → Distributor → (List Call) × Distributor × Bool
recovery_rounds s [] d = ([], d, false)
recovery_rounds s (a ∷ later) d =
    let ((result, made), d') = work a s.tasks_filter d in
    let rest = recovery_rounds s later d' in
    let more : (List Call) × Distributor × Bool = (made ++ rest.0, rest.1, rest.2) in
    elim result [
      | done task_ids ↦ if any_of (str_eq s.to_task_id) task_ids then (made, d', true) else more
      | fail _ ↦ more
      | panic ↦ more
    ]

unfoldable pub run_recovery : List Answers → Distributor → (List Call) × Distributor × Bool
run_recovery answers d = elim d.recovery_settings [
  | none ↦ ([], d, true)
  | some settings ↦ recovery_rounds settings answers d
]

-- `run` over the answers of its rounds. An error is only logged, and the next round begins.
unfoldable pub run : List Answers → Distributor → (List Call) × Distributor
run [] d = ([], d)
run (a ∷ later) d =
    let ((result, made), d') = work a none d in
    let (rest, d'') = run later d' in (made ++ rest, d'')

unfoldable pub set_supported_includer_tasks : List TaskKind → Distributor → Distributor
set_supported_includer_tasks tasks d = record d { supported_includer_tasks = tasks }

unfoldable pub set_supported_ingestor_tasks : List TaskKind → Distributor → Distributor
set_supported_ingestor_tasks tasks d = record d { supported_ingestor_tasks = tasks }
