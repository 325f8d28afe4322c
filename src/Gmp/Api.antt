-- ===== src/Gmp/Api.antt =====
-- relayer_base/src/gmp_api/mod.rs: the client of the GMP API. HTTP (reqwest, with its retries) and
-- the JSON library enter by what they answer; a function is its outcome and the requests that it
-- sends, in order. `J` is the type of JSON values.
pub mod Broadcasts
use Prim.Native.Char.{code}
use axelar_relayer.Base.Texts.{to_lowercase}
use axelar_relayer.Base.{
  ◌==◌, ◌&&◌, ℕ, zero, suc, ◌+◌, ◌/◌, ◌≡◌, Bool, true, false, String, str_eq, concat, if◌then◌else◌,
  Option, none, some, List, [], ◌∷◌, unwrap_or, Result, ok, err, map_err, Outcome, done, fail,
  panic, Exec, ◌>>=◌, ◌>>◌, pure, raise, lift, call, tell, ask, attempt,
}
use axelar_relayer.Gmp.Task.{Task}
use axelar_relayer.Gmp.Event.{
  Event, PostEventResult, CannotExecuteMessageReason, CannotExecuteMessageV2,
}
use axelar_relayer.Gmp.Errors.{GmpApiError}
use axelar_relayer.Gmp.Parsing.{Serde, parse_task}

abbrev pub max_broadcast_wait_time_seconds : ℕ
max_broadcast_wait_time_seconds = 60

abbrev pub broadcast_poll_interval_seconds : ℕ
broadcast_poll_interval_seconds = 2

-- A request, by its URL; `get` with the `after` of its query, and `post` with its content type and
-- body.
pub data Request : Type 0 where
  get : String → Option String → Request
  post : String → String → String → Request

pub data GmpCall : Type 0 where
  send : Request → GmpCall
  -- seconds
  sleep : ℕ → GmpCall

-- A response. `status_error` is the error of `error_for_status_ref`, for a status from 400 on;
-- `bytes` are in hexadecimal.
pub record Response : Type 0 where
  pub is_success : Bool
  pub status_error : Option String
  pub text : Result String String
  pub bytes : Result String String

-- serde_json on values. `read_tasks` reads the map from texts to lists, and gives the list under
-- "tasks"; `read_results` and `read_keccak` read `PostEventResponse` and `StorePayloadResult`.
pub record Json (J : Type 0) : Type 0 where
  pub from_str : String → Result J String
  pub get_field : J → String → Option J
  pub as_str : J → Option String
  -- `Display` and `Debug`
  pub to_string : J → String
  pub debug : J → String
  pub serialize : J → Result String String
  pub serialize_events : List Event → Result String String
  pub read_tasks : String → Result (Option (List J)) String
  pub read_results : String → Result (List PostEventResult) String
  pub read_keccak : String → Result String String

pub record GmpApi : Type 0 where
  pub rpc_url : String
  pub chain : String

abbrev url_of : List String → String
url_of [] = ""
url_of (part ∷ parts) = concat part (url_of parts)

-- the text of an error's response
abbrev pub body_text : Response → String
body_text r = elim r.text [ ok t ↦ t | err _ ↦ "Failed to read error body" ]

unfoldable pub bytes_if_success : Response → Result String GmpApiError
bytes_if_success r =
    if r.is_success
    then map_err GmpApiError.invalid_response r.bytes
    else err (GmpApiError.error_response (body_text r))

unfoldable pub text_if_success : Response → Result String GmpApiError
text_if_success r =
    if r.is_success
    then map_err GmpApiError.invalid_response r.text
    else err (GmpApiError.error_response (body_text r))

-- `json` reads the body of the response, where that can be read
abbrev read_body :
    {A : Type 0} → (String → Result A String) → Result String String → Result A GmpApiError
read_body json (ok body) = map_err GmpApiError.invalid_response (json body)
read_body json (err e) = err (GmpApiError.invalid_response e)

unfoldable pub json_if_success :
    {A : Type 0} → (String → Result A String) → Response → Result A GmpApiError
json_if_success json r = elim r.status_error [
  | some e ↦ err (GmpApiError.error_response (concat e (concat ": " (body_text r))))
  | none ↦ read_body json r.text
]

unfoldable pub requested :
    {A : Type 0}
    → Request
    → Result Response String
    → (Response → Result A GmpApiError)
    → Exec GmpCall GmpApiError A
requested q answer read = do
  response ← call (send q) (map_err GmpApiError.request_failed answer)
  lift (read response)

-- `trim_start_matches("0x")`
unfoldable pub trim_start_0x : String → String
trim_start_0x String.[] = String.[]
trim_start_0x (String.◌∷◌ c String.[]) = String.◌∷◌ c String.[]
trim_start_0x (String.◌∷◌ c (String.◌∷◌ d s)) =
    let rest = trim_start_0x s in
    if code c == 48 && code d == 120 then rest else String.◌∷◌ c (String.◌∷◌ d s)

-- `ok_or_else`
abbrev pub or_error : {A : Type 0} → Option A → GmpApiError → Result A GmpApiError
or_error none e = err e
or_error (some a) e = ok a

-- What the loop does with a poll's response.
pub data Poll : Type 0 where
  received : Poll
  finished : Result String GmpApiError → Poll

-- What the server answers: a request, and the poll of a broadcast by its number from 0 on.
pub record Answers : Type 0 where
  pub server : Request → Result Response String
  pub polled : ℕ → Result Response String

unfoldable pub map_cannot_execute_message_to_event :
    String → String → String → String → CannotExecuteMessageReason → Event
map_cannot_execute_message_to_event id message_id source_chain details reason =
    Event.cannot_execute_message_v2 (record {
      common = record {
        type = "CANNOT_EXECUTE_MESSAGE/V2";
        event_id = concat "cannot-execute-task-v2-" id;
        meta = none;
      };
      message_id = message_id;
      source_chain = source_chain;
      reason = reason;
      details = details;
    })

-- the tasks that can be parsed; the others are only logged
unfoldable pub parsed : {J : Type 0} → Serde J → List J → List Task
parsed serde [] = []
parsed serde (v ∷ vs) =
    let rest = parsed serde vs in elim (parse_task serde v) [ ok t ↦ t ∷ rest | err _ ↦ rest ]

abbrev pub url : GmpApi → List String → String
url api parts = url_of (api.rpc_url ∷ parts)

-- the loop ends when `retries` is past the limit
abbrev pub polls_allowed : ℕ
polls_allowed = max_broadcast_wait_time_seconds / broadcast_poll_interval_seconds + 1

-- a time-out is no error for the caller
unfoldable pub settled_broadcast : Result String GmpApiError → Result String GmpApiError
settled_broadcast (err (GmpApiError.timeout _)) = ok "timeout"
settled_broadcast (err e) = err e
settled_broadcast (ok tx_hash) = ok tx_hash

module _ {J : Type 0} (json : Json J) where
  abbrev pub text_field : J → String → String → String → Result String GmpApiError
  text_field v name missing wrong = elim (json.get_field v name) [
    | none ↦ err (GmpApiError.generic_error missing)
    | some f ↦ or_error (json.as_str f) (GmpApiError.generic_error wrong)
  ]

  -- a status that is neither RECEIVED nor SUCCESS
  abbrev failed_status : J → J → GmpApiError
  failed_status response status = elim (json.get_field response "error") [
    | some e ↦ GmpApiError.generic_error (json.to_string e)
    | none ↦ GmpApiError.generic_error (json.to_string status)
  ]

  abbrev no_status : J → GmpApiError
  no_status response = elim (json.get_field response "error") [
    | some e ↦ GmpApiError.generic_error (json.to_string e)
    | none ↦ elim (json.serialize response) [
      | ok s ↦ GmpApiError.generic_error (concat "Broadcast failed: " s)
      | err e ↦ GmpApiError.generic_error (
          concat "Failed to parse broadcast result " (concat (json.debug response) (concat ": " e)))
    ]
  ]

  abbrev status_is : J → String → Bool
  status_is status s = elim (json.as_str status) [ none ↦ false | some t ↦ str_eq t s ]

  -- the `match` on the status
  unfoldable pub read_poll : J → Poll
  read_poll response = elim (json.get_field response "status") [
    | none ↦ finished (err (no_status response))
    | some status ↦
        if status_is status "RECEIVED"
        then received
        else if status_is status "SUCCESS"
        then finished (
            text_field response "txHash" "Broadcast result missing 'txHash' field"
              "'txHash' field is not a string")
        else finished (err (failed_status response status))
  ]

  module _ (api : GmpApi) (a : Answers) where
    unfoldable pub get_tasks_action : Serde J → Option String → Exec GmpCall GmpApiError (List Task)
    unfolding requested json_if_success
    get_tasks_action serde after = do
      let q = get (url api ("/chains/" ∷ api.chain ∷ "/tasks" ∷ [])) after
      response ← requested q (a.server q) (json_if_success json.read_tasks)
      tasks_json ← lift (or_error response (GmpApiError.invalid_response "Missing 'tasks' field"))
      pure (parsed serde tasks_json)

    unfoldable pub post_events : List Event → Exec GmpCall GmpApiError (List PostEventResult)
    unfolding requested json_if_success
    post_events events = do
      body ← lift (
          map_err (λ e. GmpApiError.generic_error (concat "Failed to serialize events payload: " e))
            (json.serialize_events events))
      let q = post (url api ("/chains/" ∷ api.chain ∷ "/events" ∷ [])) "application/json" body
      requested q (a.server q) (json_if_success json.read_results)

    -- The loop has made `retries` polls; `left` is how many more the test of `retries` against the
    -- limit lets through.
    unfoldable pub poll_broadcast : ℕ → ℕ → String → String → Exec GmpCall GmpApiError String
    unfolding requested json_if_success read_poll
    poll_broadcast zero retries u broadcast_id =
        raise (GmpApiError.timeout (concat "Broadcast with id " (concat broadcast_id " timed out")))
    poll_broadcast (suc left) retries u broadcast_id = do
      response ← requested (get u none) (a.polled retries) (json_if_success json.from_str)
      elim (read_poll response) [
        | received ↦ do
          tell (sleep broadcast_poll_interval_seconds)
          poll_broadcast left (retries + 1) u broadcast_id
        | finished r ↦ lift r
      ]

    unfoldable pub get_broadcast_result : String → String → Exec GmpCall GmpApiError String
    unfolding poll_broadcast
    get_broadcast_result contract_address broadcast_id =
        poll_broadcast polls_allowed 0
          (url api ("/contracts/" ∷ contract_address ∷ "/broadcasts/" ∷ broadcast_id ∷ []))
          broadcast_id

    unfoldable pub post_broadcast : String → J → Exec GmpCall GmpApiError String
    unfolding requested text_if_success settled_broadcast
    post_broadcast contract_address payload = do
      body ← lift (
          map_err
            (λ e. GmpApiError.generic_error (concat "Failed to serialize broadcast payload: " e))
            (json.serialize payload))
      let q =
          post (url api ("/contracts/" ∷ contract_address ∷ "/broadcasts" ∷ [])) "application/json"
            body
      response ← requested q (a.server q) text_if_success
      response_json ← lift (
          map_err
            (λ e.
              GmpApiError.generic_error
                (concat "Failed to parse GMP response " (concat response (concat ": " e))))
            (json.from_str response))
      broadcast_id ← lift (
          text_field response_json "broadcastID" "Missing 'broadcastID' field"
            "'broadcastID' field is not a string")
      broadcast_result ← attempt (get_broadcast_result contract_address broadcast_id)
      lift (settled_broadcast broadcast_result)

    unfoldable pub post_query : String → J → Exec GmpCall GmpApiError String
    unfolding requested text_if_success
    post_query contract_address payload = do
      body ← lift (
          map_err (λ e. GmpApiError.generic_error (concat "Failed to serialize query payload: " e))
            (json.serialize payload))
      let q =
          post (url api ("/contracts/" ∷ contract_address ∷ "/queries" ∷ [])) "application/json"
            body
      requested q (a.server q) text_if_success

    -- `payload` in hexadecimal
    unfoldable pub post_payload : String → Exec GmpCall GmpApiError String
    unfolding requested json_if_success trim_start_0x
    post_payload payload = do
      let q = post (url api ("/payloads" ∷ [])) "application/octet-stream" payload
      keccak256 ← requested q (a.server q) (json_if_success json.read_keccak)
      pure (trim_start_0x keccak256)

    unfoldable pub get_payload : String → Exec GmpCall GmpApiError String
    unfolding requested bytes_if_success
    get_payload hash = do
      let q = get (url api ("/payloads/0x" ∷ to_lowercase hash ∷ [])) none
      requested q (a.server q) bytes_if_success

    unfoldable pub cannot_execute_message :
        String
        → String
        → String
        → String
        → CannotExecuteMessageReason
        → Exec GmpCall GmpApiError (Unit {0})
    unfolding post_events map_cannot_execute_message_to_event
    cannot_execute_message id message_id source_chain details reason = do
      post_events
          (map_cannot_execute_message_to_event id message_id source_chain details reason ∷ [])
      pure tt
