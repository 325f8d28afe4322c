-- ===== src/Gmp/Api/Broadcasts.antt =====
-- How relayer_base/src/gmp_api/mod.rs waits for the result of a broadcast.
use mathlib.Core.List.{append-nil}
use axelar_relayer.Base.{
  ℕ, zero, suc, ◌+◌, ◌*◌, ◌<◌, ◌≤◌, ◌≡◌, refl, arith, Bool, true, false, String, concat, Option,
  none, some, List, [], ◌∷◌, Result, ok, err, map_err, and_then, Outcome, done, fail, Exec, ◌>>=◌,
  attempt, lift, after, outcome, calls, count_if,
}
use axelar_relayer.Gmp.Errors.{GmpApiError}
use axelar_relayer.Gmp.Api.{
  get, post, url, text_field, text_if_success, post_broadcast, settled_broadcast, GmpCall, send,
  sleep, Response, Json, GmpApi, Answers, received, finished, json_if_success, requested, read_poll,
  poll_broadcast, polls_allowed, get_broadcast_result, broadcast_poll_interval_seconds,
}

abbrev pub is_send : GmpCall → Bool
is_send (send _) = true
is_send (sleep _) = false

abbrev pub slept : List GmpCall → ℕ
slept [] = 0
slept (send _ ∷ cs) = slept cs
slept (sleep n ∷ cs) = n + slept cs

abbrev pub outcome_of : {A E : Type 0} → Result A E → Outcome A E
outcome_of (ok a) = done a
outcome_of (err e) = fail e

module _ {J : Type 0} (json : Json J) (a : Answers) where
  -- The answer to the poll with a number, as the loop reads it: `none` where it goes on.
  abbrev pub ending : ℕ → Option (Result String GmpApiError)
  ending n =
      elim (and_then (map_err GmpApiError.request_failed (a.polled n))
        (json_if_success json.from_str)) [
          | err e ↦ some (err e)
          | ok response ↦ elim (read_poll json response) [ received ↦ none | finished r ↦ some r ]
        ]

  module _ (api : GmpApi) where
    poll-ends :
        (left retries : ℕ) (u b : String) (r : Result String GmpApiError)
        → ending retries ≡ some r
        → poll_broadcast json api a (suc left) retries u b ≡ (outcome_of r, send (get u none) ∷ [])
    unfolding poll_broadcast requested
    poll-ends left retries u b r e = ground arith

    poll-goes_on :
        (left retries : ℕ) (u b : String)
        → ending retries ≡ none
        → poll_broadcast json api a (suc left) retries u b
          ≡ after
              (send (get u none) ∷ sleep broadcast_poll_interval_seconds ∷ [])
              (poll_broadcast json api a left (retries + 1) u b)
    unfolding poll_broadcast requested
    poll-goes_on left retries u b e = ground arith

    waits :
        (n left retries m : ℕ) (u b : String) (r : Result String GmpApiError)
        → n < left
        → m ≡ retries + n
        → ((k : ℕ) → retries ≤ k → k < m → ending k ≡ none)
        → ending m ≡ some r
        → (outcome (poll_broadcast json api a left retries u b) ≡ outcome_of r)
          × (count_if is_send (calls (poll_broadcast json api a left retries u b)) ≡ n + 1)
          × (slept (calls (poll_broadcast json api a left retries u b)) ≡ n * 2)
    waits n zero retries m u b r h e before last = absurd (omega arith)
    waits zero (suc left) retries m u b r h e before last =
        let here : m ≡ retries = omega (arith, e) in
        let now : ending retries ≡ some r = rw here at last in
        rw (poll-ends left retries u b r now) (refl, omega arith, omega arith)
    waits (suc n) (suc left) retries m u b r h e before last =
        let (o, c, t) =
          waits n left (retries + 1) m u b r (omega arith) (omega (arith, e))
            (λ k low high. before k (omega arith) high) last in
        rw (poll-goes_on left retries u b (before retries (omega arith) (omega (arith, e))))
          (o, omega (arith, c), omega (arith, t))

    polls-out :
        (retries : ℕ) (u b : String)
        → poll_broadcast json api a zero retries u b
          ≡ (fail (GmpApiError.timeout (concat "Broadcast with id " (concat b " timed out"))), [])
    unfolding poll_broadcast
    polls-out retries u b = refl

    times_out :
        (left retries : ℕ) (u b : String)
        → ((k : ℕ) → retries ≤ k → k < retries + left → ending k ≡ none)
        → (outcome (poll_broadcast json api a left retries u b)
            ≡ fail (GmpApiError.timeout (concat "Broadcast with id " (concat b " timed out"))))
          × (count_if is_send (calls (poll_broadcast json api a left retries u b)) ≡ left)
          × (slept (calls (poll_broadcast json api a left retries u b)) ≡ left * 2)
    times_out zero retries u b none_ends = rw (polls-out retries u b) (refl, refl, omega arith)
    times_out (suc left) retries u b none_ends =
        let (o, c, t) =
          times_out left (retries + 1) u b
            (λ k low high. none_ends k (omega arith) (omega arith)) in
        rw (poll-goes_on left retries u b (none_ends retries (omega arith) (omega arith)))
          (o, omega (arith, c), omega (arith, t))

    -- The result of a broadcast is what the first poll gives whose answer is not `RECEIVED`, if it is
    -- one of the first 31: its hash or its error, behind as many requests as its number, with two
    -- seconds before each but the first.
    pub first_ending :
        (n : ℕ) (contract id : String) (r : Result String GmpApiError)
        → n < 31
        → ((k : ℕ) → k < n → ending k ≡ none)
        → ending n ≡ some r
        → (outcome (get_broadcast_result json api a contract id) ≡ outcome_of r)
          × (count_if is_send (calls (get_broadcast_result json api a contract id)) ≡ n + 1)
          × (slept (calls (get_broadcast_result json api a contract id)) ≡ n * 2)
    unfolding get_broadcast_result
    first_ending n contract id r h before last =
        waits n (polls_allowed) 0 n _ id r h (omega arith) (λ k low high. before k high) last

    abbrev finish : Exec GmpCall GmpApiError String → Exec GmpCall GmpApiError String
    finish m = do r ← attempt m; lift (settled_broadcast r)

    post_broadcast-accepted :
        (contract id body text : String) (payload response : J) (accepted : Response)
        → json.serialize payload ≡ ok body
        → a.server
            (post (url api ("/contracts/" ∷ contract ∷ "/broadcasts" ∷ [])) "application/json" body)
          ≡ ok accepted
        → text_if_success accepted ≡ ok text
        → json.from_str text ≡ ok response
        → text_field json response "broadcastID" "Missing 'broadcastID' field"
            "'broadcastID' field is not a string"
          ≡ ok id
        → post_broadcast json api a contract payload
          ≡ after
              (send (
                  post
                    (url api ("/contracts/" ∷ contract ∷ "/broadcasts" ∷ []))
                    "application/json"
                    body)
                ∷ [])
              (finish (get_broadcast_result json api a contract id))
    unfolding post_broadcast requested
    post_broadcast-accepted contract id body text payload response accepted s p t f i =
        rw (post_broadcast, s, p, t, f, i)

    finish_timeout :
        (m : Exec GmpCall GmpApiError String) (x : String)
        → outcome m ≡ fail (GmpApiError.timeout x)
        → (outcome (finish m) ≡ done "timeout") × (calls (finish m) ≡ calls m)
    unfolding settled_broadcast
    finish_timeout (o, cs) x e = rw e (refl, append-nil cs)

    result_times_out :
        (contract id : String)
        → ((k : ℕ) → k < 31 → ending k ≡ none)
        → (outcome (get_broadcast_result json api a contract id)
            ≡ fail (GmpApiError.timeout (concat "Broadcast with id " (concat id " timed out"))))
          × (count_if is_send (calls (get_broadcast_result json api a contract id)) ≡ 31)
          × (slept (calls (get_broadcast_result json api a contract id)) ≡ 62)
    unfolding get_broadcast_result
    result_times_out contract id none_ends =
        times_out polls_allowed 0 (url api ("/contracts/" ∷ contract ∷ "/broadcasts/" ∷ id ∷ [])) id
          (λ k low high. none_ends k high)

    -- A broadcast that the API accepts, and whose first 31 polls are all answered `RECEIVED`, counts
    -- as done: after 62 seconds `post_broadcast` gives the text "timeout" for the transaction's hash.
    pub timeout_for_hash :
        (contract id body text : String) (payload response : J) (accepted : Response)
        → json.serialize payload ≡ ok body
        → a.server
            (post (url api ("/contracts/" ∷ contract ∷ "/broadcasts" ∷ [])) "application/json" body)
          ≡ ok accepted
        → text_if_success accepted ≡ ok text
        → json.from_str text ≡ ok response
        → text_field json response "broadcastID" "Missing 'broadcastID' field"
            "'broadcastID' field is not a string"
          ≡ ok id
        → ((k : ℕ) → k < 31 → ending k ≡ none)
        → (outcome (post_broadcast json api a contract payload) ≡ done "timeout")
          × (count_if is_send (calls (post_broadcast json api a contract payload)) ≡ 32)
          × (slept (calls (post_broadcast json api a contract payload)) ≡ 62)
    timeout_for_hash contract id body text payload response accepted s p t f i none_ends =
        let m : Exec GmpCall GmpApiError String = get_broadcast_result json api a contract id in
        let (o, c, w) = result_times_out contract id none_ends in
        let (o', c') = finish_timeout m (concat "Broadcast with id " (concat id " timed out")) o in
        rw
          (
            post_broadcast-accepted contract id body text payload response accepted s p t f i,
            o',
            c',
          )
          (refl, omega (arith, c), omega (arith, w))
