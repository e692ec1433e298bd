-- ===== src/Http.antt =====
-- backend/app/adapters/http.py: conditional state, the attempts of a request, the budget of requests
-- per minute, and the cache of robots rules. Spans and instants are in milliseconds. What a server
-- answers at each attempt, with its `Retry-After` already read, and the clock are arguments.
pub mod Attempts
pub mod Budget
pub mod Robots
use career_pilot_ai.Prelude.{
  ℕ, zero, suc, ◌*◌, min, String, Bool, true, false, ◌&&◌, ◌||◌, Option, none, some, List, [], ◌∷◌,
  ◌++◌, ltb, leb, ◌==◌, if◌then◌else◌, or_else, str_eq,
}

pub record ConditionalState : Type 0 where
  pub etag : Option String
  pub last_modified : Option String

pub record Response : Type 0 where
  pub status_code : ℕ
  pub retry_after : Option ℕ
  pub etag : Option String
  pub last_modified : Option String
  pub lines : List String

-- an absent or empty value sends no header
abbrev pub header : String → Option String → List (String × String)
header name none = []
header name (some value) = if str_eq value "" then [] else (name, value) ∷ []

unfoldable pub headers : ConditionalState → List (String × String)
headers c = header "If-None-Match" c.etag ++ header "If-Modified-Since" c.last_modified

unfoldable pub update : Response → ConditionalState → ConditionalState
update r c = record {
  etag = or_else r.etag c.etag;
  last_modified = or_else r.last_modified c.last_modified;
}

-- what one call of the transport gives
pub data Answer : Type 0 where
  transport_error : Answer
  answered : Response → Answer

pub data Requested : Type 0 where
  returned : Response → Requested
  rate_limited : Option ℕ → Requested
  unavailable : Requested

-- How a request ends: its result, the sleeps between the attempts, how often the transport was
-- called, and the conditional state that is left.
pub record Ended : Type 0 where
  pub result : Requested
  pub sleeps : List ℕ
  pub calls : ℕ
  pub conditional : ConditionalState

abbrev pub is_throttled : ℕ → Bool
is_throttled code = code == 429 || code == 503

abbrev pub is_server_error : ℕ → Bool
is_server_error code = leb 500 code && ltb code 600

-- `retry_after or backoff`, where a wait of 0 is no wait
abbrev pub wanted_wait : Option ℕ → ℕ → ℕ
wanted_wait none backoff = backoff
wanted_wait (some wait) backoff = if wait == 0 then backoff else wait

abbrev pub exceeds : ℕ → Option ℕ → Bool
exceeds wait none = false
exceeds wait (some budget) = ltb budget wait

-- `retry_after if retry_after is not None else backoff`, slept for two minutes at most
abbrev pub throttle_sleep : Option ℕ → ℕ → ℕ
throttle_sleep none backoff = min backoff 120000
throttle_sleep (some wait) backoff = min wait 120000

abbrev pub slept : ℕ → Ended → Ended
slept wait e = record e { sleeps = wait ∷ e.sleeps; calls = suc e.calls }

abbrev pub ended : Requested → ConditionalState → Ended
ended result conditional = record {
  result = result;
  sleeps = [];
  calls = 1;
  conditional = conditional;
}

-- One attempt; `rest` is the loop after a sleep, and `last` holds of the last attempt.
unfoldable pub attempt : Option ℕ → Bool → ℕ → ConditionalState → Answer → Ended → Ended
attempt max_retry_wait last backoff conditional transport_error rest = slept backoff rest
attempt max_retry_wait last backoff conditional (answered r) rest =
    if is_throttled r.status_code
    then (if exceeds (wanted_wait r.retry_after backoff) max_retry_wait
        then ended (rate_limited r.retry_after) conditional
        else if last
        then ended (rate_limited r.retry_after) conditional
        else slept (throttle_sleep r.retry_after backoff) rest)
    else if is_server_error r.status_code
    then (if last then ended unavailable conditional else slept backoff rest)
    else ended (returned r) (update r conditional)

-- The attempts that are left, from the number of the next one on.
unfoldable pub attempts : (ℕ → Answer) → Option ℕ → ℕ → ℕ → ℕ → ConditionalState → Ended
unfolding attempt
attempts server max_retry_wait zero number backoff conditional = record {
  result = unavailable;
  sleeps = [];
  calls = 0;
  conditional = conditional;
}
attempts server max_retry_wait (suc left) number backoff conditional =
    attempt max_retry_wait (left == 0) backoff conditional (server number)
      (attempts server max_retry_wait left (suc number) (backoff * 5) conditional)

unfoldable pub request : (ℕ → Answer) → ℕ → Option ℕ → ConditionalState → Ended
unfolding attempts
request server max_retries max_retry_wait conditional =
    attempts server max_retry_wait max_retries 1 1000 conditional
