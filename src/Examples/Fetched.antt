-- ===== src/Examples/Fetched.antt =====
-- Requests, their budget and the robots rules at concrete inputs. The server is concrete.
use career_pilot_ai.Prelude.{
  ℕ, zero, suc, ◌≤◌, ◌≡◌, refl, String, Bool, true, false, none, some, List, [], ◌∷◌, ◌++◌,
  count_if, arith,
}
use career_pilot_ai.Http.{
  ConditionalState, Response, Answer, transport_error, answered, returned, request, update,
}
use career_pilot_ai.Http.Attempts.{IsExplained, request-IsExplained}
use career_pilot_ai.Http.Budget.{
  consume, waiting, granted, Spent, begin, grant, wait, is_recent, Spent-bounded,
}

abbrev reply : ℕ → Response
reply code = record {
  status_code = code;
  retry_after = none;
  etag = some "tag";
  last_modified = none;
  lines = [];
}

-- fails, throttles, and answers
abbrev server : ℕ → Answer
server (suc zero) = transport_error
server (suc (suc zero)) = answered (reply 429)
server _ = answered (reply 200)

abbrev blank : ConditionalState
blank = record { etag = none; last_modified = none }

third_time : request server 3 none blank ≡ record {
  result = returned (reply 200);
  sleeps = 1000 ∷ 5000 ∷ [];
  calls = 3;
  conditional = record { etag = some "tag"; last_modified = none };
}
unfolding request update
third_time = refl

request-IsExplained_example : IsExplained server none blank 0 3 (request server 3 none blank)
request-IsExplained_example = request-IsExplained server none blank 3

one_now : consume 1 5 [] ≡ granted (5 ∷ [])
unfolding consume
one_now = refl

two_wait : consume 1 10 (5 ∷ []) ≡ waiting (5 ∷ []) 60000
unfolding consume
two_wait = refl

rounds : Spent 1 10 ([] ++ 5 ∷ []) (5 ∷ [])
rounds = wait 10 (grant 5 begin (omega arith) one_now) (omega arith) two_wait

Spent-bounded_example : count_if (is_recent 20) ([] ++ 5 ∷ []) ≤ 1
Spent-bounded_example = Spent-bounded 1 (omega arith) 20 rounds (omega arith)

abbrev parser : List String → String → Bool
parser [] link = true
parser (l ∷ ls) link = false
