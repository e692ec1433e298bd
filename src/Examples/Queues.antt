-- ===== src/Examples/Queues.antt =====
-- backend/app/db/queue.py and backend/app/workers/runner.py at concrete inputs.
use career_pilot_ai.Prelude.{
  ℕ, ◌≡◌, ◌≢◌, refl, String, Bool, true, false, Option, some, none, List, [], ◌∷◌, length,
}
use career_pilot_ai.Queue.{pending, Row, Task, Table, NewTask, claim}
use career_pilot_ai.Queue.Claiming.{Claimed, claim-Claimed, claim_exclusive}
use career_pilot_ai.Queue.Consistency.{IsConsistent}
use career_pilot_ai.Queue.Steps.{claimed, start, step, Reach-IsConsistent}
use career_pilot_ai.Worker.{HandlerResult, raised, Database, Clock, run_once, Source}
use career_pilot_ai.Worker.Runs.{
  IsSettled, others, by_error, run_once-IsSettled, run_once_rolls_back,
}

abbrev verify : NewTask
verify = record {
  task_type = "verify";
  payload = "{}";
  priority = 5;
  run_after = none;
  dedup_key = some "k";
  max_attempts = 3;
}

abbrev keyless : NewTask
keyless = record verify { dedup_key = none }

abbrev waiting : ℕ → Row
waiting id = record {
  id = id;
  task_type = "verify";
  payload = "{}";
  dedup_key = none;
  priority = 5;
  status = pending;
  attempts = 0;
  max_attempts = 3;
  run_after = 0;
  locked_at = none;
  locked_by = none;
  last_error = none;
  updated_at = 0;
}

abbrev two_rows : Table
two_rows = waiting 1 ∷ waiting 2 ∷ []

abbrev task : ℕ → Task
task id = record { id = id; task_type = "verify"; payload = "{}"; attempts = 1; max_attempts = 3 }

abbrev free : ℕ → Bool
free id = false

claim-Claimed_example :
    Claimed 10 free "w" [] two_rows
      (claim 10 free "w" [] two_rows).0
      (claim 10 free "w" [] two_rows).1
claim-Claimed_example = claim-Claimed 10 free "w" [] two_rows

first_claim : (claim 10 free "w" [] two_rows).0 ≡ some (task 1)
unfolding claim
first_claim = refl

second_claim : (claim 11 free "v" [] (claim 10 free "w" [] two_rows).1).0 ≡ some (task 2)
unfolding claim
second_claim = refl

claim_exclusive_example : (task 1).id ≢ (task 2).id
claim_exclusive_example =
    claim_exclusive 10 11 free free "w" "v" [] [] two_rows first_claim second_claim

abbrev schedule : List ℕ
schedule = 60 ∷ []

abbrev no_delay : Option ℕ
no_delay = none

two_rows-IsConsistent : IsConsistent two_rows
two_rows-IsConsistent = record {
  ids = (((λ e. absurd cc), tt), (tt, tt));
  keys = (((λ e. absurd cc), tt), (tt, tt));
}

Reach-IsConsistent_example : IsConsistent (claim 10 free "w" [] two_rows).1
Reach-IsConsistent_example =
    Reach-IsConsistent two_rows-IsConsistent (step start (claimed 10 free "w" []))

abbrev one_row : Database ℕ
one_row = record { queue = two_rows; rest = 7 }

abbrev clock : Clock
clock = record { claimed_at = 10; completed_at = 12; failed_at = 13 }

abbrev breaks : Task → Database ℕ → HandlerResult (Database ℕ)
breaks task db = raised "boom" (record db { rest = 99 })

abbrev handlers : String → Option (Task → Database ℕ → HandlerResult (Database ℕ))
handlers type = some breaks

run_once-IsSettled_example : IsSettled 1 (run_once handlers schedule clock free "w" one_row).1.queue
run_once-IsSettled_example =
    run_once-IsSettled handlers schedule clock free "w" one_row (task 1) first_claim

run_once_rolls_back_example :
    ((run_once handlers schedule clock free "w" one_row).1.rest ≡ 7)
    × (others 1 (run_once handlers schedule clock free "w" one_row).1.queue ≡ others 1 two_rows)
run_once_rolls_back_example =
    run_once_rolls_back handlers schedule clock free "w" one_row (task 1) breaks first_claim refl
      (λ db. by_error)

abbrev daily : Source
daily = record { id = "s"; tier = 1; enabled = true; last_run_at = none }

abbrev one_key : String → ℕ → String
one_key id bucket = id

abbrev next_id : Table → ℕ
next_id table = length table
