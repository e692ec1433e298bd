-- ===== src/Worker/Runs.antt =====
-- What one round of a worker leaves of its task, and of everything else.
use career_pilot_ai.Prelude.{
  ℕ, ◌≡◌, refl, ◌∙◌, String, Bool, false, inl, inr, Option, none, some, List, [], ◌∷◌, arith, All,
  keep_if, not, or_else, Bool-cases, ◌==◌, ==_iff,
}
use career_pilot_ai.Queue.{
  Row, Task, Table, is_running, update_row, mark_done, mark_running, claim, complete,
}
use career_pilot_ai.Queue.Claiming.{Claimed, nothing, taken, claim-Claimed, claimed_id}
use career_pilot_ai.Queue.Retry.{is_exhausted, backoff_delay, mark_dead, fail}
use career_pilot_ai.Worker.{
  HandlerResult, returned, raised, raised_rate_limited, Database, Clock, retry_delta, no_handler,
  finish, execute, round, run_once,
}

-- the rows of other tasks
abbrev pub others : ℕ → Table → Table
others id table = keep_if (λ r. not (r.id == id)) table

-- No row of the task is running.
abbrev pub IsSettled : ℕ → Table → Type 0
IsSettled id table = All (λ r. r.id ≡ id → is_running r.status ≡ false) table

-- a change of status that keeps the key
record Settling (f : Row → Row) : Type 0 where
  same_id : (r : Row) → (f r).id ≡ r.id
  stops : (r : Row) → is_running (f r).status ≡ false

update_row-IsSettled :
    (id : ℕ) (f : Row → Row) (table : Table) → Settling f → IsSettled id (update_row id f table)
unfolding update_row
update_row-IsSettled id f [] s = tt
update_row-IsSettled id f (row ∷ rows) s = elim (Bool-cases (row.id == id)) [
  | inl e ↦ rw e ((λ _. s.stops row), update_row-IsSettled id f rows s)
  | inr e ↦ rw e ((λ q. absurd (ground arith)), update_row-IsSettled id f rows s)
]

others-update_row :
    (id : ℕ) (f : Row → Row) (table : Table)
    → ((r : Row) → (f r).id ≡ r.id)
    → others id (update_row id f table) ≡ others id table
unfolding update_row
others-update_row id f [] k = refl
others-update_row id f (row ∷ rows) k = elim (Bool-cases (row.id == id)) [
  | inl e ↦ ground (arith, k row, others-update_row id f rows k, ==_iff row.id id)
  | inr e ↦ ground (arith, others-update_row id f rows k)
]

-- the test of `fail`
abbrev exhausted : Task → List ℕ → Option ℕ → Bool
exhausted task schedule retry_after =
    is_exhausted (or_else retry_after (backoff_delay task.attempts schedule)) task

fail-IsSettled :
    (now : ℕ) (task : Task) (error : String) (schedule : List ℕ) (retry_after : Option ℕ)
    (table : Table)
    → IsSettled task.id (fail now task error schedule retry_after table).1
unfolding fail
fail-IsSettled now task error schedule retry_after table =
    elim (Bool-cases (exhausted task schedule retry_after)) [
      | inl e ↦ rw e (
          update_row-IsSettled task.id (mark_dead now error) table
            (record { same_id = λ r. refl; stops = λ r. refl }))
      | inr e ↦
          rw e (
            update_row-IsSettled task.id _ table
              (record { same_id = λ r. refl; stops = λ r. refl }))
    ]

others-fail :
    (now : ℕ) (task : Task) (error : String) (schedule : List ℕ) (retry_after : Option ℕ)
    (table : Table)
    → others task.id (fail now task error schedule retry_after table).1 ≡ others task.id table
unfolding fail
others-fail now task error schedule retry_after table =
    elim (Bool-cases (exhausted task schedule retry_after)) [
      | inl e ↦ rw e (others-update_row task.id (mark_dead now error) table (λ r. refl))
      | inr e ↦ rw e (others-update_row task.id _ table (λ r. refl))
    ]

-- A handler that raises, at once or after any writes of its own.
pub data Raises {D : Type 0} : HandlerResult (Database D) → Type 0 where
  by_rate_limit :
      {error : String} {retry_after : Option ℕ} {written : Database D}
      → Raises (raised_rate_limited error retry_after written)
  by_error : {error : String} {written : Database D} → Raises (raised error written)

module _ {D : Type 0} (handlers : String → Option (Task → Database D → HandlerResult (Database D)))
    (schedule : List ℕ) where
  finish-IsSettled :
      (clock : Clock) (task : Task) (result : HandlerResult (Database D)) (db : Database D)
      → IsSettled task.id (finish handlers schedule clock task result db).queue
  unfolding finish
  finish-IsSettled clock task (returned db') db =
      unfold complete in
      update_row-IsSettled task.id (mark_done clock.completed_at) db'.queue
        (record { same_id = λ r. refl; stops = λ r. refl })
  finish-IsSettled clock task (raised_rate_limited error retry_after written) db =
      fail-IsSettled clock.failed_at task error schedule (retry_delta retry_after) db.queue
  finish-IsSettled clock task (raised error written) db =
      fail-IsSettled clock.failed_at task error schedule none db.queue

  execute-IsSettled :
      (clock : Clock) (task : Task)
      (handler : Option (Task → Database D → HandlerResult (Database D))) (db : Database D)
      → IsSettled task.id (execute handlers schedule clock task handler db).queue
  unfolding execute
  execute-IsSettled clock task none db =
      fail-IsSettled clock.failed_at task (no_handler task.task_type) schedule none db.queue
  execute-IsSettled clock task (some handler) db = finish-IsSettled clock task (handler task db) db

  -- However the handler of a claimed task ends, and also where there is no handler, a round leaves
  -- no row of the task running: it is done, dead or pending again.
  pub run_once-IsSettled :
      (clock : Clock) (locked : ℕ → Bool) (worker : String) (db : Database D) (task : Task)
      → (claim clock.claimed_at locked worker [] db.queue).0 ≡ some task
      → IsSettled task.id (run_once handlers schedule clock locked worker db).1.queue
  unfolding run_once round
  run_once-IsSettled clock locked worker db task h =
      rw h (execute-IsSettled clock task (handlers task.task_type) _)

  others-claim :
      (now : ℕ) (locked : ℕ → Bool) (worker : String) (table : Table) (task : Task)
      → (claim now locked worker [] table).0 ≡ some task
      → others task.id (claim now locked worker [] table).1 ≡ others task.id table
  others-claim now locked worker table task h = go (claim-Claimed now locked worker [] table) h
    where
      go :
          {o : Option Task} {after : Table}
          → Claimed now locked worker [] table o after
          → o ≡ some task
          → others task.id after ≡ others task.id table
      go (nothing a) e = cc
      go (taken row m c _ _ _ b) e = rw (← claimed_id now worker row task e) (
          others-update_row row.id (mark_running now worker) table
            (λ r. unfold mark_running in refl))

  -- A round whose handler raises, whatever it wrote before, leaves no trace of that: the rest of the database
  -- and the rows of all other tasks are as they were before the round.
  pub run_once_rolls_back :
      (clock : Clock) (locked : ℕ → Bool) (worker : String) (db : Database D) (task : Task)
      (handler : Task → Database D → HandlerResult (Database D))
      → (claim clock.claimed_at locked worker [] db.queue).0 ≡ some task
      → handlers task.task_type ≡ some handler
      → ((db' : Database D) → Raises (handler task db'))
      → ((run_once handlers schedule clock locked worker db).1.rest ≡ db.rest)
        × (others task.id (run_once handlers schedule clock locked worker db).1.queue
            ≡ others task.id db.queue)
  unfolding run_once round execute
  run_once_rolls_back clock locked worker db task handler h k r =
      rw (h, k) (go (handler task claimed) (r claimed))
    where
      claimed : Database D
      claimed = record db { queue = (claim clock.claimed_at locked worker [] db.queue).1 }

      go :
          (result : HandlerResult (Database D))
          → Raises result
          → ((finish handlers schedule clock task result claimed).rest ≡ db.rest)
            × (others task.id (finish handlers schedule clock task result claimed).queue
                ≡ others task.id db.queue)
      go (returned db') x = elim x [ ]
      go (raised_rate_limited error retry_after written) x =
          unfold finish in
          (
            refl,
            others-fail clock.failed_at task error schedule (retry_delta retry_after) claimed.queue
                ∙ others-claim clock.claimed_at locked worker db.queue task h,
          )
      go (raised error written) x =
          unfold finish in
          (
            refl,
            others-fail clock.failed_at task error schedule none claimed.queue
                ∙ others-claim clock.claimed_at locked worker db.queue task h,
          )
