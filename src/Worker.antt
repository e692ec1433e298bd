-- ===== src/Worker.antt =====
-- backend/app/workers/runner.py: one consumer that claims a task, runs its handler in a transaction
-- and records how it ended; and the hourly scheduling of discoveries. The state is the queue's table
-- with the rest of the database, of which the model knows nothing (`D`). Handlers are arguments.
pub mod Runs
pub mod Schedule
use career_pilot_ai.Prelude.{
  ℕ, zero, suc, ◌+◌, ◌*◌, ◌/◌, String, Bool, true, false, Option, none, some, List, [], ◌∷◌, ltb,
  leb, ◌==◌, if◌then◌else◌, keep_if, is_some,
}
use Prim.Native.String.{◌++◌ as concat}
use career_pilot_ai.Queue.{Status, Task, Table, NewTask, enqueue, claim, complete}
use career_pilot_ai.Queue.Retry.{second, fail}

-- How the body of a session ends, a handler's for one: it returns or it raises, each with the writes
-- that the session holds then.
pub data HandlerResult (S : Type 0) : Type 0 where
  returned : S → HandlerResult S
  raised_rate_limited : String → Option ℕ → S → HandlerResult S
  raised : String → S → HandlerResult S

-- `session_scope` around a body: committed when the body returns, rolled back to what was there
-- before when it raises
unfoldable pub session_scope : {S : Type 0} → S → HandlerResult S → HandlerResult S
session_scope before (returned after) = returned after
session_scope before (raised_rate_limited error retry_after written) =
    raised_rate_limited error retry_after before
session_scope before (raised error written) = raised error before

-- The database: the queue's table, and the other tables.
pub record Database (D : Type 0) : Type 0 where
  pub queue : Table
  pub rest : D

-- The clock when each statement of one round runs, and what other workers have locked.
pub record Clock : Type 0 where
  pub claimed_at : ℕ
  pub completed_at : ℕ
  pub failed_at : ℕ

-- `timedelta(seconds=exc.retry_after) if exc.retry_after else None`, in microseconds
pub retry_delta : Option ℕ → Option ℕ
retry_delta none = none
retry_delta (some zero) = none
retry_delta (some (suc n)) = some (suc n)

-- f"no handler registered for '{task.task_type}'"
pub no_handler : String → String
no_handler task_type = concat "no handler registered for '" (concat task_type "'")

module _ {D : Type 0} (handlers : String → Option (Task → Database D → HandlerResult (Database D)))
    (schedule : List ℕ) where
  pub fail_in : ℕ → Task → String → Option ℕ → Database D → Database D
  fail_in now task error retry_after db = record db {
    queue = (fail now task error schedule retry_after db.queue).1;
  }

  -- the statement that follows the handler in its session
  pub complete_in : Clock → Task → HandlerResult (Database D) → HandlerResult (Database D)
  complete_in clock task (returned db) =
      returned (record db { queue = complete clock.completed_at task.id db.queue })
  complete_in clock task (raised_rate_limited error retry_after db) =
      raised_rate_limited error retry_after db
  complete_in clock task (raised error db) = raised error db

  -- the `except` clauses, each with a session of its own on what the one before left
  pub settle : Clock → Task → HandlerResult (Database D) → Database D
  unfolding fail_in retry_delta
  settle clock task (returned db) = db
  settle clock task (raised_rate_limited error retry_after db) =
      fail_in clock.failed_at task error (retry_delta retry_after) db
  settle clock task (raised error db) = fail_in clock.failed_at task error none db

  -- the second transaction of a round, and the third where the second raised
  pub finish : Clock → Task → HandlerResult (Database D) → Database D → Database D
  unfolding session_scope complete_in settle
  finish clock task result db = settle clock task (session_scope db (complete_in clock task result))

  pub execute :
      Clock
      → Task
      → Option (Task → Database D → HandlerResult (Database D))
      → Database D
      → Database D
  unfolding finish fail_in
  execute clock task none db = fail_in clock.failed_at task (no_handler task.task_type) none db
  execute clock task (some handler) db = finish clock task (handler task db) db

  pub round : Clock → Option Task → Database D → Bool × Database D
  unfolding execute
  round clock none db = (false, db)
  round clock (some task) db = (true, execute clock task (handlers task.task_type) db)

  -- `Worker.run_once`: false when the queue is idle
  unfoldable pub run_once : Clock → (ℕ → Bool) → String → Database D → Bool × Database D
  unfolding round
  run_once clock locked worker db =
      let (task, queue) = claim clock.claimed_at locked worker [] db.queue in
      round clock task (record db { queue = queue })

-- A row of `job_sources`.
pub record Source : Type 0 where
  pub id : String
  pub tier : ℕ
  pub enabled : Bool
  pub last_run_at : Option ℕ

-- `enabled AND (last_run_at IS NULL OR last_run_at < now() - interval)`
pub is_due : ℕ → ℕ → Source → Bool
is_due now interval source =
    if source.enabled
    then elim source.last_run_at [ none ↦ true | some at ↦ ltb (at + interval) now ]
    else false

-- `last_run_at NULLS FIRST`
pub runs_before : Option ℕ → Option ℕ → Bool
runs_before none b = true
runs_before (some a) none = false
runs_before (some a) (some b) = leb a b

pub insert_source : Source → List Source → List Source
insert_source s [] = s ∷ []
insert_source s (t ∷ ts) =
    if runs_before s.last_run_at t.last_run_at then s ∷ t ∷ ts else t ∷ insert_source s ts

pub order_sources : List Source → List Source
unfolding insert_source runs_before
order_sources [] = []
order_sources (s ∷ ss) = insert_source s (order_sources ss)

-- `discover_key` is the text `discover:{id}:{bucket}`, and `fresh` the generated primary key
module _ (discover_key : String → ℕ → String) (fresh : Table → ℕ) where
  pub discovery : ℕ → Source → NewTask
  discovery bucket source = record {
    task_type = "discover";
    payload = source.id;
    priority = if source.tier == 1 then 10 else 0;
    run_after = none;
    dedup_key = some (discover_key source.id bucket);
    max_attempts = 4;
  }

  pub enqueue_each : ℕ → ℕ → List Source → ℕ → Table → ℕ × Table
  unfolding discovery
  enqueue_each now bucket [] queued table = (queued, table)
  enqueue_each now bucket (source ∷ sources) queued table =
      let (id, table') = enqueue (fresh table) now (discovery bucket source) table in
      enqueue_each now bucket sources (if is_some id then queued + 1 else queued) table'

  -- How many discoveries were queued, and the new table.
  unfoldable pub enqueue_due_discoveries : ℕ → ℕ → List Source → Table → ℕ × Table
  unfolding enqueue_each is_due order_sources
  enqueue_due_discoveries now interval_minutes sources table =
      let interval = interval_minutes * 60 * second in
      enqueue_each now (now / interval) (order_sources (keep_if (is_due now interval) sources)) 0
        table

-- `Worker.run_source_now`; `manual_key` is the text `discover:manual:{id}:{minute}`
unfoldable pub run_source_now :
    (String → ℕ → String) → (Table → ℕ) → ℕ → String → Table → Option ℕ × Table
run_source_now manual_key fresh now source_id table =
    enqueue (fresh table) now
      (record {
        task_type = "discover";
        payload = source_id;
        priority = 20;
        run_after = none;
        dedup_key = some (manual_key source_id (now / (60 * second)));
        max_attempts = 4;
      })
      table
