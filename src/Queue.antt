-- ===== src/Queue.antt =====
-- backend/app/db/queue.py: the durable task queue, one table and the statements on it.
-- A table is the list of its rows. All times and delays are whole microseconds; `now` is the
-- database's `now()`. The partial unique index on `dedup_key` is that of db/models.py.
pub mod Dedup
pub mod Claiming
pub mod Retry
pub mod Consistency
pub mod Steps
use career_pilot_ai.Prelude.{
  ℕ, zero, suc, ◌+◌, ◌-◌, ◌*◌, ◌/◌, String, Bool, true, false, ◌&&◌, ◌||◌, not, Option, none, some,
  List, [], ◌∷◌, ◌++◌, map, ltb, leb, ◌==◌, if◌then◌else◌, str_eq, any, keep_if, count_if, is_empty,
  get_elem?, length, or_else, prefix,
}

pub data Status : Type 0 where
  pending running done dead : Status

pub record Row : Type 0 where
  pub id : ℕ
  pub task_type : String
  pub payload : String
  pub dedup_key : Option String
  pub priority : ℕ
  pub status : Status
  pub attempts : ℕ
  pub max_attempts : ℕ
  pub run_after : ℕ
  pub locked_at : Option ℕ
  pub locked_by : Option String
  pub last_error : Option String
  pub updated_at : ℕ

-- What a worker gets of a claimed row.
pub record Task : Type 0 where
  pub id : ℕ
  pub task_type : String
  pub payload : String
  pub attempts : ℕ
  pub max_attempts : ℕ

abbrev pub Table : Type 0
Table = List Row

-- `status IN ('pending', 'running')`
abbrev pub is_live : Status → Bool
is_live pending = true
is_live running = true
is_live done = false
is_live dead = false

abbrev pub is_pending : Status → Bool
is_pending pending = true
is_pending _ = false

abbrev pub is_running : Status → Bool
is_running running = true
is_running _ = false

-- SQL's `=` on a nullable text: NULL equals nothing
abbrev pub same_key : Option String → Option String → Bool
same_key (some a) (some b) = str_eq a b
same_key _ _ = false

-- The arguments of `enqueue`.
pub record NewTask : Type 0 where
  pub task_type : String
  pub payload : String
  pub priority : ℕ
  pub run_after : Option ℕ
  pub dedup_key : Option String
  pub max_attempts : ℕ

-- a live row that the unique index would make the insert collide with
pub conflicts : Option String → Row → Bool
conflicts key row = is_live row.status && same_key key row.dedup_key

pub coalesce : Option ℕ → ℕ → ℕ
coalesce none d = d
coalesce (some n) d = n

pub new_row : ℕ → ℕ → NewTask → Row
unfolding coalesce
new_row id now task = record {
  id = id;
  task_type = task.task_type;
  payload = task.payload;
  dedup_key = task.dedup_key;
  priority = task.priority;
  status = pending;
  attempts = 0;
  max_attempts = task.max_attempts;
  run_after = coalesce task.run_after now;
  locked_at = none;
  locked_by = none;
  last_error = none;
  updated_at = now;
}

-- `INSERT ... ON CONFLICT DO NOTHING RETURNING id`; `id` is the generated key, fresh for the table
unfoldable pub enqueue : ℕ → ℕ → NewTask → Table → Option ℕ × Table
unfolding conflicts new_row
enqueue id now task table =
    if any (conflicts task.dedup_key) table
    then (none, table)
    else (some id, table ++ new_row id now task ∷ [])

-- the `WHERE` of the inner select; `locked` holds of the rows that other transactions have locked
pub is_claimable : ℕ → (ℕ → Bool) → List String → Row → Bool
is_claimable now locked types row =
    is_pending row.status
    && leb row.run_after now
    && (is_empty types || any (str_eq row.task_type) types)
    && not (locked row.id)

-- `ORDER BY priority DESC, run_after`
pub comes_before : Row → Row → Bool
comes_before a b =
    ltb b.priority a.priority || (a.priority == b.priority && ltb a.run_after b.run_after)

pub first_row : Row → List Row → Row
first_row best [] = best
first_row best (row ∷ rows) = first_row (if comes_before row best then row else best) rows

-- `UPDATE task_queue SET ... WHERE id = :id`
unfoldable pub update_row : ℕ → (Row → Row) → Table → Table
update_row id f = map (λ row. if row.id == id then f row else row)

unfoldable pub mark_running : ℕ → String → Row → Row
mark_running now worker row = record row {
  status = running;
  locked_at = some now;
  locked_by = some worker;
  attempts = row.attempts + 1;
  updated_at = now;
}

unfoldable pub task_of : Row → Task
task_of row = record {
  id = row.id;
  task_type = row.task_type;
  payload = row.payload;
  attempts = row.attempts;
  max_attempts = row.max_attempts;
}

pub claim_among : ℕ → String → List Row → Table → Option Task × Table
claim_among now worker [] table = (none, table)
claim_among now worker (row ∷ rows) table =
    let chosen = first_row row rows in
    (
      some (task_of (mark_running now worker chosen)),
      update_row chosen.id (mark_running now worker) table,
    )

unfoldable pub claim : ℕ → (ℕ → Bool) → String → List String → Table → Option Task × Table
unfolding is_claimable comes_before first_row update_row mark_running task_of claim_among
claim now locked worker types table =
    claim_among now worker (keep_if (is_claimable now locked types) table) table

unfoldable pub mark_done : ℕ → Row → Row
mark_done now row = record row {
  status = done;
  locked_at = none;
  locked_by = none;
  last_error = none;
  updated_at = now;
}

unfoldable pub complete : ℕ → ℕ → Table → Table
unfolding mark_done update_row
complete now id table = update_row id (mark_done now) table
