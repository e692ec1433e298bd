-- ===== src/Queue/Retry.antt =====
-- backend/app/db/queue.py: what happens to a task that failed, or whose worker died.
pub mod Schedule
use career_pilot_ai.Prelude.{
  ℕ, zero, suc, ◌+◌, ◌-◌, ◌*◌, ◌/◌, String, Bool, true, false, ◌&&◌, ◌||◌, Option, none, some, List,
  [], ◌∷◌, map, ltb, leb, if◌then◌else◌, count_if, get_elem?, or_else, prefix,
}
use career_pilot_ai.Queue.{
  Status, pending, running, done, dead, Row, Task, Table, update_row, is_running,
}

abbrev pub second : ℕ
second = 1_000_000

-- `attempts` counts the attempt that failed, so the first failure waits `schedule[0]` minutes
unfoldable pub backoff_delay : ℕ → List ℕ → Option ℕ
backoff_delay zero schedule = none
backoff_delay (suc index) schedule = elim (get_elem? schedule index) [
  | none ↦ none
  | some minutes ↦ some (minutes * 60 * second)
]

unfoldable pub mark_dead : ℕ → String → Row → Row
mark_dead now error row = record row {
  status = dead;
  locked_at = none;
  locked_by = none;
  last_error = some (prefix 2000 error);
  updated_at = now;
}

-- the delay is written in whole seconds, `int(delay.total_seconds())`
unfoldable pub mark_retry : ℕ → ℕ → String → Row → Row
mark_retry now delay error row = record row {
  status = pending;
  locked_at = none;
  locked_by = none;
  run_after = now + delay / second * second;
  last_error = some (prefix 2000 error);
  updated_at = now;
}

abbrev pub is_exhausted : Option ℕ → Task → Bool
is_exhausted none task = true
is_exhausted (some delay) task = leb task.max_attempts task.attempts

abbrev pub value_of : Option ℕ → ℕ
value_of none = 0
value_of (some n) = n

-- The status that the row is left in, and the new table.
unfoldable pub fail : ℕ → Task → String → List ℕ → Option ℕ → Table → Status × Table
unfolding mark_dead mark_retry update_row
fail now task error schedule retry_after table =
    let delay = or_else retry_after (backoff_delay task.attempts schedule) in
    if is_exhausted delay task
    then (dead, update_row task.id (mark_dead now error) table)
    else (pending, update_row task.id (mark_retry now (value_of delay) error) table)

-- `locked_at < now() - timeout`; NULL is not less than anything
abbrev pub is_older : ℕ → ℕ → Option ℕ → Bool
is_older now timeout none = false
is_older now timeout (some at) = ltb (at + timeout) now

pub is_stale : ℕ → ℕ → Row → Bool
is_stale now timeout row = is_running row.status && is_older now timeout row.locked_at

pub or_text : Option String → String → String
or_text none d = d
or_text (some s) d = s

pub reclaim : ℕ → Row → Row
unfolding or_text
reclaim now row = record row {
  status = pending;
  locked_at = none;
  locked_by = none;
  last_error = some (or_text row.last_error "reclaimed after stale lock");
  updated_at = now;
}

pub reclaim_stale : ℕ → ℕ → Row → Row
reclaim_stale now timeout row = if is_stale now timeout row then reclaim now row else row

-- How many rows were reclaimed, and the new table.
unfoldable pub reap_stale : ℕ → ℕ → Table → ℕ × Table
unfolding is_stale reclaim reclaim_stale
reap_stale now lock_timeout_minutes table =
    let timeout = lock_timeout_minutes * 60 * second in
    (count_if (is_stale now timeout) table, map (reclaim_stale now timeout) table)

abbrev pub same_status : Status → Status → Bool
same_status pending pending = true
same_status running running = true
same_status done done = true
same_status dead dead = true
same_status _ _ = false

-- `SELECT status, count(*) GROUP BY status`, read at one status
unfoldable pub depth : Status → Table → ℕ
depth status table = count_if (λ row. same_status status row.status) table
