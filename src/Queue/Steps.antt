-- ===== src/Queue/Steps.antt =====
-- Every history of the queue, by any number of workers, as a sequence of its statements.
use career_pilot_ai.Prelude.{
  ℕ, ◌*◌, ◌≡◌, ◌≢◌, refl, String, Bool, true, inl, inr, Option, List, [], ◌∷◌, arith, All, All-mono,
  any, sym, subst, or_else, Bool-cases,
}
use career_pilot_ai.Queue.{
  Row, Task, Table, NewTask, is_live, conflicts, new_row, enqueue, is_claimable, mark_running,
  mark_done, claim, complete,
}
use career_pilot_ai.Queue.Dedup.{enqueue-IsUnique}
use career_pilot_ai.Queue.Claiming.{Claimed, nothing, taken, claim-Claimed}
use career_pilot_ai.Queue.Retry.{
  second, mark_dead, is_exhausted, backoff_delay, fail, reclaim_stale, reap_stale,
}
use career_pilot_ai.Queue.Consistency.{
  Settles, IsConsistent, map-IsUnique, same_id, map-HasDistinctIds, update_row-IsConsistent,
  append-HasDistinctIds,
}

-- One statement of a worker, the scheduler or the API.
pub data Step (table : Table) : Table → Type 0 where
  enqueued :
      (id now : ℕ) (task : NewTask)
      → All (λ r. r.id ≢ id) table
      → Step table (enqueue id now task table).1
  claimed :
      (now : ℕ) (locked : ℕ → Bool) (worker : String) (types : List String)
      → Step table (claim now locked worker types table).1
  completed : (now id : ℕ) → Step table (complete now id table)
  failed :
      (now : ℕ) (task : Task) (error : String) (schedule : List ℕ) (retry_after : Option ℕ)
      → All (λ r. r.id ≡ task.id → is_live r.status ≡ true) table
      → Step table (fail now task error schedule retry_after table).1
  reaped : (now minutes : ℕ) → Step table (reap_stale now minutes table).1

enqueued-IsConsistent :
    (id now : ℕ) (task : NewTask) (table : Table)
    → All (λ r. r.id ≢ id) table
    → IsConsistent table
    → IsConsistent (enqueue id now task table).1
enqueued-IsConsistent id now task table f c = record {
  ids =
      unfold enqueue in
      elim (Bool-cases (any (conflicts task.dedup_key) table)) [
        | inl e ↦ rw e c.ids
        | inr e ↦
            rw e (append-HasDistinctIds (new_row id now task) table (unfold new_row in f) c.ids)
      ];
  keys = enqueue-IsUnique id now task table c.keys;
}

claimed-IsConsistent :
    (now : ℕ) (locked : ℕ → Bool) (worker : String) (types : List String) (table : Table)
    → IsConsistent table
    → IsConsistent (claim now locked worker types table).1
claimed-IsConsistent now locked worker types table c =
    go (claim-Claimed now locked worker types table)
  where
    live : (r : Row) → is_claimable now locked types r ≡ true → Settles (mark_running now worker) r
    live r h = unfold is_claimable mark_running in ground arith

    go :
        {o : Option Task} {after : Table}
        → Claimed now locked worker types table o after
        → IsConsistent after
    go (nothing a) = c
    go (taken row m d _ _ _ b) =
        update_row-IsConsistent row.id (mark_running now worker) table
          (λ r. unfold mark_running in refl)
          (All-mono table
            (λ r same q. subst (Settles (mark_running now worker)) (sym (same q)) (live row d))
            (same_id row table c.ids m))
          c

complete-IsConsistent :
    (now id : ℕ) (table : Table) → IsConsistent table → IsConsistent (complete now id table)
unfolding complete
complete-IsConsistent now id table c =
    update_row-IsConsistent id (mark_done now) table (λ r. refl) (settled table) c
  where
    settled : (rows : Table) → All (λ r. r.id ≡ id → Settles (mark_done now) r) rows
    settled [] = tt
    settled (r ∷ rows) = ((λ q. (refl, λ h. cc)), settled rows)

fail-IsConsistent :
    (now : ℕ) (task : Task) (error : String) (schedule : List ℕ) (retry_after : Option ℕ)
    (table : Table)
    → All (λ r. r.id ≡ task.id → is_live r.status ≡ true) table
    → IsConsistent table
    → IsConsistent (fail now task error schedule retry_after table).1
unfolding fail
fail-IsConsistent now task error schedule retry_after table l c =
    elim (Bool-cases
      (is_exhausted (or_else retry_after (backoff_delay task.attempts schedule)) task)) [
        | inl e ↦ rw e (
            update_row-IsConsistent task.id (mark_dead now error) table (λ r. refl)
              (All-mono table (λ r h q. (refl, λ _. h q)) l) c)
        | inr e ↦ rw e (
            update_row-IsConsistent task.id _ table (λ r. refl)
              (All-mono table (λ r h q. (refl, λ _. h q)) l) c)
      ]

reap_stale-IsConsistent :
    (now minutes : ℕ) (table : Table)
    → IsConsistent table
    → IsConsistent (reap_stale now minutes table).1
unfolding reap_stale
reap_stale-IsConsistent now minutes table c = record {
  ids = map-HasDistinctIds _ (λ r. ground arith) table c.ids;
  keys = map-IsUnique _ table (settled table) c.keys;
}
  where
    settled : (rows : Table) → All (Settles (reclaim_stale now (minutes * 60 * second))) rows
    settled [] = tt
    settled (r ∷ rows) = ((ground arith, ground arith), settled rows)

pub Step-IsConsistent : {s t : Table} → Step s t → IsConsistent s → IsConsistent t
Step-IsConsistent (enqueued id now task f) c = enqueued-IsConsistent id now task _ f c
Step-IsConsistent (claimed now locked worker types) c =
    claimed-IsConsistent now locked worker types _ c
Step-IsConsistent (completed now id) c = complete-IsConsistent now id _ c
Step-IsConsistent (failed now task error schedule retry_after l) c =
    fail-IsConsistent now task error schedule retry_after _ l c
Step-IsConsistent (reaped now minutes) c = reap_stale-IsConsistent now minutes _ c

pub data Reach (s : Table) : Table → Type 0 where
  start : Reach s s
  step : {t u : Table} → Reach s t → Step t u → Reach s u

-- Whatever statements the workers, the scheduler and the API make, in whatever order, as long as a
-- failure is recorded only for a task that is still live: ids stay distinct, and no two live tasks
-- share a deduplication key.
pub Reach-IsConsistent : {s t : Table} → IsConsistent s → Reach s t → IsConsistent t
Reach-IsConsistent c start = c
Reach-IsConsistent c (step r st) = Step-IsConsistent st (Reach-IsConsistent c r)
