-- ===== src/Queue/Dedup.antt =====
-- Enqueueing is idempotent: no two live tasks share a deduplication key.
use career_pilot_ai.Prelude.{
  ℕ, ◌≡◌, refl, String, Bool, true, false, inl, inr, Option, none, some, [], ◌∷◌, ◌++◌, ◌&&◌, arith,
  any, All, Bool-cases, eq_iff,
}
use career_pilot_ai.Queue.{Row, Table, NewTask, is_live, same_key, conflicts, new_row, enqueue}

-- two rows that the unique index would refuse together
abbrev pub Collide : Row → Row → Type 0
Collide a b = (is_live a.status && is_live b.status && same_key a.dedup_key b.dedup_key) ≡ true

abbrev pub IsUnique : Table → Type 0
IsUnique [] = Unit
IsUnique (row ∷ rows) = All (λ r. ¬ Collide row r) rows × IsUnique rows

same_key_comm : (a b : Option String) → same_key a b ≡ same_key b a
same_key_comm (some a) (some b) = ground (arith, eq_iff a b, eq_iff b a)
same_key_comm none none = refl
same_key_comm none (some b) = refl
same_key_comm (some a) none = refl

free_of_conflict :
    (id now : ℕ) (task : NewTask) (row : Row)
    → conflicts task.dedup_key row ≡ false
    → ¬ Collide row (new_row id now task)
unfolding conflicts new_row
free_of_conflict id now task row h c = ground (arith, same_key_comm row.dedup_key task.dedup_key)

append-IsUnique :
    (id now : ℕ) (task : NewTask) (table : Table)
    → any (conflicts task.dedup_key) table ≡ false
    → IsUnique table
    → IsUnique (table ++ new_row id now task ∷ [])
append-IsUnique id now task [] h u = (tt, tt)
append-IsUnique id now task (row ∷ rows) h u =
    (apart rows u.0, append-IsUnique id now task rows (ground arith) u.1)
  where
    apart :
        (rest : Table)
        → All (λ r. ¬ Collide row r) rest
        → All (λ r. ¬ Collide row r) (rest ++ new_row id now task ∷ [])
    apart [] a = (free_of_conflict id now task row (ground arith), tt)
    apart (r ∷ rest) a = (a.0, apart rest a.1)

-- Enqueueing keeps the keys of live tasks unique, whatever the scheduler asks for and how often.
pub enqueue-IsUnique :
    (id now : ℕ) (task : NewTask) (table : Table)
    → IsUnique table
    → IsUnique (enqueue id now task table).1
unfolding enqueue
enqueue-IsUnique id now task table u = elim (Bool-cases (any (conflicts task.dedup_key) table)) [
  | inl e ↦ rw e u
  | inr e ↦ rw e (append-IsUnique id now task table e u)
]

pub any-append :
    (p : Row → Bool) (table : Table) (row : Row) → p row ≡ true → any p (table ++ row ∷ []) ≡ true
any-append p [] row h = ground arith
any-append p (r ∷ rows) row h = ground (arith, any-append p rows row h)

pub conflicts_self :
    (id now : ℕ) (task : NewTask) (key : String)
    → task.dedup_key ≡ some key
    → conflicts task.dedup_key (new_row id now task) ≡ true
unfolding conflicts new_row
conflicts_self id now task key h = rw h ((eq_iff key key).1 refl)

-- Enqueueing a task with a key twice adds it once at most: the second call finds a live task with
-- the key, returns nothing and changes nothing.
pub enqueue_twice :
    (id id' now now' : ℕ) (task : NewTask) (key : String) (table : Table)
    → task.dedup_key ≡ some key
    → enqueue id' now' task (enqueue id now task table).1 ≡ (none, (enqueue id now task table).1)
unfolding enqueue
enqueue_twice id id' now now' task key table h =
    elim (Bool-cases (any (conflicts task.dedup_key) table)) [
      | inl e ↦ simp e
      | inr e ↦ simp (
        e,
        any-append (conflicts task.dedup_key) table (new_row id now task)
            (conflicts_self id now task key h),
      )
    ]

-- Enqueueing without a key always adds a task, however many equal ones are live.
pub enqueue_keyless :
    (id now : ℕ) (task : NewTask) (table : Table)
    → task.dedup_key ≡ none
    → enqueue id now task table ≡ (some id, table ++ new_row id now task ∷ [])
unfolding enqueue
enqueue_keyless id now task table h = rw (none_conflict table)
  where
    none_conflict : (rows : Table) → any (conflicts task.dedup_key) rows ≡ false
    none_conflict [] = refl
    none_conflict (row ∷ rows) = unfold conflicts in ground (arith, none_conflict rows)
