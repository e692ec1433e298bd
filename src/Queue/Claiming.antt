-- ===== src/Queue/Claiming.antt =====
-- Which task a worker claims, and that no two workers claim one task.
use career_pilot_ai.Prelude.{
  ℕ, ◌≤◌, ◌<◌, ◌⊎◌, ◌≡◌, ◌≢◌, refl, sym, ap, ◌∙◌, subst, String, Bool, true, false, inl, inr,
  Option, none, some, List, [], ◌∷◌, arith, All, All-In, All-keep_if, In, In-keep_if, keep_if,
  keep_if-nil, here, there, Bool-cases, ◌==◌, ==_iff,
}
use mathlib.Core.Option.{some-injective}
use career_pilot_ai.Queue.{
  Status, pending, running, done, dead, is_pending, Row, Task, Table, is_claimable, comes_before,
  first_row, update_row, mark_running, task_of, claim_among, claim,
}

first_row-In : (best : Row) (rows : List Row) → In (first_row best rows) (best ∷ rows)
unfolding first_row
first_row-In best [] = here refl
first_row-In best (row ∷ rows) = elim (Bool-cases (comes_before row best)) [
  | inl e ↦ rw (e, first_row) (there (first_row-In row rows))
  | inr e ↦ rw (e, first_row) (widen (first_row-In best rows))
]
  where
    widen : {r : Row} → In r (best ∷ rows) → In r (best ∷ row ∷ rows)
    widen (here p) = here p
    widen (there m) = there (there m)

-- `m` has a higher priority than `r`, or the same and is due no later
abbrev pub NotBefore : Row → Row → Type 0
NotBefore m r =
    (r.priority < m.priority) ⊎ ((r.priority ≡ m.priority) × (m.run_after ≤ r.run_after))

NotBefore-trans : (a b m : Row) → comes_before a b ≡ true → NotBefore m a → NotBefore m b
unfolding comes_before
NotBefore-trans a b m h k = ground (arith, h)

NotBefore-trans' : (a b m : Row) → comes_before a b ≡ false → NotBefore m b → NotBefore m a
unfolding comes_before
NotBefore-trans' a b m h k = ground (arith, h)

NotBefore-refl : (a : Row) → NotBefore a a
NotBefore-refl a = ground arith

first_row-NotBefore :
    (best m : Row) (rows : List Row) → first_row best rows ≡ m → All (NotBefore m) (best ∷ rows)
first_row-NotBefore best m [] e =
    let e' : best ≡ m = unfold first_row in e in
    (subst (λ r. NotBefore r best) e' (NotBefore-refl best), tt)
first_row-NotBefore best m (row ∷ rows) e = elim (Bool-cases (comes_before row best)) [
  | inl p ↦
      let e' : first_row row rows ≡ m = unfold first_row in rw p at e in
      let h = first_row-NotBefore row m rows e' in (NotBefore-trans row best m p h.0, h)
  | inr p ↦
      let e' : first_row best rows ≡ m = unfold first_row in rw p at e in
      let h = first_row-NotBefore best m rows e' in (h.0, (NotBefore-trans' row best m p h.0, h.1))
]

is_pending-≡ : (s : Status) → is_pending s ≡ true → s ≡ pending
is_pending-≡ pending h = refl
is_pending-≡ running h = absurd cc
is_pending-≡ done h = absurd cc
is_pending-≡ dead h = absurd cc

module _ (now : ℕ) (locked : ℕ → Bool) (worker : String) (types : List String) (table : Table) where
  -- How a claim ends.
  pub data Claimed : Option Task → Table → Type 0 where
    nothing : All (λ r. is_claimable now locked types r ≡ false) table → Claimed none table
    taken :
        (row : Row)
        → In row table
        → is_claimable now locked types row ≡ true
        → row.status ≡ pending
        → row.run_after ≤ now
        → locked row.id ≡ false
        → All (λ r. is_claimable now locked types r ≡ true → NotBefore row r) table
        → Claimed
            (some (task_of (mark_running now worker row)))
            (update_row row.id (mark_running now worker) table)

  is_claimable-facts :
      (r : Row)
      → is_claimable now locked types r ≡ true
      → (r.status ≡ pending) × (r.run_after ≤ now) × (locked r.id ≡ false)
  unfolding is_claimable
  is_claimable-facts r h = (is_pending-≡ r.status (ground arith), ground arith, ground arith)

  taken_case :
      (row : Row) (rows : List Row)
      → keep_if (is_claimable now locked types) table ≡ row ∷ rows
      → Claimed
          (claim_among now worker (row ∷ rows) table).0
          (claim_among now worker (row ∷ rows) table).1
  unfolding claim_among
  taken_case row rows e =
      let m = first_row row rows in
      let (listed, due) =
        In-keep_if (is_claimable now locked types) m table
          (subst (In m) (sym e) (first_row-In row rows)) in
      let (waiting, reached, unlocked) = is_claimable-facts m due in
      taken m listed due waiting reached unlocked (
        All-keep_if (is_claimable now locked types) (NotBefore m) table
          (subst (All (NotBefore m)) (sym e) (first_row-NotBefore row m rows refl)))

  -- A claim takes a pending, due and unlocked row of the types asked for, with the highest priority
  -- and the earliest due time among those, and marks it running with one more attempt; it takes
  -- nothing, and changes nothing, only if there is no such row.
  pub claim-Claimed :
      Claimed (claim now locked worker types table).0 (claim now locked worker types table).1
  unfolding claim
  claim-Claimed = go (keep_if (is_claimable now locked types) table) refl
    where
      go :
          (rows : List Row)
          → keep_if (is_claimable now locked types) table ≡ rows
          → Claimed (claim_among now worker rows table).0 (claim_among now worker rows table).1
      go [] e = unfold claim_among in nothing (keep_if-nil (is_claimable now locked types) table e)
      go (row ∷ rows) e = taken_case row rows e

running_not_claimable :
    (now now' id : ℕ) (locked : ℕ → Bool) (worker : String) (types : List String) (table : Table)
    → All
        (λ r. is_claimable now' locked types r ≡ true → r.id ≢ id)
        (update_row id (mark_running now worker) table)
unfolding update_row is_claimable mark_running
running_not_claimable now now' id locked worker types [] = tt
running_not_claimable now now' id locked worker types (row ∷ rows) =
    elim (Bool-cases (row.id == id)) [
      | inl e ↦ rw e ((λ c q. cc), running_not_claimable now now' id locked worker types rows)
      | inr e ↦ rw e (
        (λ c q. ground (arith, ==_iff row.id id)),
        running_not_claimable now now' id locked worker types rows,
      )
    ]

pub claimed_id :
    (now : ℕ) (worker : String) (row : Row) (task : Task)
    → some (task_of (mark_running now worker row)) ≡ some task
    → row.id ≡ task.id
unfolding task_of mark_running
claimed_id now worker row task e = ap (λ (t : Task). t.id) (some-injective _ _ e)

-- Two claims with no other statement between them never return one task, whichever workers make
-- them and whatever they ask for.
pub claim_exclusive :
    (now now' : ℕ) (locked locked' : ℕ → Bool) (worker worker' : String)
    (types types' : List String) (table : Table) {task task' : Task}
    → (claim now locked worker types table).0 ≡ some task
    → (claim now' locked' worker' types' (claim now locked worker types table).1).0 ≡ some task'
    → task.id ≢ task'.id
claim_exclusive now now' locked locked' worker worker' types types' table {task} {task'} h k =
    first (claim-Claimed now locked worker types table) h k
  where
    second :
        (row : Row) {o : Option Task} {after : Table}
        → Claimed now' locked' worker' types'
            (update_row row.id (mark_running now worker) table)
            o
            after
        → o ≡ some task'
        → row.id ≢ task'.id
    second row (nothing a) e q = cc
    second row (taken other m c _ _ _ b) e q =
        All-In _ (running_not_claimable now now' row.id locked' worker types' table) m c
          (claimed_id now' worker' other task' e ∙ sym q)

    first :
        {o : Option Task} {after : Table}
        → Claimed now locked worker types table o after
        → o ≡ some task
        → (claim now' locked' worker' types' after).0 ≡ some task'
        → task.id ≢ task'.id
    first (nothing a) e k q = cc
    first (taken row m c _ _ _ b) e k q =
        second row
          (claim-Claimed now' locked' worker' types'
            (update_row row.id (mark_running now worker) table))
          k (claimed_id now worker row task e ∙ q)
