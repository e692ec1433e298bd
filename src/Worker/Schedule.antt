-- ===== src/Worker/Schedule.antt =====
-- The hourly scheduler may fire twice: the second time it queues nothing.
use career_pilot_ai.Prelude.{
  ℕ, ◌*◌, ◌/◌, ◌≡◌, refl, String, Bool, true, inl, inr, Option, none, some, List, [], ◌∷◌, ◌++◌,
  arith, any, All, All-keep_if, Bool-cases, keep_if,
}
use career_pilot_ai.Queue.{Table, NewTask, Row, conflicts, new_row, enqueue}
use career_pilot_ai.Queue.Dedup.{any-append, conflicts_self}
use career_pilot_ai.Queue.Retry.{second}
use career_pilot_ai.Worker.{
  Source, is_due, order_sources, insert_source, runs_before, discovery, enqueue_each,
  enqueue_due_discoveries,
}

-- A live task has the key.
abbrev Waits : Option String → Table → Type 0
Waits key table = any (conflicts key) table ≡ true

any-append_left :
    (p : Row → Bool) (table more : Table) → any p table ≡ true → any p (table ++ more) ≡ true
any-append_left p [] more h = absurd (ground arith)
any-append_left p (r ∷ rows) more h = ground (arith, any-append_left p rows more)

Waits-enqueue :
    (key : Option String) (id now : ℕ) (task : NewTask) (table : Table)
    → Waits key table
    → Waits key (enqueue id now task table).1
unfolding enqueue
Waits-enqueue key id now task table w = elim (Bool-cases (any (conflicts task.dedup_key) table)) [
  | inl e ↦ rw e w
  | inr e ↦ rw e (any-append_left (conflicts key) table _ w)
]

Waits-enqueue_self :
    (id now : ℕ) (task : NewTask) (key : String) (table : Table)
    → task.dedup_key ≡ some key
    → Waits task.dedup_key (enqueue id now task table).1
unfolding enqueue
Waits-enqueue_self id now task key table h =
    elim (Bool-cases (any (conflicts task.dedup_key) table)) [
      | inl e ↦ rw e e
      | inr e ↦ rw e (
          any-append (conflicts task.dedup_key) table (new_row id now task)
            (conflicts_self id now task key h))
    ]

module _ (discover_key : String → ℕ → String) (fresh : Table → ℕ) (bucket : ℕ) where
  abbrev IsQueued : Table → Source → Type 0
  IsQueued table source = Waits (some (discover_key source.id bucket)) table

  IsQueued-enqueue_each :
      (now : ℕ) (source : Source) (sources : List Source) (queued : ℕ) (table : Table)
      → IsQueued table source
      → IsQueued (enqueue_each discover_key fresh now bucket sources queued table).1 source
  unfolding enqueue_each
  IsQueued-enqueue_each now source [] queued table w = w
  IsQueued-enqueue_each now source (s ∷ sources) queued table w =
      IsQueued-enqueue_each now source sources _ _
        (Waits-enqueue _ (fresh table) now (discovery discover_key fresh bucket s) table w)

  enqueue_each-IsQueued :
      (now : ℕ) (sources : List Source) (queued : ℕ) (table : Table)
      → All (IsQueued (enqueue_each discover_key fresh now bucket sources queued table).1) sources
  unfolding enqueue_each
  enqueue_each-IsQueued now [] queued table = tt
  enqueue_each-IsQueued now (s ∷ sources) queued table = (
    IsQueued-enqueue_each now s sources _ _ (
        Waits-enqueue_self (fresh table) now (discovery discover_key fresh bucket s)
          (discover_key s.id bucket) table (unfold discovery in refl)),
    enqueue_each-IsQueued now sources _ _,
  )

  enqueue_each_again :
      (now : ℕ) (sources : List Source) (queued : ℕ) (table : Table)
      → All (IsQueued table) sources
      → enqueue_each discover_key fresh now bucket sources queued table ≡ (queued, table)
  unfolding enqueue_each
  enqueue_each_again now [] queued table w = refl
  enqueue_each_again now (s ∷ sources) queued table w =
      rw (refused s w.0) (enqueue_each_again now sources queued table w.1)
    where
      refused :
          (x : Source)
          → IsQueued table x
          → enqueue (fresh table) now (discovery discover_key fresh bucket x) table ≡ (none, table)
      refused x q = unfold enqueue discovery in rw q

-- Ordering the sources keeps what holds of all of them, both ways.
module _ (P : Source → Type 0) where
  insert_source-All : (s : Source) (ss : List Source) → P s → All P ss → All P (insert_source s ss)
  unfolding insert_source
  insert_source-All s [] p h = (p, tt)
  insert_source-All s (t ∷ ts) p h = elim (Bool-cases (runs_before s.last_run_at t.last_run_at)) [
    | inl e ↦ rw e (p, h)
    | inr e ↦ rw e (h.0, insert_source-All s ts p h.1)
  ]

  insert_source-All' : (s : Source) (ss : List Source) → All P (insert_source s ss) → P s × All P ss
  unfolding insert_source
  insert_source-All' s [] h = (h.0, tt)
  insert_source-All' s (t ∷ ts) h = elim (Bool-cases (runs_before s.last_run_at t.last_run_at)) [
    | inl e ↦ let h' = rw e at h in (h'.0, h'.1)
    | inr e ↦ let h' = rw e at h in let (p, q) = insert_source-All' s ts h'.1 in (p, (h'.0, q))
  ]

  order_sources-All : (ss : List Source) → All P ss → All P (order_sources ss)
  unfolding order_sources
  order_sources-All [] h = tt
  order_sources-All (s ∷ ss) h =
      insert_source-All s (order_sources ss) h.0 (order_sources-All ss h.1)

  order_sources-All' : (ss : List Source) → All P (order_sources ss) → All P ss
  unfolding order_sources
  order_sources-All' [] h = tt
  order_sources-All' (s ∷ ss) h =
      let (p, q) = insert_source-All' s (order_sources ss) h in (p, order_sources-All' ss q)

  All-keep_if-of :
      (due : Source → Bool) (ss : List Source)
      → All (λ s. due s ≡ true → P s) ss
      → All P (keep_if due ss)
  All-keep_if-of due [] h = tt
  All-keep_if-of due (s ∷ ss) h = elim (Bool-cases (due s)) [
    | inl e ↦ rw e (h.0 e, All-keep_if-of due ss h.1)
    | inr e ↦ rw e (All-keep_if-of due ss h.1)
  ]

both-All :
    (P Q R : Source → Type 0) (ss : List Source)
    → All (λ s. Q s → R s) ss
    → All (λ s. P s → Q s) ss
    → All (λ s. P s → R s) ss
both-All P Q R [] f g = tt
both-All P Q R (s ∷ ss) f g = ((λ p. f.0 (g.0 p)), both-All P Q R ss f.1 g.1)

-- If the scheduler fires a second time in one interval, with no source newly due, and the tasks of
-- the first time are still live, then nothing is queued and the table does not change.
pub enqueue_due_discoveries_again :
    (discover_key : String → ℕ → String) (fresh : Table → ℕ) (now now' minutes : ℕ)
    (sources : List Source) (table : Table)
    → now' / (minutes * 60 * second) ≡ now / (minutes * 60 * second)
    → All
        (λ s.
          is_due now' (minutes * 60 * second) s ≡ true
          → is_due now (minutes * 60 * second) s ≡ true)
        sources
    → let after = (enqueue_due_discoveries discover_key fresh now minutes sources table).1 in
      enqueue_due_discoveries discover_key fresh now' minutes sources after ≡ (0, after)
unfolding enqueue_due_discoveries
enqueue_due_discoveries_again discover_key fresh now now' minutes sources table b d =
    let interval = minutes * 60 * second in
    let bucket = now / interval in
    let due = order_sources (keep_if (is_due now interval) sources) in
    let after = (enqueue_each discover_key fresh now bucket due 0 table).1 in
    let queued : All (IsQueued discover_key fresh bucket after) due =
      enqueue_each-IsQueued discover_key fresh bucket now due 0 table in
    let first =
      All-keep_if (is_due now interval) (IsQueued discover_key fresh bucket after) sources
        (order_sources-All' (IsQueued discover_key fresh bucket after) _ queued) in
    rw b (
      enqueue_each_again discover_key fresh bucket now'
        (order_sources (keep_if (is_due now' interval) sources)) 0 after
        (order_sources-All (IsQueued discover_key fresh bucket after) _ (
          All-keep_if-of (IsQueued discover_key fresh bucket after) (is_due now' interval) sources
            (both-All _ _ _ sources first d))))
