-- ===== src/Ingest/Breaker.antt =====
-- The circuit breaker of a source, and what the worker's transaction leaves of it.
use career_pilot_ai.Prelude.{
  ℕ, ◌+◌, ◌≤◌, ◌≡◌, ◌≢◌, ◌↔◌, ◌<◌, refl, sym, ◌∙◌, ◌⊎◌, inl, inr, String, Bool, true, false, Option,
  none, some, List, [], ◌∷◌, leb, length, arith, Bool-cases,
}
use career_pilot_ai.Queue.{Table, Task, claim}
use career_pilot_ai.Worker.{HandlerResult, Database, Clock, run_once}
use career_pilot_ai.Ingest.{RunReport, JobSource, Store, Fresh}
use career_pilot_ai.Ingest.Rows.{
  RunError, rate_limited, source_unavailable, other_error, Adapter, Setting,
}
use career_pilot_ai.Ingest.Runs.{
  raised as run_raised, run_source, end_run, failed_once, circuit_breaker_failures, load_source,
  with_source, with_adapter, run_adapter,
}
use career_pilot_ai.Worker.Runs.{Raises, by_rate_limit, by_error, run_once_rolls_back}
use career_pilot_ai.Ingest.Discover.{DedupTexts, run_discover, handled}

module _ (setting : Setting) where
  -- the failures of a source one after the other, each committed
  abbrev pub failures : List String → JobSource → JobSource
  unfolding failed_once
  failures [] s = s
  failures (e ∷ es) s = failures es (failed_once setting e s)

  failures-stays :
      (errors : List String) (s : JobSource)
      → s.enabled ≡ false
      → (failures errors s).enabled ≡ false
  unfolding failed_once
  failures-stays [] s h = h
  failures-stays (e ∷ es) s h =
      elim (Bool-cases (leb circuit_breaker_failures (s.consecutive_failures + 1))) [
        | inl q ↦ rw (q, failures) (failures-stays es _ refl)
        | inr q ↦ rw (q, failures) (failures-stays es _ h)
      ]

  -- Failed runs of a source that are each committed disable an enabled one with fewer than five
  -- consecutive failures exactly where they bring these to five.
  pub failures-disabled_iff :
      (errors : List String) (s : JobSource)
      → s.enabled ≡ true
      → s.consecutive_failures < 5
      → ((failures errors s).enabled ≡ false) ↔ (5 ≤ s.consecutive_failures + length errors)
  unfolding failed_once
  failures-disabled_iff [] s on few =
      ((λ e. absurd (true-false (sym on ∙ e))), (λ m. absurd (omega (arith, m, few))))
    where
      true-false : ¬ (true ≡ false)
      true-false q = cc
  failures-disabled_iff (e ∷ es) s on few =
      elim (Bool-cases (leb circuit_breaker_failures (s.consecutive_failures + 1))) [
        | inl q ↦
            let five : 5 ≤ s.consecutive_failures + 1 = ground (arith, q) in
            rw (q, failures) ((λ _. omega (arith, five)), (λ _. failures-stays es _ refl))
        | inr q ↦
            let four : s.consecutive_failures + 1 < 5 = ground (arith, q) in
            rw (q, failures)
              (let (f, g) =
                  failures-disabled_iff es
                    (record s { consecutive_failures = s.consecutive_failures + 1 }) on four in
                ((λ d. omega (arith, f d)), (λ m. g (omega (arith, m)))))
      ]

-- what a source answers on a run that cannot succeed
abbrev pub IsFailure : RunError ⊎ Adapter → Type 0
IsFailure (inl e) = Unit
IsFailure (inr adapter) = adapter.ending ≢ none

module _ (setting : Setting) (texts : DedupTexts) (fresh : Fresh) (now : ℕ)
    (build : JobSource → RunError ⊎ Adapter) (down : (s : JobSource) → IsFailure (build s)) where
  handled-Raises :
      (e : RunError) (store : Store) (queue : Table)
      → Raises (handled setting texts fresh now (run_raised e store queue))
  unfolding handled
  handled-Raises (rate_limited text wait) store queue = by_rate_limit
  handled-Raises (source_unavailable text) store queue = by_error
  handled-Raises (other_error text) store queue = by_error

  end_run-Raises :
      (source : JobSource) (adapter : Adapter) (o : Option RunError) (r : RunReport) (store : Store)
      (queue : Table)
      → o ≢ none
      → Raises (
          handled setting texts fresh now
            (end_run setting fresh now source adapter o r store queue))
  unfolding end_run
  end_run-Raises source adapter none r store queue n = absurd (n refl)
  end_run-Raises source adapter (some e) r store queue n = handled-Raises e _ queue

  run_adapter-Raises :
      (source : JobSource) (adapter : Adapter) (store : Store) (queue : Table)
      → adapter.ending ≢ none
      → Raises (
          handled setting texts fresh now
            (run_adapter setting fresh now source adapter store queue))
  unfolding run_adapter
  run_adapter-Raises source adapter store queue n =
      end_run-Raises source adapter adapter.ending _ _ queue n

  with_source-Raises :
      (o : Option JobSource) (store : Store) (queue : Table)
      → Raises (handled setting texts fresh now (with_source setting fresh now build o store queue))
  unfolding handled
  with_source-Raises none store queue = by_error
  with_source-Raises (some source) store queue = go (build source) (down source)
    where
      go :
          (b : RunError ⊎ Adapter)
          → IsFailure b
          → Raises (
              handled setting texts fresh now (with_adapter setting fresh now source b store queue))
      go (inl e) f = handled-Raises e store queue
      go (inr adapter) f = run_adapter-Raises source adapter store queue f

  run_discover-Raises :
      (task : Task) (db : Database Store)
      → Raises (run_discover setting texts fresh now build task db)
  unfolding run_discover run_source
  run_discover-Raises task db =
      with_source-Raises (load_source task.payload db.rest.sources) db.rest db.queue

  -- A round of the worker on the discovery of a source that fails leaves all tables beside the queue
  -- as they were: the failure is not counted, whatever the run recorded of it, so no number of such
  -- rounds opens the circuit breaker, and the run and its raw payloads are not kept.
  pub run_once-uncounted :
      (handlers : String → Option (Task → Database Store → HandlerResult (Database Store)))
      (schedule : List ℕ) (clock : Clock) (locked : ℕ → Bool) (worker : String)
      (db : Database Store) (task : Task)
      → (claim clock.claimed_at locked worker [] db.queue).0 ≡ some task
      → handlers task.task_type ≡ some (run_discover setting texts fresh now build)
      → (run_once handlers schedule clock locked worker db).1.rest ≡ db.rest
  run_once-uncounted handlers schedule clock locked worker db task h k =
      (run_once_rolls_back handlers schedule clock locked worker db task
        (run_discover setting texts fresh now build) h k (run_discover-Raises task)).0
