-- ===== src/Queue/Retry/Schedule.antt =====
-- Which failures are retried, and when; how many attempts a task can have.
use career_pilot_ai.Prelude.{
  ℕ, zero, suc, ◌≤◌, ◌<◌, ◌≡◌, refl, ◌⊎◌, inl, inr, String, Option, none, some, List, [], ◌∷◌,
  arith, length, get_elem?, Option-cases, ◌↔◌,
}
use career_pilot_ai.Queue.{dead, Task, Table}
use career_pilot_ai.Queue.Retry.{backoff_delay, fail}

get_elem?-eq-none :
    (schedule : List ℕ) (i : ℕ) → (get_elem? schedule i ≡ none) ↔ (length schedule ≤ i)
get_elem?-eq-none [] i = ((λ _. omega arith), (λ _. refl))
get_elem?-eq-none (x ∷ xs) zero = ((λ e. cc), (λ h. absurd (omega arith)))
get_elem?-eq-none (x ∷ xs) (suc i) = (
  (λ e. omega (arith, (get_elem?-eq-none xs i).0 e)),
  (λ h. (get_elem?-eq-none xs i).1 (omega arith)),
)

-- A delay is missing exactly when no attempt was counted, or more than the schedule has entries.
backoff_delay-eq-none :
    (attempts : ℕ) (schedule : List ℕ)
    → (backoff_delay attempts schedule ≡ none) ↔ ((attempts ≡ 0) ⊎ (length schedule < attempts))
unfolding backoff_delay
backoff_delay-eq-none zero schedule = ((λ _. inl refl), (λ _. refl))
backoff_delay-eq-none (suc i) schedule = (
  (λ e. inr (omega (arith, (get_elem?-eq-none schedule i).0 (ground arith)))),
  (λ h. ground (arith, (get_elem?-eq-none schedule i).1)),
)

-- A failed task is dead-lettered exactly when its attempts are used up, or no retry time was asked
-- for and the schedule has no entry for this attempt; otherwise it is pending again.
pub fail-dead_iff :
    (now : ℕ) (task : Task) (error : String) (schedule : List ℕ) (retry_after : Option ℕ)
    (table : Table)
    → ((fail now task error schedule retry_after table).0 ≡ dead) ↔ (
        (task.max_attempts ≤ task.attempts)
        ⊎ ((retry_after ≡ none) × ((task.attempts ≡ 0) ⊎ (length schedule < task.attempts))))
unfolding fail
fail-dead_iff now task error schedule none table =
    elim (Option-cases (backoff_delay task.attempts schedule)) [
      | inl e ↦
          rw e ((λ _. inr (refl, (backoff_delay-eq-none task.attempts schedule).0 e)), (λ _. refl))
      | inr (d, e) ↦ rw e (
        (λ h. inl (ground arith)),
        (λ h. elim h [
          | inl l ↦ ground arith
          | inr (r, q) ↦ ground (arith, (backoff_delay-eq-none task.attempts schedule).1 q)
        ]),
      )
    ]
fail-dead_iff now task error schedule (some d) table =
    ((λ h. inl (ground arith)), (λ h. ground arith))
