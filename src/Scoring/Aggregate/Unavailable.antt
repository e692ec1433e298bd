-- ===== src/Scoring/Aggregate/Unavailable.antt =====
-- What an unavailable term does to the score of backend/app/domain/scoring/aggregate.py.
use career_pilot_ai.Prelude.{
  ℕ, ◌≤◌, ◌≡◌, sym, ◌∙◌, ◌||◌, inl, inr, Bool, true, not, List, [], ◌∷◌, arith, Bool-cases, any,
  keep_if,
}
use mathlib.Core.Bool.{false≢true}
use career_pilot_ai.Matching.{GateResult}
use career_pilot_ai.Scoring.Aggregate.{
  Term, Terms, Entry, same_term, is_assessed, entries, available, contribution, sum_of, aggregate,
}

not-or : (a b : Bool) → not (a || b) ≡ true → not b ≡ true
not-or a b h = ground arith

narrower :
    (f : Entry → ℕ) (p q : Entry → Bool)
    → ((e : Entry) → p e ≡ true → q e ≡ true)
    → (es : List Entry) → sum_of f (keep_if p es) ≤ sum_of f (keep_if q es)
unfolding sum_of
narrower f p q i [] = omega arith
narrower f p q i (e ∷ es) = elim (Bool-cases (q e)) [
  | inl k ↦ elim (Bool-cases (p e)) [
    | inl j ↦ rw (j, k) (omega (arith, narrower f p q i es))
    | inr j ↦ rw (j, k) (omega (arith, narrower f p q i es))
  ]
  | inr k ↦ elim (Bool-cases (p e)) [
    | inl j ↦ absurd (false≢true (sym k ∙ i e j))
    | inr j ↦ rw (j, k) (narrower f p q i es)
  ]
]

-- A term that becomes unavailable never raises a score: nothing is renormalised.
pub aggregate_unavailable-le :
    (unit : ℕ) (subscores : Terms) (gate : GateResult) (weights : Terms) (term : Term)
    (unavailable : List Term)
    → (aggregate unit subscores gate weights (term ∷ unavailable)).total
      ≤ (aggregate unit subscores gate weights unavailable).total
unfolding aggregate
aggregate_unavailable-le unit subscores gate weights term unavailable =
    elim (Bool-cases gate.passed) [
      | inl e ↦
          let le : sum_of (contribution unit) (available weights subscores (term ∷ unavailable))
              ≤ sum_of (contribution unit) (available weights subscores unavailable) =
            unfold available in
            narrower (contribution unit) (is_assessed (term ∷ unavailable))
              (is_assessed unavailable)
              (λ x h. not-or (same_term x.term term) (any (same_term x.term) unavailable) h)
              (entries weights subscores) in
          rw e (omega (arith, le))
      | inr e ↦ rw e (omega arith)
    ]
