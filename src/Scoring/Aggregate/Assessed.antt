-- ===== src/Scoring/Aggregate/Assessed.antt =====
-- What a score is beside the exact weighted sum, and what it is bounded by.
use career_pilot_ai.Prelude.{
  ℕ, ◌+◌, ◌*◌, ◌≤◌, ◌<◌, ◌≡◌, refl, ap, ◌⊎◌, inl, inr, Bool, true, false, List, [], ◌∷◌, arith, All,
  Bool-cases, any, keep_if, min, length, if◌then◌else◌,
}
use native.Mathlib.Nat.{mul-le-mul_left, le_of_mul-le-mul_left}
use career_pilot_ai.Matching.{GateResult}
use career_pilot_ai.Scoring.{round_div}
use career_pilot_ai.Scoring.Rounding.{round_div-near}
use career_pilot_ai.Scoring.Aggregate.{
  Term, Terms, Entry, MatchScore, same_term, is_assessed, entries, available, contribution, sum_of,
  aggregate,
}

abbrev pub InUnit : Entry → Type 0
InUnit e = e.value ≤ 10000

-- what a term adds to a sum: nothing where it is unavailable
abbrev pub part_of : List Term → Term → ℕ → ℕ
part_of unavailable term n = if any (same_term term) unavailable then 0 else n

-- the sum of weight times value over the terms that are available, nowhere rounded
abbrev pub exact_total : Terms → Terms → List Term → ℕ
exact_total w s unavailable =
    part_of unavailable Term.skill_coverage (w.skill_coverage * s.skill_coverage)
    + (part_of unavailable Term.requirement_alignment
          (w.requirement_alignment * s.requirement_alignment)
        + (part_of unavailable Term.seniority_fit (w.seniority_fit * s.seniority_fit)
            + (part_of unavailable Term.semantic_similarity
                  (w.semantic_similarity * s.semantic_similarity)
                + part_of unavailable Term.freshness_term (w.freshness * s.freshness))))

-- and that of their weights
abbrev pub exact_weight : Terms → List Term → ℕ
exact_weight w unavailable =
    part_of unavailable Term.skill_coverage w.skill_coverage
    + (part_of unavailable Term.requirement_alignment w.requirement_alignment
        + (part_of unavailable Term.seniority_fit w.seniority_fit
            + (part_of unavailable Term.semantic_similarity w.semantic_similarity
                + part_of unavailable Term.freshness_term w.freshness)))

abbrev product : Entry → ℕ
product e = e.weight * e.value

abbrev weight : Entry → ℕ
weight e = e.weight

sum_of-cons :
    (f : Entry → ℕ) (unavailable : List Term) (e : Entry) (es : List Entry)
    → sum_of f (keep_if (is_assessed unavailable) (e ∷ es))
      ≡ part_of unavailable e.term (f e) + sum_of f (keep_if (is_assessed unavailable) es)
unfolding sum_of
sum_of-cons f unavailable e es = elim (Bool-cases (any (same_term e.term) unavailable)) [
  | inl h ↦ rw h (omega arith)
  | inr h ↦ rw h (omega arith)
]

five :
    (f : Entry → ℕ) (unavailable : List Term) (a b c d e : Entry)
    → sum_of f (keep_if (is_assessed unavailable) (a ∷ b ∷ c ∷ d ∷ e ∷ []))
      ≡ part_of unavailable a.term (f a)
        + (part_of unavailable b.term (f b)
            + (part_of unavailable c.term (f c)
                + (part_of unavailable d.term (f d) + part_of unavailable e.term (f e))))
five f unavailable a b c d e =
    let none_left : sum_of f [] ≡ 0 = unfold sum_of in refl in
    omega (
      arith,
      sum_of-cons f unavailable a (b ∷ c ∷ d ∷ e ∷ []),
      sum_of-cons f unavailable b (c ∷ d ∷ e ∷ []),
      sum_of-cons f unavailable c (d ∷ e ∷ []),
      sum_of-cons f unavailable d (e ∷ []),
      sum_of-cons f unavailable e [],
      none_left,
    )

abbrev entry : Term → ℕ → ℕ → Entry
entry term weight value = record { term = term; weight = weight; value = value }

sum_of-product :
    (w s : Terms) (unavailable : List Term)
    → sum_of product (available w s unavailable) ≡ exact_total w s unavailable
unfolding available entries
sum_of-product w s unavailable =
    five product unavailable (entry Term.skill_coverage w.skill_coverage s.skill_coverage)
      (entry Term.requirement_alignment w.requirement_alignment s.requirement_alignment)
      (entry Term.seniority_fit w.seniority_fit s.seniority_fit)
      (entry Term.semantic_similarity w.semantic_similarity s.semantic_similarity)
      (entry Term.freshness_term w.freshness s.freshness)

sum_of-weight :
    (w s : Terms) (unavailable : List Term)
    → sum_of weight (available w s unavailable) ≡ exact_weight w unavailable
unfolding available entries
sum_of-weight w s unavailable =
    five weight unavailable (entry Term.skill_coverage w.skill_coverage s.skill_coverage)
      (entry Term.requirement_alignment w.requirement_alignment s.requirement_alignment)
      (entry Term.seniority_fit w.seniority_fit s.seniority_fit)
      (entry Term.semantic_similarity w.semantic_similarity s.semantic_similarity)
      (entry Term.freshness_term w.freshness s.freshness)

-- Each rounding is off by a half at most.
sum_of-near :
    (unit : ℕ) (p : Entry → Bool) (es : List Entry)
    → 0 < unit
    → (2 * (unit * sum_of (contribution unit) (keep_if p es))
        ≤ 2 * sum_of product (keep_if p es) + length es * unit)
      × (2 * sum_of product (keep_if p es)
          ≤ 2 * (unit * sum_of (contribution unit) (keep_if p es)) + length es * unit)
unfolding sum_of contribution
sum_of-near unit p [] z = (omega arith, omega arith)
sum_of-near unit p (e ∷ es) z =
    let (a, b) = sum_of-near unit p es z in
    let (c, d) = round_div-near (e.weight * e.value) unit z in
    elim (Bool-cases (p e)) [
      | inl h ↦ rw h (omega (arith, a, c), omega (arith, b, d))
      | inr h ↦ rw h (omega (arith, a), omega (arith, b))
    ]

sum_of-le :
    (p : Entry → Bool) (es : List Entry)
    → All InUnit es
    → sum_of product (keep_if p es) ≤ 10000 * sum_of weight (keep_if p es)
unfolding sum_of
sum_of-le p [] h = omega arith
sum_of-le p (e ∷ es) (h, hs) = elim (Bool-cases (p e)) [
  | inl q ↦ rw q (omega (arith, mul-le-mul_left e.weight h, sum_of-le p es hs))
  | inr q ↦ rw q (sum_of-le p es hs)
]

-- What a score is beside the exact numbers, in ten-thousandths.
pub record IsWeighted (unit : ℕ) (weights subscores : Terms) (unavailable : List Term)
    (score : MatchScore) : Type 0 where
  pub at_most_one : score.total ≤ 10000
  pub not_above :
      2 * (unit * score.total) ≤ 2 * exact_total weights subscores unavailable + 5 * unit
  pub not_below :
      (score.total ≡ 10000)
      ⊎ (2 * exact_total weights subscores unavailable ≤ 2 * (unit * score.total) + 5 * unit)
  pub assessed_not_above :
      2 * (unit * score.assessed_weight) ≤ 2 * (10000 * exact_weight weights unavailable) + unit
  pub assessed_not_below :
      2 * (10000 * exact_weight weights unavailable) ≤ 2 * (unit * score.assessed_weight) + unit
  pub at_most_assessed : score.total ≤ score.assessed_weight + 3

near_exact :
    (unit : ℕ) (w s : Terms) (unavailable : List Term)
    → 0 < unit
    → (2 * (unit * sum_of (contribution unit) (available w s unavailable))
        ≤ 2 * exact_total w s unavailable + 5 * unit)
      × (2 * exact_total w s unavailable
          ≤ 2 * (unit * sum_of (contribution unit) (available w s unavailable)) + 5 * unit)
near_exact unit w s unavailable z =
    let p = sum_of-product w s unavailable in
    let near : (2 * (unit * sum_of (contribution unit) (available w s unavailable))
          ≤ 2 * sum_of product (available w s unavailable) + 5 * unit)
        × (2 * sum_of product (available w s unavailable)
            ≤ 2 * (unit * sum_of (contribution unit) (available w s unavailable)) + 5 * unit) =
      unfold available entries in sum_of-near unit (is_assessed unavailable) (entries w s) z in
    (omega (arith, near.0, p), omega (arith, near.1, p))

capped :
    (unit total sum exact error : ℕ)
    → total ≡ min sum 10000
    → 2 * (unit * sum) ≤ 2 * exact + error
    → 2 * exact ≤ 2 * (unit * sum) + error
    → (2 * (unit * total) ≤ 2 * exact + error)
      × ((total ≡ 10000) ⊎ (2 * exact ≤ 2 * (unit * total) + error))
capped unit total sum exact error t a b =
    let most : total ≤ sum = ground (arith, t) in
    let either : (total ≡ 10000) ⊎ (total ≡ sum) = ground (arith, t) in
    (
      omega (arith, a, mul-le-mul_left unit most),
      elim either [ inl e ↦ inl e | inr e ↦ inr (rw e b) ],
    )

le_of_near :
    (unit total assessed exact weighed : ℕ)
    → 0 < unit
    → 2 * (unit * total) ≤ 2 * exact + 5 * unit
    → exact ≤ 10000 * weighed
    → 2 * (10000 * weighed) ≤ 2 * (unit * assessed) + unit
    → total ≤ assessed + 3
le_of_near unit total assessed exact weighed z a b c =
    le_of_mul-le-mul_left {m = total} {n = assessed + 3} {k = unit} (omega (arith, a, b, c)) z

is_weighted :
    (unit : ℕ) (weights subscores : Terms) (unavailable : List Term) (score : MatchScore)
    → 0 < unit
    → All InUnit (entries weights subscores)
    → let terms = available weights subscores unavailable in
      score.total ≡ min (sum_of (contribution unit) terms) 10000
      → score.assessed_weight ≡ round_div (10000 * sum_of weight terms) unit
      → IsWeighted unit weights subscores unavailable score
is_weighted unit weights subscores unavailable score z h t w =
    let p = sum_of-product weights subscores unavailable in
    let q = sum_of-weight weights subscores unavailable in
    let (a, b) = near_exact unit weights subscores unavailable z in
    let (c, d) =
      round_div-near (10000 * sum_of weight (available weights subscores unavailable)) unit z in
    let v = ap (λ (n : ℕ). unit * n) w in
    let cap =
      capped unit score.total _ (exact_total weights subscores unavailable) (5 * unit) t a b in
    let above : 2 * (unit * score.total)
        ≤ 2 * exact_total weights subscores unavailable + 5 * unit =
      cap.0 in
    let assessed : 2 * (10000 * exact_weight weights unavailable)
        ≤ 2 * (unit * score.assessed_weight) + unit =
      omega (arith, d, q, v) in
    let most_exact : sum_of product (available weights subscores unavailable)
        ≤ 10000 * sum_of weight (available weights subscores unavailable) =
      unfold available in sum_of-le (is_assessed unavailable) (entries weights subscores) h in
    let most : exact_total weights subscores unavailable
        ≤ 10000 * exact_weight weights unavailable =
      omega (arith, p, q, most_exact) in
    record {
      at_most_one = ground (arith, t);
      not_above = above;
      not_below = cap.1;
      assessed_not_above = omega (arith, c, q, v);
      assessed_not_below = assessed;
      at_most_assessed = le_of_near unit _ _ _ _ z above most assessed;
    }

-- The score of a posting that failed a gate is 0. Otherwise it is the sum of weight times sub-score
-- over the terms that are available, capped at one: rounding, term by term, moves it by at most a
-- half of a ten-thousandth for each of the five terms, and the assessed weight, which is the sum of
-- the weights of these terms, by at most a half. Where no sub-score is above one, the score is at
-- most three ten-thousandths above the assessed weight.
pub aggregate-assessed :
    (unit : ℕ) (subscores : Terms) (gate : GateResult) (weights : Terms) (unavailable : List Term)
    → 0 < unit
    → All InUnit (entries weights subscores)
    → let score = aggregate unit subscores gate weights unavailable in
      ((gate.passed ≡ false) × (score.total ≡ 0))
      ⊎ ((gate.passed ≡ true) × IsWeighted unit weights subscores unavailable score)
unfolding aggregate
aggregate-assessed unit subscores gate weights unavailable z h = elim (Bool-cases gate.passed) [
  | inl e ↦ rw e (inr (refl, is_weighted unit weights subscores unavailable _ z h refl refl))
  | inr e ↦ rw e (inl (refl, refl))
]
