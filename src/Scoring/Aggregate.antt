-- ===== src/Scoring/Aggregate.antt =====
-- backend/app/domain/scoring/aggregate.py. Sub-scores and what is rounded to four places are whole
-- numbers of ten-thousandths. Weights are fractions of any precision: whole numbers of a common
-- unit, of which `unit` make one.
pub mod Assessed
pub mod Unavailable
use career_pilot_ai.Prelude.{
  ℕ, zero, suc, ◌+◌, ◌*◌, min, leb, Bool, true, false, not, List, [], ◌∷◌, map, if◌then◌else◌, any,
  keep_if,
}
use career_pilot_ai.Matching.{GateFailure, GateResult}
use career_pilot_ai.Scoring.{round_div}

pub data Term : Type 0 where
  skill_coverage requirement_alignment seniority_fit semantic_similarity freshness_term : Term

-- both `ScoreWeights` and `SubScores`: one number for each term
pub record Terms : Type 0 where
  pub skill_coverage : ℕ
  pub requirement_alignment : ℕ
  pub seniority_fit : ℕ
  pub semantic_similarity : ℕ
  pub freshness : ℕ

-- the weights that are used where none are given, where 10000 units make one
abbrev pub default_weights : Terms
default_weights = record {
  skill_coverage = 3500;
  requirement_alignment = 2500;
  seniority_fit = 1500;
  semantic_similarity = 1500;
  freshness = 1000;
}

pub record Entry : Type 0 where
  pub term : Term
  pub weight : ℕ
  pub value : ℕ

pub record MatchScore : Type 0 where
  pub total : ℕ
  pub gate_passed : Bool
  pub gate_failures : List GateFailure
  pub subscores : Terms
  pub contributions : List (Term × ℕ)
  pub unavailable : List Term
  pub assessed_weight : ℕ

abbrev pub same_term : Term → Term → Bool
same_term skill_coverage skill_coverage = true
same_term requirement_alignment requirement_alignment = true
same_term seniority_fit seniority_fit = true
same_term semantic_similarity semantic_similarity = true
same_term freshness_term freshness_term = true
same_term _ _ = false

unfoldable pub entries : Terms → Terms → List Entry
entries w s =
    record { term = skill_coverage; weight = w.skill_coverage; value = s.skill_coverage }
    ∷ record {
      term = requirement_alignment;
      weight = w.requirement_alignment;
      value = s.requirement_alignment;
    }
    ∷ record { term = seniority_fit; weight = w.seniority_fit; value = s.seniority_fit }
    ∷ record {
      term = semantic_similarity;
      weight = w.semantic_similarity;
      value = s.semantic_similarity;
    }
    ∷ record { term = freshness_term; weight = w.freshness; value = s.freshness }
    ∷ []

abbrev pub is_assessed : List Term → Entry → Bool
is_assessed unavailable e = not (any (same_term e.term) unavailable)

-- the dict that is left when each unavailable term was popped
unfoldable pub available : Terms → Terms → List Term → List Entry
unfolding entries
available w s unavailable = keep_if (is_assessed unavailable) (entries w s)

-- the place of a term's name in the order of texts
abbrev pub name_order : Term → ℕ
name_order freshness_term = 0
name_order requirement_alignment = 1
name_order semantic_similarity = 2
name_order seniority_fit = 3
name_order skill_coverage = 4

pub insert_term : Term → List Term → List Term
insert_term t [] = t ∷ []
insert_term t (u ∷ us) =
    let rest = insert_term t us in
    if leb (name_order t) (name_order u) then t ∷ u ∷ us else u ∷ rest

-- `tuple(sorted(unavailable))`
unfoldable pub sort_terms : List Term → List Term
unfolding insert_term
sort_terms [] = []
sort_terms (t ∷ ts) = insert_term t (sort_terms ts)

-- `round(weight * value, 4)`
unfoldable pub contribution : ℕ → Entry → ℕ
contribution unit e = round_div (e.weight * e.value) unit

unfoldable pub sum_of : (Entry → ℕ) → List Entry → ℕ
sum_of f [] = 0
sum_of f (e ∷ es) = f e + sum_of f es

unfoldable pub aggregate : ℕ → Terms → GateResult → Terms → List Term → MatchScore
unfolding available contribution sum_of sort_terms
aggregate unit subscores gate weights unavailable =
    let terms = available weights subscores unavailable in
    if not gate.passed
    then record {
      total = 0;
      gate_passed = false;
      gate_failures = gate.failures;
      subscores = subscores;
      contributions = [];
      unavailable = [];
      assessed_weight = 10000;
    }
    else record {
      total = min (sum_of (contribution unit) terms) 10000;
      gate_passed = true;
      gate_failures = [];
      subscores = subscores;
      contributions = map (λ (e : Entry). (e.term, contribution unit e)) terms;
      unavailable = sort_terms unavailable;
      assessed_weight = round_div (10000 * sum_of (λ (e : Entry). e.weight) terms) unit;
    }
