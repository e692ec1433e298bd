-- ===== src/Examples/Matched.antt =====
-- The gates and the percentiles at concrete inputs. Upper and folded case are concrete functions.
use career_pilot_ai.Prelude.{
  ◌⊎◌, ℕ, ◌*◌, ◌≡◌, ◌↔◌, refl, String, true, false, some, none, List, [], ◌∷◌, suc, In, All, length,
  count_if, ltb, arith,
}
use career_pilot_ai.Matching.{
  GateResult, CandidateSnapshot, PostingSnapshot, LanguageAbility, GateConfig, language, live,
  evaluate_gates,
}
use career_pilot_ai.Matching.Gates.{check_of, evaluate_gates-failures}
use career_pilot_ai.Scoring.{round_div, percentile_of}
use career_pilot_ai.Scoring.Aggregate.{
  Term, requirement_alignment, semantic_similarity, freshness_term, Terms, default_weights, entries,
  aggregate,
}
use career_pilot_ai.Scoring.Aggregate.Assessed.{InUnit, IsWeighted, aggregate-assessed}
use career_pilot_ai.Scoring.Percentiles.{percentile_of-counts}

abbrev same : String → String
same s = s

abbrev candidate : CandidateSnapshot
candidate = record {
  years_experience = some 3;
  locations = "cairo" ∷ [];
  countries = "EG" ∷ [];
  open_to_remote = true;
  work_authorization = [];
  languages = record { language = "english"; level = 4 } ∷ [];
}

abbrev silent : PostingSnapshot
silent = record {
  remote_type = none;
  countries = [];
  cities = [];
  posted_at = none;
  url_status = live;
  last_verified_at = none;
  min_years = none;
  requires_authorization_in = [];
  offers_sponsorship = none;
  required_languages = [];
}

abbrev fluent : List LanguageAbility
fluent = record { language = "english"; level = 6 } ∷ []

abbrev demanding : PostingSnapshot
demanding = record silent { required_languages = fluent }

abbrev config : GateConfig
config = record {
  max_years_shortfall = 2;
  max_posting_age_days = 45;
  require_verified_url = true;
  verification_window_hours = 48;
}

evaluate_gates-failures_example :
    In language (evaluate_gates same same candidate demanding config 100).failures
    ↔ (check_of same same candidate demanding config 100 language ≡ false)
evaluate_gates-failures_example =
    evaluate_gates-failures same same candidate demanding config 100 language

abbrev pool : List ℕ
pool = 50 ∷ 70 ∷ 90 ∷ []

percentile_of-counts_example :
    let p = percentile_of 70 pool in
    (p.value ≡ round_div (10000 * count_if (λ y. ltb y 70) pool) (length pool))
    × (p.pool_size ≡ length pool)
    × (p.rank ≡ suc (count_if (λ y. ltb 70 y) pool))
percentile_of-counts_example = percentile_of-counts 70 50 (70 ∷ 90 ∷ [])

abbrev perfect : Terms
perfect = record {
  skill_coverage = 10000;
  requirement_alignment = 10000;
  seniority_fit = 10000;
  semantic_similarity = 10000;
  freshness = 10000;
}

abbrev all_passed : GateResult
all_passed = record { passed = true; failures = [] }

abbrev unread : List Term
unread = requirement_alignment ∷ []

perfect-InUnit : All InUnit (entries default_weights perfect)
unfolding entries
perfect-InUnit = (omega arith, (omega arith, (omega arith, (omega arith, (omega arith, tt)))))

-- personalised weights: two terms of weight 0.20006, of which the rounded sum is above their weight
abbrev personal_weights : Terms
personal_weights = record {
  skill_coverage = 20006;
  requirement_alignment = 39988;
  seniority_fit = 20006;
  semantic_similarity = 10000;
  freshness = 10000;
}

abbrev only_two : List Term
only_two = requirement_alignment ∷ semantic_similarity ∷ freshness_term ∷ []

personal_total :
    let score = aggregate 100000 perfect all_passed personal_weights only_two in
    (score.total ≡ 4002) × (score.assessed_weight ≡ 4001)
unfolding aggregate round_div
personal_total = (refl, refl)

aggregate-assessed_example :
    let score = aggregate 10000 perfect all_passed default_weights unread in
    ((all_passed.passed ≡ false) × (score.total ≡ 0))
    ⊎ ((all_passed.passed ≡ true) × IsWeighted 10000 default_weights perfect unread score)
aggregate-assessed_example =
    aggregate-assessed 10000 perfect all_passed default_weights unread (omega arith) perfect-InUnit

unread_total : (aggregate 10000 perfect all_passed default_weights unread).total ≡ 7500
unfolding aggregate round_div
unread_total = refl
