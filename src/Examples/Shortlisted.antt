-- ===== src/Examples/Shortlisted.antt =====
-- A matching run at concrete inputs: the scores, the rows that it keeps, and the requirements.
use mathlib.Core.List.{Perm}
use career_pilot_ai.Prelude.{
  Option, sort_by, ℕ, ◌≡◌, ◌≢◌, ◌≤◌, ◌++◌, refl, String, Bool, true, false, some, none, List, [],
  ◌∷◌, map, length, str_eq, AllPairs, All, strip, arith, if◌then◌else◌,
}
use career_pilot_ai.Matching.{GateFailure}
use career_pilot_ai.Scoring.{percentile_of, round_div}
use career_pilot_ai.Scoring.Subscores.{
  FitReason, PostingRequirement, RequirementKind, Similarity, requirement_alignment, skill_coverage,
}
use career_pilot_ai.Scoring.Subscores.Coverage.{IsCoverage, skill_coverage-Counts}
use career_pilot_ai.Scoring.Subscores.Alignment.{Beside, requirement_alignment-Beside}
use career_pilot_ai.Matching.Shortlist.{
  MatchRow, ScoredItem, Tables, Withheld, persist, persist_withheld, shortlist,
}
use career_pilot_ai.Matching.Shortlist.Gated.{
  flags, standings, persist-flags, persist_withheld-shortlist,
}
use career_pilot_ai.Matching.Shortlist.Recorded.{Recorded, persist-Recorded}
use career_pilot_ai.Matching.Requirements.{
  LlmRequirement, ground_requirements, Patterns, extract_requirements_heuristic,
  expand_skill_requirements, text_length,
}
use career_pilot_ai.Matching.Extraction.{Extractors, JobText, requirements_for}
use career_pilot_ai.Matching.Extraction.Again.{forget, requirements_for_again}
use career_pilot_ai.Matching.Requirements.Spans.{
  ArePlaced, extract_requirements_heuristic-ArePlaced,
}
use career_pilot_ai.Matching.Requirements.Expanded.{
  AreCovered, IsKeyed, expand_skill_requirements-IsExpanded,
}

abbrev requires : String → Bool → PostingRequirement
requires name must = record {
  text = name;
  kind = RequirementKind.skill;
  is_must_have = must;
  skill_name = some name;
  alternatives = [];
}

abbrev requirements : List PostingRequirement
requirements = requires "Python" true ∷ requires "Go" false ∷ requires "Rust" false ∷ []

-- three of five parts: the must-have counts three times
coverage_test : (skill_coverage ("Python" ∷ []) requirements none).score ≡ 6000
unfolding skill_coverage round_div
coverage_test = refl

skill_coverage-Counts_example :
    IsCoverage none ("Python" ∷ []) requirements (skill_coverage ("Python" ∷ []) requirements none)
skill_coverage-Counts_example = skill_coverage-Counts ("Python" ∷ []) requirements none

abbrev equal_texts : Similarity
equal_texts a b = if str_eq a b then 900000 else 100000

equal_texts_bound : (a b : String) → equal_texts a b ≤ 1000000
equal_texts_bound a b = ground arith

requirement_alignment-Beside_example :
    let a = requirement_alignment requirements ("Go" ∷ "Led a team" ∷ []) equal_texts in
    (a.score ≤ 10000) × Beside equal_texts ("Go" ∷ "Led a team" ∷ []) requirements a.evidence
requirement_alignment-Beside_example =
    requirement_alignment-Beside requirements ("Go" ∷ "Led a team" ∷ []) equal_texts
      equal_texts_bound

abbrev scored_item : ℕ → ℕ → ScoredItem
scored_item posting total = record {
  posting_id = posting;
  score = record {
    total = total;
    gate_passed = true;
    gate_failures = [];
    subscores = record {
      skill_coverage = total;
      requirement_alignment = total;
      seniority_fit = total;
      semantic_similarity = total;
      freshness = total;
    };
    contributions = [];
    unavailable = [];
    assessed_weight = 10000;
  };
  coverage = skill_coverage ("Python" ∷ []) requirements none;
  alignment = record { score = total; evidence = [] };
  fit_reason = FitReason.level_matches;
}

abbrev scored : List ScoredItem
scored = scored_item 1 9000 ∷ scored_item 2 4000 ∷ []

abbrev expired : ℕ → Withheld
expired posting = record {
  posting_id = posting;
  result = record { passed = false; failures = GateFailure.freshness ∷ [] };
}

abbrev no_tables : Tables
no_tables = record { matches = []; match_evidence = []; job_requirements = []; next_id = 1 }

-- a first run lists the postings 1 and 2, and withholds the posting 3
abbrev after_first : Tables
after_first = persist_withheld 100 7 8 (expired 3 ∷ []) (persist 100 7 8 scored no_tables).1

-- the second run withholds 1, and scores 2 and 3
abbrev rescored : List ScoredItem
rescored = scored_item 3 8000 ∷ scored_item 2 4000 ∷ []

stale_test :
    map
      (λ (m : MatchRow). m.posting_id)
      (shortlist 7 0
        (persist_withheld 200 7 8 (expired 1 ∷ []) (persist 200 7 8 rescored after_first).1))
    ≡ 1 ∷ 2 ∷ []
unfolding persist persist_withheld shortlist percentile_of
stale_test = refl

persist-flags_example :
    (added : List (ℕ × Bool)) × (flags
        (persist_withheld 200 7 8 (expired 1 ∷ []) (persist 200 7 8 rescored after_first).1).matches
      ≡ flags after_first.matches ++ added)
persist-flags_example = persist-flags 200 7 8 rescored (expired 1 ∷ []) after_first

persist_withheld-shortlist_example :
    standings (shortlist 7 0 (persist_withheld 200 7 8 (expired 1 ∷ []) after_first))
    ≡ standings (shortlist 7 0 after_first)
persist_withheld-shortlist_example =
    persist_withheld-shortlist 200 7 8 7 0 (expired 1 ∷ []) after_first

two_postings : AllPairs (λ (a b : ScoredItem). a.posting_id ≢ b.posting_id) rescored
two_postings = ((ground arith, tt), (tt, tt))

persist-Recorded_example :
    Recorded 8
      (8000 ∷ 4000 ∷ [])
      1
      rescored
      (persist_withheld 200 7 8 (expired 1 ∷ []) (persist 200 7 8 rescored after_first).1).matches
persist-Recorded_example =
    persist-Recorded 200 7 8 rescored (expired 1 ∷ []) after_first two_postings

abbrev never : String → Bool
never s = false

abbrev patterns : Patterns
patterns = record {
  heading = λ s. elim (str_eq s "Requirements") [ true ↦ some "requirements" | false ↦ none ];
  bullet_end = λ s. elim (str_eq s "- Five years of Python\n") [ true ↦ some 2 | false ↦ none ];
  must_have = never;
  nice_to_have = never;
  authorization = never;
  language = never;
  education = never;
  years = never;
}

abbrev description : String
description = "Requirements\n- Five years of Python\n"

abbrev two_lines : String → List String
two_lines s = "Requirements\n" ∷ "- Five years of Python\n" ∷ []

one_requirement_test : length (extract_requirements_heuristic patterns two_lines description) ≡ 1
unfolding extract_requirements_heuristic strip
one_requirement_test = refl

extract_requirements_heuristic-ArePlaced_example :
    let extracted = extract_requirements_heuristic patterns two_lines description in
    ArePlaced patterns 0 extracted (text_length description) × (length extracted ≤ 30)
extract_requirements_heuristic-ArePlaced_example =
    extract_requirements_heuristic-ArePlaced patterns two_lines description
      (unfold text_length in refl)

abbrev whole : String → List String
whole s = s ∷ []

abbrev sql_skills : String → List String
sql_skills s = "SQL" ∷ "PostgreSQL" ∷ []

abbrev sentences : List PostingRequirement
sentences =
    record (requires "SQL and PostgreSQL" true) { skill_name = none } ∷ requires "SQL" true ∷ []

two_skills_test : length (expand_skill_requirements whole never sql_skills sentences) ≡ 2
unfolding expand_skill_requirements strip
two_skills_test = refl

expand_skill_requirements-IsExpanded_example :
    let es = expand_skill_requirements whole never sql_skills sentences in
    IsKeyed es × All (AreCovered whole never sql_skills es) sentences
expand_skill_requirements-IsExpanded_example =
    expand_skill_requirements-IsExpanded whole never sql_skills sentences

-- a model that names the skill of its one requirement
abbrev naming_model : String → String → Option (List LlmRequirement)
naming_model title text = some (
    record {
      text = "Five years of Python";
      quote = "";
      kind = some RequirementKind.skill;
      is_must_have = true;
      skill_name = some "Python";
    }
    ∷ [])

abbrev extractors : Extractors
extractors = record {
  patterns = patterns;
  splitlines = two_lines;
  find_span = λ text quote. some (record { start = 15; end = 35 });
  llm = some naming_model;
  generated_id = λ n. n;
  first_mention = λ s. none;
  id_of_skill = λ s. some 4;
}

abbrev job : JobText
job = record { id = 5; title = "Engineer"; description_text = description }

abbrev skill_names : List PostingRequirement → List (Option String)
skill_names = map (λ (r : PostingRequirement). r.skill_name)

forgotten_test :
    let (first, kept) = requirements_for extractors job no_tables in
    let (second, _) = requirements_for extractors job kept in
    (skill_names first ≡ some "Python" ∷ []) × (skill_names second ≡ none ∷ [])
unfolding requirements_for ground_requirements sort_by
forgotten_test = (refl, refl)

requirements_for_again_example :
    let (first, kept) = requirements_for extractors job no_tables in
    let (second, kept_again) = requirements_for extractors job kept in
    Perm second (map forget first) × (kept_again ≡ kept)
requirements_for_again_example = requirements_for_again extractors job no_tables
