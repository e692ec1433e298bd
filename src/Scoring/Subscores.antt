-- ===== src/Scoring/Subscores.antt =====
-- backend/app/domain/scoring/subscores.py, and the requirements of backend/app/domain/models.py that
-- it reads. Scores are in ten-thousandths, the four places that the code rounds to, and similarities
-- and the scores of the reranker, none of which is below 0, in millionths. The similarity of two
-- texts, the fuzzy match and the power of the half-life are arguments.
pub mod Coverage
pub mod Growth
pub mod Alignment
pub mod Levels
use career_pilot_ai.Prelude.{
  ℕ, suc, ◌+◌, ◌-◌, ◌*◌, min, max, String, Bool, true, false, ◌&&◌, ◌||◌, not, Option, none, some,
  List, [], ◌∷◌, ltb, leb, if◌then◌else◌, any, keep_if, is_empty, is_some, length, str_eq,
}
use Prim.Native.String.{◌++◌ as append_text}
use career_pilot_ai.Scoring.{round_div}

pub data RequirementKind : Type 0 where
  skill experience education auth language : RequirementKind

pub record PostingRequirement : Type 0 where
  pub text : String
  pub kind : RequirementKind
  pub is_must_have : Bool
  pub skill_name : Option String
  pub alternatives : List String

abbrev pub holds : List String → String → Bool
holds held s = any (str_eq s) held

-- an absent and an empty name are both falsy
abbrev pub named : Option String → Bool
named none = false
named (some s) = not (str_eq s "")

abbrev pub name_or_blank : Option String → String
name_or_blank none = ""
name_or_blank (some s) = s

-- `PostingRequirement.satisfied_by`
unfoldable pub satisfied_by : PostingRequirement → List String → Bool
satisfied_by r held =
    (named r.skill_name && holds held (name_or_blank r.skill_name))
    || any (holds held) r.alternatives

pub record SkillCoverage : Type 0 where
  pub score : ℕ
  pub matched : List String
  pub missing : List String
  pub missing_must_haves : List String
  pub matched_count : ℕ
  pub total_count : ℕ

-- `fuzzy_match(skill, candidate_skills)`
abbrev pub FuzzyMatch : Type 0
FuzzyMatch = String → List String → Option String

abbrev pub is_skill : PostingRequirement → Bool
is_skill r = elim r.kind [ skill ↦ named r.skill_name | _ ↦ false ]

abbrev pub weight_of : PostingRequirement → ℕ
weight_of r = if r.is_must_have then 3 else 1

abbrev pub finds : Option FuzzyMatch → String → List String → Bool
finds none s held = false
finds (some fuzzy_match) s held = is_some (fuzzy_match s held)

unfoldable pub is_hit : Option FuzzyMatch → List String → PostingRequirement → Bool
unfolding satisfied_by
is_hit fuzzy held r = satisfied_by r held || finds fuzzy (name_or_blank r.skill_name) held

-- `', '.join(texts)`
pub join_texts : List String → String
join_texts [] = ""
join_texts (s ∷ []) = s
join_texts (s ∷ t ∷ ts) = append_text s (append_text ", " (join_texts (t ∷ ts)))

unfoldable pub label_of : PostingRequirement → String
unfolding join_texts
label_of r =
    let name = name_or_blank r.skill_name in
    if is_empty r.alternatives
    then name
    else append_text name (append_text " (or " (append_text (join_texts r.alternatives) ")"))

-- What the loop over the requirements gathers.
pub record Tally : Type 0 where
  pub matched : List String
  pub missing : List String
  pub missing_must_haves : List String
  pub earned : ℕ
  pub available : ℕ

unfoldable pub add_requirement : Bool → PostingRequirement → Tally → Tally
unfolding label_of
add_requirement hit r t =
    let label = label_of r in
    if hit
    then record {
      matched = name_or_blank r.skill_name ∷ t.matched;
      missing = t.missing;
      missing_must_haves = t.missing_must_haves;
      earned = weight_of r + t.earned;
      available = weight_of r + t.available;
    }
    else record {
      matched = t.matched;
      missing = label ∷ t.missing;
      missing_must_haves =
          if r.is_must_have then label ∷ t.missing_must_haves else t.missing_must_haves;
      earned = t.earned;
      available = weight_of r + t.available;
    }

unfoldable pub tally : Option FuzzyMatch → List String → List PostingRequirement → Tally
unfolding is_hit add_requirement
tally fuzzy held [] = record {
  matched = [];
  missing = [];
  missing_must_haves = [];
  earned = 0;
  available = 0;
}
tally fuzzy held (r ∷ rs) = add_requirement (is_hit fuzzy held r) r (tally fuzzy held rs)

unfoldable pub skill_coverage :
    List String → List PostingRequirement → Option FuzzyMatch → SkillCoverage
unfolding tally
skill_coverage held requirements fuzzy =
    let skills = keep_if is_skill requirements in
    let t = tally fuzzy held skills in
    if is_empty skills
    then record {
      score = 10000;
      matched = [];
      missing = [];
      missing_must_haves = [];
      matched_count = 0;
      total_count = 0;
    }
    else record {
      score = if ltb 0 t.available then round_div (10000 * t.earned) t.available else 10000;
      matched = t.matched;
      missing = t.missing;
      missing_must_haves = t.missing_must_haves;
      matched_count = length t.matched;
      total_count = length skills;
    }

pub data EvidenceStatus : Type 0 where
  met partial missing : EvidenceStatus

-- `similarity` is in thousandths, the three places that the code rounds to.
pub record RequirementEvidence : Type 0 where
  pub requirement : String
  pub similarity : ℕ
  pub best_bullet : Option String
  pub status : EvidenceStatus

pub record RequirementAlignment : Type 0 where
  pub score : ℕ
  pub evidence : List RequirementEvidence

abbrev pub met_threshold : ℕ
met_threshold = 720000

abbrev pub partial_threshold : ℕ
partial_threshold = 550000

-- the loop over the bullets, from the best so far on
unfoldable pub best_of : (String → ℕ) → ℕ × Option String → List String → ℕ × Option String
best_of score_of best [] = best
best_of score_of best (b ∷ bs) =
    best_of score_of (if ltb best.0 (score_of b) then (score_of b, some b) else best) bs

unfoldable pub evidence_for : String → ℕ × Option String → RequirementEvidence
evidence_for requirement (best_score, best_bullet) = record {
  requirement = requirement;
  similarity = round_div best_score 1000;
  best_bullet = if leb partial_threshold best_score then best_bullet else none;
  status =
      if leb met_threshold best_score
      then met
      else if leb partial_threshold best_score
      then partial
      else missing;
}

abbrev pub no_evidence : PostingRequirement → RequirementEvidence
no_evidence r = record {
  requirement = r.text;
  similarity = 0;
  best_bullet = none;
  status = missing;
}

abbrev pub Similarity : Type 0
Similarity = String → String → ℕ

unfoldable pub best_bullet_of : Similarity → List String → PostingRequirement → ℕ × Option String
unfolding best_of
best_bullet_of similarity bullets r = best_of (similarity r.text) (0, none) bullets

-- the total of the best scores, and the evidence
unfoldable pub align :
    Similarity → List String → List PostingRequirement → ℕ × List RequirementEvidence
unfolding best_bullet_of evidence_for
align similarity bullets [] = (0, [])
align similarity bullets (r ∷ rs) =
    let best = best_bullet_of similarity bullets r in
    let (total, evidence) = align similarity bullets rs in
    (best.0 + total, evidence_for r.text best ∷ evidence)

abbrev pub without_bullets : List PostingRequirement → List RequirementEvidence
without_bullets [] = []
without_bullets (r ∷ rs) = no_evidence r ∷ without_bullets rs

unfoldable pub requirement_alignment :
    List PostingRequirement → List String → Similarity → RequirementAlignment
unfolding align
requirement_alignment [] bullets similarity = record { score = 10000; evidence = [] }
requirement_alignment (r ∷ rs) [] similarity = record {
  score = 0;
  evidence = without_bullets (r ∷ rs);
}
requirement_alignment (r ∷ rs) (b ∷ bs) similarity =
    let (total, evidence) = align similarity (b ∷ bs) (r ∷ rs) in
    record { score = round_div total (100 * length (r ∷ rs)); evidence = evidence }

pub data Seniority : Type 0 where
  intern junior mid senior staff principal : Seniority

-- the place in `SENIORITY_ORDER`
abbrev pub order : Seniority → ℕ
order intern = 0
order junior = 1
order mid = 2
order senior = 3
order staff = 4
order principal = 5

pub data FitReason : Type 0 where
  level_not_stated level_matches : FitReason
  levels_above levels_below : ℕ → FitReason

unfoldable pub seniority_fit : Option Seniority → Option Seniority → ℕ × FitReason
seniority_fit none posting = (7000, level_not_stated)
seniority_fit (some candidate) none = (7000, level_not_stated)
seniority_fit (some candidate) (some posting) =
    let above = order posting - order candidate in
    let below = order candidate - order posting in
    if ltb 0 above
    then (10000 - 3000 * above, levels_above above)
    else if ltb 0 below
    then (10000 - 1500 * below, levels_below below)
    else (10000, level_matches)

-- `min` and `max` of a pool, from a member on
unfoldable pub lowest_of : ℕ → List ℕ → ℕ
lowest_of s [] = s
lowest_of s (t ∷ ts) = min s (lowest_of t ts)

unfoldable pub highest_of : ℕ → List ℕ → ℕ
highest_of s [] = s
highest_of s (t ∷ ts) = max s (highest_of t ts)

-- `math.isclose` of two numbers, at its relative tolerance of 1e-9
abbrev pub is_close : ℕ → ℕ → Bool
is_close a b = leb ((a - b + (b - a)) * 1000000000) (max a b)

-- a score below the pool is negative
pub data Normalized : Type 0 where
  at_least_lowest below_lowest : ℕ → Normalized

unfoldable pub normalize_semantic : ℕ → List ℕ → Normalized
unfolding lowest_of highest_of
normalize_semantic raw_score [] = at_least_lowest 5000
normalize_semantic raw_score (s ∷ ss) =
    let lowest = lowest_of s ss in
    let highest = highest_of s ss in
    if is_close highest lowest
    then at_least_lowest 5000
    else if ltb raw_score lowest
    then below_lowest (round_div (10000 * (lowest - raw_score)) (highest - lowest))
    else at_least_lowest (round_div (10000 * (raw_score - lowest)) (highest - lowest))

-- `half_power age half_life` is `round(0.5 ** (age / half_life), 4)`, both in seconds.
unfoldable pub freshness : (half_power : ℕ → ℕ → ℕ) → Option ℕ → ℕ → ℕ → ℕ
freshness half_power none now half_life = 5000
freshness half_power (some posted_at) now half_life =
    if ltb now posted_at then 10000 else half_power (now - posted_at) half_life
