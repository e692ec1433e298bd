-- ===== src/Matching/Shortlist.antt =====
-- The rows that a matching run keeps: the persistence of backend/app/services/matching.py, and the
-- two queries of backend/app/api/v1/matches.py that select by the gate. Ids and instants are
-- numbers, the prose of an explanation is the record of its parts, and the rows of a requirement
-- table are read in its order.
pub mod Recorded
pub mod Gated
use career_pilot_ai.Prelude.{
  ℕ, suc, String, Bool, true, false, ◌&&◌, not, Option, none, some, List, [], ◌∷◌, ◌++◌, map, leb,
  ◌==◌, if◌then◌else◌, is_empty, is_none, any, keep_if, length, sort_by, str_eq, take,
}
use career_pilot_ai.Scoring.{Percentile, percentile_of}
use career_pilot_ai.Scoring.Aggregate.{MatchScore, Term, Terms, same_term}
use career_pilot_ai.Scoring.Subscores.{
  EvidenceStatus, FitReason, RequirementAlignment, RequirementEvidence, RequirementKind,
  SkillCoverage,
}
use career_pilot_ai.Matching.Requirements.{Span}
use career_pilot_ai.Matching.{GateFailure, GateResult}

abbrev pub current_model_version : String
current_model_version = "match-1"

-- The parts of `_explain`: no coverage where no skill requirement could be extracted.
pub record Explanation : Type 0 where
  pub coverage : Option (ℕ × ℕ)
  pub fit_reason : FitReason
  pub missing_must_haves : List String
  pub standing : Percentile

pub record MatchRow : Type 0 where
  pub id : ℕ
  pub user_id : ℕ
  pub profile_id : ℕ
  pub posting_id : ℕ
  pub total_score : ℕ
  pub percentile : Option ℕ
  pub gate_passed : Bool
  pub gate_failures : Option (List GateFailure)
  pub subscores : Option (Terms × List (Term × ℕ))
  pub rank : Option ℕ
  pub model_version : String
  pub explanation : Option Explanation
  pub gaps : Option (List String)
  pub computed_at : ℕ

pub record EvidenceRow : Type 0 where
  pub match_id : ℕ
  pub requirement_id : ℕ
  pub status : EvidenceStatus
  pub similarity : ℕ
  pub note : Option String

pub record RequirementRow : Type 0 where
  pub id : ℕ
  pub posting_id : ℕ
  pub text : String
  pub kind : RequirementKind
  pub is_must_have : Bool
  pub skill_id : Option ℕ
  pub span : Span

pub record Tables : Type 0 where
  pub matches : List MatchRow
  pub match_evidence : List EvidenceRow
  pub job_requirements : List RequirementRow
  pub next_id : ℕ

pub record ScoredItem : Type 0 where
  pub posting_id : ℕ
  pub score : MatchScore
  pub coverage : SkillCoverage
  pub alignment : RequirementAlignment
  pub fit_reason : FitReason

pub record Withheld : Type 0 where
  pub posting_id : ℕ
  pub result : GateResult

-- the unique constraint
abbrev pub same_key : MatchRow → MatchRow → Bool
same_key a b =
    a.profile_id == b.profile_id
    && a.posting_id == b.posting_id
    && str_eq a.model_version b.model_version

-- `INSERT ... ON CONFLICT ... DO UPDATE SET`
unfoldable pub upsert : MatchRow → (MatchRow → MatchRow) → List MatchRow → List MatchRow
upsert row set [] = row ∷ []
upsert row set (m ∷ ms) =
    let rest = upsert row set ms in if same_key row m then set m ∷ ms else m ∷ rest

-- `RETURNING id`
unfoldable pub returned_id : MatchRow → List MatchRow → ℕ
returned_id row [] = row.id
returned_id row (m ∷ ms) = let rest = returned_id row ms in if same_key row m then m.id else rest

unfoldable pub explain : SkillCoverage → FitReason → Percentile → List Term → Explanation
explain coverage fit_reason standing unavailable = record {
  coverage =
      if any (same_term Term.skill_coverage) unavailable
      then none
      else some (coverage.matched_count, coverage.total_count);
  fit_reason = fit_reason;
  missing_must_haves = take 3 coverage.missing_must_haves;
  standing = standing;
}

abbrev pub gaps_of : SkillCoverage → List String
gaps_of c = if is_empty c.missing_must_haves then take 5 c.missing else c.missing_must_haves

-- the row that `_persist` inserts
unfoldable pub scored_row : ℕ → ℕ → ℕ → List ℕ → ℕ → ScoredItem → ℕ → MatchRow
unfolding explain
scored_row now user profile totals rank item id =
    let standing = percentile_of item.score.total totals in
    record {
      id = id;
      user_id = user;
      profile_id = profile;
      posting_id = item.posting_id;
      total_score = item.score.total;
      percentile = some standing.value;
      gate_passed = true;
      gate_failures = none;
      subscores = some (item.score.subscores, item.score.contributions);
      rank = some rank;
      model_version = current_model_version;
      explanation = some (explain item.coverage item.fit_reason standing item.score.unavailable);
      gaps = some (gaps_of item.coverage);
      computed_at = now;
    }

-- what its conflict clause sets
abbrev pub set_score : MatchRow → MatchRow → MatchRow
set_score excluded m = record m {
  total_score = excluded.total_score;
  percentile = excluded.percentile;
  subscores = excluded.subscores;
  rank = excluded.rank;
  explanation = excluded.explanation;
  gaps = excluded.gaps;
  computed_at = excluded.computed_at;
}

-- `requirement_ids.get(text)` on the dict of a posting's rows, in which a later row replaces an
-- earlier one
unfoldable pub requirement_id_of : ℕ → String → List RequirementRow → Option ℕ
requirement_id_of posting text [] = none
requirement_id_of posting text (r ∷ rs) =
    let later = requirement_id_of posting text rs in
    if not (is_none later)
    then later
    else if r.posting_id == posting && str_eq r.text text
    then some r.id
    else none

abbrev pub add_evidence : ℕ → RequirementEvidence → Option ℕ → List EvidenceRow → List EvidenceRow
add_evidence match_id e none rows = rows
add_evidence match_id e (some requirement_id) rows =
    record {
      match_id = match_id;
      requirement_id = requirement_id;
      status = e.status;
      similarity = e.similarity;
      note = e.best_bullet;
    }
    ∷ rows

-- the rows that `_persist_evidence` inserts
unfoldable pub evidence_rows :
    ℕ → ℕ → List RequirementRow → List RequirementEvidence → List EvidenceRow
unfolding requirement_id_of
evidence_rows match_id posting requirements [] = []
evidence_rows match_id posting requirements (e ∷ es) =
    add_evidence match_id e (requirement_id_of posting e.requirement requirements)
      (evidence_rows match_id posting requirements es)

unfoldable pub persist_item : ℕ → ℕ → ℕ → List ℕ → ℕ → ScoredItem → Tables → Tables
unfolding upsert returned_id scored_row evidence_rows
persist_item now user profile totals rank item tables =
    let row = scored_row now user profile totals rank item tables.next_id in
    let match_id = returned_id row tables.matches in
    record {
      matches = upsert row (set_score row) tables.matches;
      match_evidence =
          tables.match_evidence
          ++ evidence_rows match_id item.posting_id tables.job_requirements item.alignment.evidence;
      job_requirements = tables.job_requirements;
      next_id = suc tables.next_id;
    }

unfoldable pub persist_from : ℕ → ℕ → ℕ → List ℕ → ℕ → List ScoredItem → Tables → Tables
unfolding persist_item
persist_from now user profile totals rank [] tables = tables
persist_from now user profile totals rank (item ∷ items) tables =
    persist_from now user profile totals (suc rank) items
      (persist_item now user profile totals rank item tables)

-- `_persist`: the count of persisted items, and the tables
unfoldable pub persist : ℕ → ℕ → ℕ → List ScoredItem → Tables → ℕ × Tables
unfolding persist_from
persist now user profile scored tables =
    let totals = map (λ (i : ScoredItem). i.score.total) scored in
    (length scored, persist_from now user profile totals 1 scored tables)

-- the row that `_persist_withheld` inserts
abbrev pub withheld_row : ℕ → ℕ → ℕ → Withheld → ℕ → MatchRow
withheld_row now user profile w id = record {
  id = id;
  user_id = user;
  profile_id = profile;
  posting_id = w.posting_id;
  total_score = 0;
  percentile = none;
  gate_passed = false;
  gate_failures = some w.result.failures;
  subscores = none;
  rank = none;
  model_version = current_model_version;
  explanation = none;
  gaps = none;
  computed_at = now;
}

-- what its conflict clause sets
abbrev pub set_failures : MatchRow → MatchRow → MatchRow
set_failures excluded m = record m {
  gate_failures = excluded.gate_failures;
  computed_at = excluded.computed_at;
}

unfoldable pub withhold_all : ℕ → ℕ → ℕ → List Withheld → Tables → Tables
unfolding upsert
withhold_all now user profile [] tables = tables
withhold_all now user profile (w ∷ ws) tables =
    let row = withheld_row now user profile w tables.next_id in
    withhold_all now user profile ws (record tables {
      matches = upsert row (set_failures row) tables.matches;
      next_id = suc tables.next_id;
    })

unfoldable pub persist_withheld : ℕ → ℕ → ℕ → List Withheld → Tables → Tables
unfolding withhold_all
persist_withheld now user profile withheld tables =
    withhold_all now user profile (take 200 withheld) tables

-- `WHERE m.user_id = :user_id AND m.gate_passed AND m.model_version = :model_version`
unfoldable pub is_listed : ℕ → MatchRow → Bool
is_listed user m =
    m.user_id == user && m.gate_passed && str_eq m.model_version current_model_version

abbrev pub reaches : ℕ → Option ℕ → Bool
reaches min_percentile none = false
reaches min_percentile (some p) = leb min_percentile p

unfoldable pub is_shown : ℕ → ℕ → MatchRow → Bool
unfolding is_listed
is_shown user min_percentile m = is_listed user m && reaches min_percentile m.percentile

-- the matches that `list_matches` selects before the filters on their postings
unfoldable pub shortlist : ℕ → ℕ → Tables → List MatchRow
unfolding is_shown
shortlist user min_percentile tables = keep_if (is_shown user min_percentile) tables.matches

-- `pool_size`
unfoldable pub pool_size : ℕ → Tables → ℕ
unfolding is_listed
pool_size user tables = length (keep_if (is_listed user) tables.matches)

-- what `withheld` selects, the latest first
unfoldable pub withheld_matches : ℕ → ℕ → Tables → List MatchRow
withheld_matches user limit tables = take limit (
    sort_by (λ (a b : MatchRow). leb b.computed_at a.computed_at)
      (keep_if
        (λ (m : MatchRow).
          m.user_id == user && not m.gate_passed && str_eq m.model_version current_model_version)
        tables.matches))
