-- ===== src/Matching/Extraction.antt =====
-- The requirements of a finalist, extracted once and kept: `_requirements_for` and
-- `_persist_requirements` of backend/app/services/matching.py. The reply of the model, the ids that
-- are generated and the lookups of the taxonomy and of the table of skills are arguments.
pub mod Again
use career_pilot_ai.Prelude.{
  ℕ, suc, String, Bool, true, false, Option, none, some, List, [], ◌∷◌, ◌++◌, map, leb, ◌==◌,
  if◌then◌else◌, is_empty, keep_if, sort_by, str_eq,
}
use career_pilot_ai.Scoring.Subscores.{PostingRequirement, named}
use career_pilot_ai.Matching.Requirements.{
  Extracted, LlmRequirement, Patterns, Span, extract_requirements_heuristic, ground_requirements,
}
use career_pilot_ai.Matching.Shortlist.{RequirementRow, Tables}

-- What the two paths of the extraction need.
pub record Extractors : Type 0 where
  pub patterns : Patterns
  pub splitlines : String → List String
  pub find_span : String → String → Option Span
  -- from a title and a description: none without a provider, and none in it where it fails
  pub llm : Option (String → String → Option (List LlmRequirement))
  pub generated_id : ℕ → ℕ
  pub first_mention : String → Option String
  pub id_of_skill : String → Option ℕ

pub record JobText : Type 0 where
  pub id : ℕ
  pub title : String
  pub description_text : String

abbrev pub replied :
    Extractors
    → JobText
    → Option (String → String → Option (List LlmRequirement))
    → Option (List LlmRequirement)
replied x job none = none
replied x job (some complete) = complete job.title job.description_text

abbrev pub grounded : Extractors → JobText → Option (List LlmRequirement) → List Extracted
grounded x job none = []
grounded x job (some items) = ground_requirements x.find_span job.description_text items

unfoldable pub extracted_of : Extractors → JobText → List Extracted
extracted_of x job =
    let by_model = grounded x job (replied x job x.llm) in
    if is_empty by_model
    then extract_requirements_heuristic x.patterns x.splitlines job.description_text
    else by_model

-- the skill that a row refers to
abbrev pub skill_id_of : Extractors → Option String → Option ℕ
skill_id_of x none = none
skill_id_of x (some name) = if str_eq name "" then none else x.id_of_skill name

abbrev pub span_or_empty : Option Span → Span
span_or_empty none = record { start = 0; end = 0 }
span_or_empty (some s) = s

abbrev pub new_row : Extractors → ℕ → ℕ → Extracted → RequirementRow
new_row x posting id (r, span) = record {
  id = id;
  posting_id = posting;
  text = r.text;
  kind = r.kind;
  is_must_have = r.is_must_have;
  skill_id = skill_id_of x (if named r.skill_name then r.skill_name else x.first_mention r.text);
  span = span_or_empty span;
}

-- the rows that are inserted, from a generated id on
unfoldable pub new_rows : Extractors → ℕ → ℕ → List Extracted → List RequirementRow
new_rows x posting next [] = []
new_rows x posting next (e ∷ es) =
    new_row x posting (x.generated_id next) e ∷ new_rows x posting (suc next) es

abbrev pub ids_after : ℕ → List Extracted → ℕ
ids_after next [] = next
ids_after next (e ∷ es) = ids_after (suc next) es

unfoldable pub persist_requirements : Extractors → ℕ → List Extracted → Tables → Tables
unfolding new_rows
persist_requirements x posting extracted tables = record tables {
  job_requirements = tables.job_requirements ++ new_rows x posting tables.next_id extracted;
  next_id = ids_after tables.next_id extracted;
}

-- the requirement that is read from a row
abbrev pub read_row : RequirementRow → PostingRequirement
read_row row = record {
  text = row.text;
  kind = row.kind;
  is_must_have = row.is_must_have;
  skill_name = none;
  alternatives = [];
}

abbrev pub requirement_of : Extracted → PostingRequirement
requirement_of e = e.0

unfoldable pub rows_of : ℕ → List RequirementRow → List RequirementRow
rows_of posting rows = keep_if (λ (r : RequirementRow). r.posting_id == posting) rows

abbrev pub is_earlier : RequirementRow → RequirementRow → Bool
is_earlier a b = leb a.id b.id

unfoldable pub requirements_for : Extractors → JobText → Tables → List PostingRequirement × Tables
unfolding extracted_of persist_requirements rows_of
requirements_for x job tables =
    let stored = rows_of job.id tables.job_requirements in
    let extracted = extracted_of x job in
    if is_empty stored
    then (map requirement_of extracted, persist_requirements x job.id extracted tables)
    else (map read_row (sort_by is_earlier stored), tables)
