-- ===== src/Matching/Requirements.antt =====
-- backend/app/domain/jobs/requirements.py. The regular expressions and `str.splitlines` are
-- arguments; so are the taxonomy's search of a text for skills, and the search for a quote.
pub mod Spans
pub mod Expanded
use career_pilot_ai.Prelude.{
  ℕ, suc, zero, ◌+◌, ◌-◌, String, Bool, true, false, ◌&&◌, ◌||◌, not, Option, none, some, List, [],
  ◌∷◌, ◌++◌, map, leb, ltb, if◌then◌else◌, is_none, is_empty, any, keep_if, length, take, str_eq,
  prefix, strip, lstrip,
}
use career_pilot_ai.Matching.{contains}
use career_pilot_ai.Scoring.Subscores.{PostingRequirement, RequirementKind, name_or_blank}

abbrev pub max_requirements : ℕ
max_requirements = 30

abbrev pub max_requirement_chars : ℕ
max_requirement_chars = 400

-- What the module's patterns say of a text: `heading` is the folded label of a section heading, and
-- `bullet_end` the end of a bullet's marker.
pub record Patterns : Type 0 where
  pub heading : String → Option String
  pub bullet_end : String → Option ℕ
  pub must_have : String → Bool
  pub nice_to_have : String → Bool
  pub authorization : String → Bool
  pub language : String → Bool
  pub education : String → Bool
  pub years : String → Bool

pub record Span : Type 0 where
  pub start : ℕ
  pub end : ℕ

-- a requirement with the place of its evidence
abbrev pub Extracted : Type 0
Extracted = PostingRequirement × Option Span

-- `len(text)` and `text[n:]`
unfoldable pub text_length : String → ℕ
text_length String.[] = 0
text_length (String.◌∷◌ c s) = suc (text_length s)

unfoldable pub drop_text : ℕ → String → String
drop_text zero s = s
drop_text (suc n) String.[] = ""
drop_text (suc n) (String.◌∷◌ c s) = drop_text n s

unfoldable pub classify_kind : Patterns → String → RequirementKind
classify_kind patterns text =
    if patterns.authorization text
    then RequirementKind.auth
    else if patterns.language text
    then RequirementKind.language
    else if patterns.education text
    then RequirementKind.education
    else if patterns.years text
    then RequirementKind.experience
    else RequirementKind.skill

-- Where the reading of a description stands.
pub record Reading : Type 0 where
  pub section_must_have : Option Bool
  pub section_has_bullets : Bool
  pub offset : ℕ
  pub results : List Extracted

abbrev pub section_of : String → Option Bool
section_of label =
    if contains "nice" label || contains "preferred" label
    then some false
    else if contains "responsibilit" label
    then none
    else some true

abbrev pub or_false : Option Bool → Bool
or_false none = false
or_false (some b) = b

abbrev pub is_must : Patterns → String → Option Bool → Bool
is_must patterns content section =
    if patterns.nice_to_have content
    then false
    else if patterns.must_have content
    then true
    else or_false section

-- the rest of the loop's body, from the start of the content on
unfoldable pub add_content : Patterns → ℕ → String → ℕ → Reading → Reading
unfolding text_length drop_text classify_kind
add_content patterns content_start raw line_start reading =
    let content = strip (drop_text content_start raw) in
    let start = line_start + content_start in
    if leb 15 (text_length content) && leb (text_length content) max_requirement_chars
    then record reading {
      results =
          reading.results
          ++ (
            record {
              text = content;
              kind = classify_kind patterns content;
              is_must_have = is_must patterns content reading.section_must_have;
              skill_name = none;
              alternatives = [];
            },
            some (record { start = start; end = start + text_length content }),
          )
            ∷ [];
    }
    else reading

unfoldable pub read_content : Patterns → String → ℕ → Reading → Reading
unfolding add_content
read_content patterns raw line_start reading = elim (patterns.bullet_end raw) [
  | none ↦
      if is_none reading.section_must_have || reading.section_has_bullets
      then reading
      else add_content patterns (text_length raw - text_length (lstrip raw)) raw line_start reading
  | some marker_end ↦
      add_content patterns marker_end raw line_start (record reading { section_has_bullets = true })
]

unfoldable pub read_line : Patterns → String → Reading → Reading
unfolding read_content
read_line patterns raw reading =
    let next = record reading { offset = reading.offset + text_length raw } in
    let stripped = strip raw in
    if str_eq stripped "" then next else elim (patterns.heading stripped) [
      | some label ↦ record next {
        section_must_have = section_of label;
        section_has_bullets = false;
      }
      | none ↦ read_content patterns raw reading.offset next
    ]

-- the loop over the lines, which ends when it has the most requirements
unfoldable pub read_lines : Patterns → List String → Reading → Reading
unfolding read_line
read_lines patterns [] reading = reading
read_lines patterns (raw ∷ lines) reading =
    let next = read_line patterns raw reading in
    let later = read_lines patterns lines next in
    if leb max_requirements (length next.results) then next else later

abbrev pub start_reading : Reading
start_reading = record {
  section_must_have = none;
  section_has_bullets = false;
  offset = 0;
  results = [];
}

unfoldable pub extract_requirements_heuristic :
    Patterns → (splitlines : String → List String) → String → List Extracted
unfolding read_lines
extract_requirements_heuristic patterns splitlines description =
    (read_lines patterns (splitlines description) start_reading).results

-- One requirement as the extraction model returns it; a kind that is not among the known is none.
pub record LlmRequirement : Type 0 where
  pub text : String
  pub quote : String
  pub kind : Option RequirementKind
  pub is_must_have : Bool
  pub skill_name : Option String

abbrev pub kind_or_skill : Option RequirementKind → RequirementKind
kind_or_skill none = RequirementKind.skill
kind_or_skill (some k) = k

unfoldable pub ground_all :
    (find_span : String → String → Option Span) → String → List LlmRequirement → List Extracted
ground_all find_span description [] = []
ground_all find_span description (item ∷ items) =
    let rest = ground_all find_span description items in
    elim (find_span description (if str_eq item.quote "" then item.text else item.quote)) [
      | none ↦ rest
      | some span ↦
          (
            record {
              text = prefix max_requirement_chars item.text;
              kind = kind_or_skill item.kind;
              is_must_have = item.is_must_have;
              skill_name = item.skill_name;
              alternatives = [];
            },
            some span,
          )
          ∷ rest
    ]

unfoldable pub ground_requirements :
    (find_span : String → String → Option Span) → String → List LlmRequirement → List Extracted
unfolding ground_all
ground_requirements find_span description extracted =
    take max_requirements (ground_all find_span description extracted)

abbrev pub same_flag : Bool → Bool → Bool
same_flag true b = b
same_flag false b = not b

-- `key in seen`: the keys that are seen are those of the requirements that were added
abbrev pub has_key : String → Bool → PostingRequirement → Bool
has_key primary must e =
    str_eq (name_or_blank e.skill_name) primary && same_flag e.is_must_have must

-- no group is empty
unfoldable pub add_group :
    PostingRequirement → List String → List PostingRequirement → List PostingRequirement
add_group r [] expanded = expanded
add_group r (primary ∷ others) expanded =
    if str_eq primary "" || any (has_key primary r.is_must_have) expanded
    then expanded
    else expanded
      ++ record {
        text = r.text;
        kind = RequirementKind.skill;
        is_must_have = r.is_must_have;
        skill_name = some primary;
        alternatives = others;
      }
        ∷ []

unfoldable pub add_groups :
    PostingRequirement → List (List String) → List PostingRequirement → List PostingRequirement
unfolding add_group
add_groups r [] expanded = expanded
add_groups r (g ∷ gs) expanded = add_groups r gs (add_group r g expanded)

module _ (split_conjunctions : String → List String) (has_alternation : String → Bool)
    (find_skills : String → List String) where
  abbrev pub each_alone : List String → List (List String)
  each_alone [] = []
  each_alone (s ∷ ss) = (s ∷ []) ∷ each_alone ss

  abbrev pub groups_of : String → List String → List (List String)
  groups_of segment found =
      if ltb 1 (length found) && has_alternation segment then found ∷ [] else each_alone found

  unfoldable pub groups_in : List String → List (List String)
  groups_in [] = []
  groups_in (segment ∷ segments) =
      let rest = groups_in segments in
      if str_eq (strip segment) "" then rest else groups_of segment (find_skills segment) ++ rest

  -- `_skill_groups`
  unfoldable pub skill_groups : String → List (List String)
  unfolding groups_in
  skill_groups text = groups_in (split_conjunctions text)

  abbrev pub names_skill : PostingRequirement → Bool
  names_skill r = elim r.kind [
    | RequirementKind.skill ↦ true
    | RequirementKind.experience ↦ true
    | _ ↦ false
  ]

  abbrev pub groups_for : PostingRequirement → Option String → List (List String)
  groups_for r none = skill_groups r.text
  groups_for r (some s) = if str_eq s "" then skill_groups r.text else (s ∷ []) ∷ []

  unfoldable pub expand_from :
      List PostingRequirement → List PostingRequirement → List PostingRequirement
  unfolding skill_groups add_groups
  expand_from [] expanded = expanded
  expand_from (r ∷ rs) expanded =
      expand_from rs
        (if names_skill r then add_groups r (groups_for r r.skill_name) expanded else expanded)

  unfoldable pub expand_skill_requirements : List PostingRequirement → List PostingRequirement
  unfolding expand_from
  expand_skill_requirements requirements = expand_from requirements []
