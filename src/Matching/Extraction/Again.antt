-- ===== src/Matching/Extraction/Again.antt =====
-- What the requirements of a finalist are when they are asked for again: `_requirements_for` of
-- backend/app/services/matching.py.
use mathlib.Core.List.{Perm, append-nil}
use mathlib.Core.List.Perm
use career_pilot_ai.Prelude.{
  ℕ, suc, ◌≡◌, refl, sym, ap, ◌∙◌, subst, inl, inr, ◌⊎◌, true, false, none, List, [], ◌∷◌, ◌++◌,
  map, ◌==◌, ==_refl, is_empty, sort_by, sort_by-Perm, Bool-cases,
}
use career_pilot_ai.Scoring.Subscores.{PostingRequirement}
use career_pilot_ai.Matching.Requirements.{Extracted}
use career_pilot_ai.Matching.Shortlist.{RequirementRow, Tables}
use career_pilot_ai.Matching.Extraction.{
  Extractors, JobText, extracted_of, is_earlier, new_row, new_rows, persist_requirements, read_row,
  requirement_of, requirements_for, rows_of,
}

-- without the skill and its alternatives
abbrev pub forget : PostingRequirement → PostingRequirement
forget r = record r { skill_name = none; alternatives = [] }

rows_of-append :
    (posting : ℕ) (rows more : List RequirementRow)
    → rows_of posting (rows ++ more) ≡ rows_of posting rows ++ rows_of posting more
unfolding rows_of
rows_of-append posting [] more = refl
rows_of-append posting (r ∷ rows) more = elim (Bool-cases (r.posting_id == posting)) [
  | inl e ↦ rw e (ap (λ l. r ∷ l) (rows_of-append posting rows more))
  | inr e ↦ rw e (rows_of-append posting rows more)
]

rows_of-new_rows :
    (x : Extractors) (posting next : ℕ) (es : List Extracted)
    → rows_of posting (new_rows x posting next es) ≡ new_rows x posting next es
unfolding rows_of new_rows
rows_of-new_rows x posting next [] = refl
rows_of-new_rows x posting next (e ∷ es) = rw (==_refl posting) (
    ap (λ l. new_row x posting (x.generated_id next) e ∷ l)
      (rows_of-new_rows x posting (suc next) es))

read_new_rows :
    (x : Extractors) (posting next : ℕ) (es : List Extracted)
    → map read_row (new_rows x posting next es) ≡ map forget (map requirement_of es)
unfolding new_rows
read_new_rows x posting next [] = refl
read_new_rows x posting next (e ∷ es) =
    ap (λ l. forget (requirement_of e) ∷ l) (read_new_rows x posting (suc next) es)

forget_read : (rows : List RequirementRow) → map forget (map read_row rows) ≡ map read_row rows
forget_read [] = refl
forget_read (r ∷ rows) = ap (λ l. read_row r ∷ l) (forget_read rows)

empty-eq : (rows : List RequirementRow) → is_empty rows ≡ true → rows ≡ []
empty-eq [] e = refl
empty-eq (r ∷ rows) e = absurd cc

-- the two answers of the code
requirements_for-cases :
    (x : Extractors) (job : JobText) (tables : Tables)
    → ((rows_of job.id tables.job_requirements ≡ [])
        × (requirements_for x job tables ≡ (
          map requirement_of (extracted_of x job),
          persist_requirements x job.id (extracted_of x job) tables,
        )))
      ⊎ ((is_empty (rows_of job.id tables.job_requirements) ≡ false)
          × (requirements_for x job tables ≡ (
            map read_row (sort_by is_earlier (rows_of job.id tables.job_requirements)),
            tables,
          )))
unfolding requirements_for
requirements_for-cases x job tables =
    elim (Bool-cases (is_empty (rows_of job.id tables.job_requirements))) [
      | inl e ↦ inl (empty-eq _ e, rw e refl)
      | inr e ↦ inr (e, rw e refl)
    ]

persist-rows_of :
    (x : Extractors) (posting : ℕ) (es : List Extracted) (tables : Tables)
    → rows_of posting tables.job_requirements ≡ []
    → rows_of posting (persist_requirements x posting es tables).job_requirements
      ≡ new_rows x posting tables.next_id es
unfolding persist_requirements
persist-rows_of x posting es tables e =
    rows_of-append posting tables.job_requirements (new_rows x posting tables.next_id es)
    ∙ ap (λ l. l ++ rows_of posting (new_rows x posting tables.next_id es)) e
    ∙ rows_of-new_rows x posting tables.next_id es

new_rows-nil :
    (x : Extractors) (posting next : ℕ) (es : List Extracted)
    → new_rows x posting next es ≡ []
    → es ≡ []
unfolding new_rows
new_rows-nil x posting next [] e = refl
new_rows-nil x posting next (y ∷ es) e = absurd (cons-ne-nil e)
  where
    cons-ne-nil : {r : RequirementRow} {rows : List RequirementRow} → ¬ (r ∷ rows ≡ [])
    cons-ne-nil e = cc

persist-nil :
    (x : Extractors) (posting : ℕ) (tables : Tables)
    → persist_requirements x posting [] tables ≡ tables
unfolding persist_requirements new_rows
persist-nil x posting tables =
    ap (λ l. record tables { job_requirements = l }) (append-nil tables.job_requirements)

-- A second answer adds nothing to a first one, and has forgotten the skills.
abbrev IsRepeated : List PostingRequirement × Tables → List PostingRequirement × Tables → Type 0
IsRepeated first second = Perm second.0 (map forget first.0) × (second.1 ≡ first.1)

stored-IsRepeated :
    (x : Extractors) (job : JobText) (es : List Extracted) (tables : Tables)
    → rows_of job.id tables.job_requirements ≡ []
    → let kept = persist_requirements x job.id es tables in
      es ≡ extracted_of x job
      → IsRepeated (map requirement_of es, kept) (requirements_for x job kept)
stored-IsRepeated x job es tables e q =
    let kept = persist_requirements x job.id es tables in
    let rows = persist-rows_of x job.id es tables e in
    elim (requirements_for-cases x job kept) [
      | inl (f, p) ↦
          let none_left : es ≡ [] = new_rows-nil x job.id tables.next_id es (sym rows ∙ f) in
          let answer : requirements_for x job kept ≡ ([], kept) =
            p
            ∙ ap (λ l. (map requirement_of l, persist_requirements x job.id l kept))
                (sym q ∙ none_left)
            ∙ ap (λ t. ([], t)) (persist-nil x job.id kept) in
          subst (IsRepeated (map requirement_of es, kept)) (sym answer) (
            subst (λ l. Perm [] (map forget (map requirement_of l))) (sym none_left) Perm.rfl,
            refl,
          )
      | inr (f, p) ↦
          let sorted =
            Perm.map read_row (sort_by-Perm is_earlier (rows_of job.id kept.job_requirements)) in
          subst (IsRepeated (map requirement_of es, kept)) (sym p) (
            subst
                (λ l.
                  Perm (map read_row (sort_by is_earlier (rows_of job.id kept.job_requirements))) l)
                (ap (map read_row) rows ∙ read_new_rows x job.id tables.next_id es) sorted,
            refl,
          )
    ]

-- Asked for again, the requirements of a finalist are read from the rows that the first time left,
-- and nothing more is stored: they are the first ones, in some order, each without its skill and
-- its alternatives.
pub requirements_for_again :
    (x : Extractors) (job : JobText) (tables : Tables)
    → let (first, kept) = requirements_for x job tables in
      let (second, kept_again) = requirements_for x job kept in
      Perm second (map forget first) × (kept_again ≡ kept)
requirements_for_again x job tables = elim (requirements_for-cases x job tables) [
  | inl (e, p) ↦
      subst (λ first. IsRepeated first (requirements_for x job first.1)) (sym p)
        (stored-IsRepeated x job (extracted_of x job) tables e refl)
  | inr (e, p) ↦
      let first : List PostingRequirement × Tables =
        (map read_row (sort_by is_earlier (rows_of job.id tables.job_requirements)), tables) in
      subst (λ first. IsRepeated first (requirements_for x job first.1)) (sym p)
        (subst (IsRepeated first) (sym p) (
          subst (λ l. Perm first.0 l)
              (sym (forget_read (sort_by is_earlier (rows_of job.id tables.job_requirements))))
              Perm.rfl,
          refl,
        ))
]
