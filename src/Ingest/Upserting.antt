-- ===== src/Ingest/Upserting.antt =====
-- `_upsert_posting` as an insertion into a map by source and external id.
use mathlib.Core.Bool.{false≢true}
use career_pilot_ai.Prelude.{
  ℕ, ◌≡◌, ◌≢◌, refl, sym, ap, ◌∙◌, ◌⊎◌, ◌&&◌, str_eq, not, keep_if, is_some, inl, inr, String, Bool,
  true, false, Option, none, some, List, [], ◌∷◌, if◌then◌else◌, eq_iff, Bool-cases, arith,
}
use career_pilot_ai.Ingest.{
  NormalizedJob, JobPosting, is_key, refreshed, or_else, update_posting, upsert_posting,
}

-- whether a row stands under a key
abbrev pub stands_under : String → String → JobPosting → Bool
stands_under source_id external_id p =
    str_eq p.source_id source_id && str_eq p.job.external_id external_id

-- the posting of a key
pub posting_of : String → String → List JobPosting → Option JobPosting
posting_of s e [] = none
posting_of s e (p ∷ ps) =
    let rest = posting_of s e ps in if stands_under s e p then some p else rest

-- what a key holds after an upsert, by what it held
abbrev upserted : ℕ → ℕ → String → ℕ → NormalizedJob → Option JobPosting → JobPosting
unfolding update_posting
upserted id now source_id company_id job (some p) = update_posting now company_id job p
upserted id now source_id company_id job none = record {
  id = id;
  source_id = source_id;
  company_id = company_id;
  job = job;
  last_seen_at = now;
  updated_at = now;
}

-- What a refresh leaves of a row and takes from the posting.
pub record IsRefreshed (now company_id : ℕ) (job : NormalizedJob) (old new : JobPosting)
    : Type 0 where
  pub same_id : new.id ≡ old.id
  pub same_source : new.source_id ≡ old.source_id
  pub new_company : new.company_id ≡ company_id
  pub body :
      ((job.description_text ≡ "") × (new.job.description_text ≡ old.job.description_text))
      ⊎ ((job.description_text ≢ "") × (new.job.description_text ≡ job.description_text))
  pub date :
      ((is_some old.job.posted_at ≡ true) × (new.job.posted_at ≡ old.job.posted_at))
      ⊎ ((old.job.posted_at ≡ none) × (new.job.posted_at ≡ job.posted_at))
  pub same_platform : new.job.ats_platform ≡ old.job.ats_platform
  pub same_confidence : new.job.ats_confidence ≡ old.job.ats_confidence
  pub same_detection : new.job.detection_method ≡ old.job.detection_method
  -- every other column is the posting's
  pub others :
      record new.job {
        description_text = job.description_text;
        posted_at = job.posted_at;
        ats_platform = job.ats_platform;
        ats_confidence = job.ats_confidence;
        detection_method = job.detection_method;
      }
      ≡ job
  pub seen : new.last_seen_at ≡ now
  pub updated : new.updated_at ≡ now

-- What an upsert of `job` leaves under its key and returns, by what the key held.
pub data IsUpserted (id now : ℕ) (source_id : String) (company_id : ℕ) (job : NormalizedJob)
    : Option JobPosting → Option JobPosting → ℕ × Bool → Type 0 where
  was_there :
      {old new : JobPosting}
      → IsRefreshed now company_id job old new
      → IsUpserted id now source_id company_id job (some old) (some new) (old.id, false)
  was_new :
      IsUpserted id now source_id company_id job none
        (some record {
          id = id;
          source_id = source_id;
          company_id = company_id;
          job = job;
          last_seen_at = now;
          updated_at = now;
        })
        (id, true)

-- and what the statement returns
abbrev returned_of : ℕ → Option JobPosting → ℕ × Bool
returned_of id (some p) = (p.id, false)
returned_of id none = (id, true)

module _ (id now : ℕ) (source_id : String) (company_id : ℕ) (job : NormalizedJob) where
  -- the key of the row that the statement writes
  is_key-upserted :
      (p : JobPosting)
      → is_key source_id job.external_id p ≡ true
      → is_key source_id job.external_id (update_posting now company_id job p) ≡ true
  unfolding update_posting refreshed
  is_key-upserted p h = ground (arith, h, (eq_iff job.external_id job.external_id).1 refl)

  own_key : is_key source_id job.external_id (upserted id now source_id company_id job none) ≡ true
  unfolding upserted
  own_key =
      rw ((eq_iff source_id source_id).1 refl) ((eq_iff job.external_id job.external_id).1 refl)

  upsert_posting-upserted :
      (ps : List JobPosting)
      → (posting_of source_id job.external_id (upsert_posting id now source_id company_id job ps).1
          ≡ some
              (upserted id now source_id company_id job (posting_of source_id job.external_id ps)))
        × ((upsert_posting id now source_id company_id job ps).0
            ≡ returned_of id (posting_of source_id job.external_id ps))
  unfolding upsert_posting posting_of
  upsert_posting-upserted [] = (rw own_key refl, refl)
  upsert_posting-upserted (p ∷ ps) = elim (Bool-cases (is_key source_id job.external_id p)) [
    | inl h ↦ rw h (rw (is_key-upserted p h) refl, refl)
    | inr h ↦ rw (h, h) (upsert_posting-upserted ps)
  ]

  -- A row of another key is left as it is.
  others_kept :
      (ps : List JobPosting)
      → keep_if
          (λ p. not (stands_under source_id job.external_id p))
          (upsert_posting id now source_id company_id job ps).1
        ≡ keep_if (λ p. not (stands_under source_id job.external_id p)) ps
  unfolding upsert_posting
  others_kept [] = rw own_key refl
  others_kept (p ∷ ps) = elim (Bool-cases (is_key source_id job.external_id p)) [
    | inl h ↦ rw h (rw (is_key-upserted p h) refl)
    | inr h ↦ rw (h, h) (ap (λ qs. p ∷ qs) (others_kept ps))
  ]

  update_posting-IsRefreshed :
      (p : JobPosting) → IsRefreshed now company_id job p (update_posting now company_id job p)
  unfolding update_posting refreshed
  update_posting-IsRefreshed p = record {
    same_id = refl;
    same_source = refl;
    new_company = refl;
    body = elim (Bool-cases (str_eq job.description_text "")) [
      | inl e ↦ inl ((eq_iff job.description_text "").0 e, rw e refl)
      | inr e ↦ inr (λ q. false≢true (sym e ∙ (eq_iff job.description_text "").1 q), rw e refl)
    ];
    date = dated p.job.posted_at refl;
    same_platform = refl;
    same_confidence = refl;
    same_detection = refl;
    others = refl;
    seen = refl;
    updated = refl;
  }
    where
      dated :
          (o : Option ℕ)
          → p.job.posted_at ≡ o
          → ((is_some p.job.posted_at ≡ true)
              × (or_else p.job.posted_at job.posted_at ≡ p.job.posted_at))
            ⊎ ((p.job.posted_at ≡ none) × (or_else p.job.posted_at job.posted_at ≡ job.posted_at))
      dated none e = inr (e, rw e refl)
      dated (some t) e = inl (rw e refl, rw e refl)

  -- An upsert inserts the posting under its key, with the generated id, where the key held none.
  -- Where it held a row, that row stays under its id and is refreshed: an empty body, a date where
  -- one was known, and the platform with its confidence and detection do not overwrite what is
  -- there; every other column becomes the posting's. The statement says which of the two it did,
  -- with the id, and the rows of other keys stay as they are.
  pub upsert_posting-posting_of :
      (ps : List JobPosting)
      → let (result, after) = upsert_posting id now source_id company_id job ps in
        IsUpserted id now source_id company_id job
          (posting_of source_id job.external_id ps)
          (posting_of source_id job.external_id after)
          result
        × (keep_if (λ p. not (stands_under source_id job.external_id p)) after
            ≡ keep_if (λ p. not (stands_under source_id job.external_id p)) ps)
  unfolding upserted
  upsert_posting-posting_of ps =
      let (a, b) = upsert_posting-upserted ps in
      (rw (a, b) (by_held (posting_of source_id job.external_id ps)), others_kept ps)
    where
      by_held :
          (held : Option JobPosting)
          → IsUpserted id now source_id company_id job held
              (some (upserted id now source_id company_id job held))
              (returned_of id held)
      by_held none = was_new
      by_held (some p) = was_there (update_posting-IsRefreshed p)
