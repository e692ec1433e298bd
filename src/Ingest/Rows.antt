-- ===== src/Ingest/Rows.antt =====
-- backend/app/services/ingestion.py: a run's start and the rows that it fetches.
use career_pilot_ai.Prelude.{
  ℕ, ◌+◌, String, Bool, true, false, Option, none, some, List, [], ◌∷◌, ◌++◌,
}
use career_pilot_ai.Companies.{Texts}
use career_pilot_ai.Companies.Directory.{CompanyDirectory, resolve_or_create}
use career_pilot_ai.Ingest.{running, RunReport, RawJob, NormalizedJob, Store, Fresh, upsert_posting}

-- What a run may raise; the text is `str(exc)`.
pub data RunError : Type 0 where
  rate_limited : String → Option ℕ → RunError
  source_unavailable : String → RunError
  other_error : String → RunError

-- A source adapter: the rows that it fetches, what ends them early, and how a row is read.
pub record Adapter : Type 0 where
  pub supports_details : Bool
  pub rows : List RawJob
  pub ending : Option RunError
  pub normalize : RawJob → Option NormalizedJob

-- What the configuration and other code give a run.
pub record Setting : Type 0 where
  pub texts : Texts
  pub is_ats_host : Option String → Bool
  pub aliases : ℕ → List String
  pub company_fuzzy_threshold : ℕ
  pub company_review_threshold : ℕ
  pub zero_row_alert_ratio : ℕ
  pub disabled_text : ℕ → String → String
  pub details_payload : String → List String → String
  pub details_key : String → List String → String

-- `_store_raw`
unfoldable pub store_raw : String → ℕ → RawJob → Store → Store
store_raw source_id run_id raw store = record store {
  raw_payloads =
      store.raw_payloads
      ++ record {
        source_id = source_id;
        run_id = run_id;
        external_id = raw.external_id;
        payload = raw.payload;
      }
        ∷ [];
}

abbrev pub Progress : Type 0
Progress = RunReport × CompanyDirectory × Store

abbrev pub counted : ℕ × Bool → RunReport → RunReport
counted (posting_id, true) r = record r {
  new = r.new + 1;
  changed_posting_ids = r.changed_posting_ids ++ posting_id ∷ [];
}
counted (posting_id, false) r = record r {
  updated = r.updated + 1;
  changed_posting_ids = r.changed_posting_ids ++ posting_id ∷ [];
}

module _ (fresh : Fresh) (now : ℕ) where
  -- `_start_run`
  unfoldable pub start_run : String → Store → ℕ × Store
  start_run source_id store =
      let id = fresh.run store.runs in
      (
        id,
        record store {
          runs =
              store.runs
              ++ record {
                id = id;
                source_id = source_id;
                started_at = now;
                finished_at = none;
                fetched = 0;
                new_count = 0;
                updated_count = 0;
                errors = 0;
                status = running;
              }
                ∷ [];
        },
      )

module _ (setting : Setting) (fresh : Fresh) (now : ℕ) where
  -- a row that could be read, or could not
  unfoldable pub keep_job : String → Option NormalizedJob → Progress → Progress
  unfolding resolve_or_create upsert_posting
  keep_job source_id none (r, d, store) = (record r { errors = r.errors + 1 }, d, store)
  keep_job source_id (some job) (r, d, store) =
      let ((company_id, resolution), d') =
        resolve_or_create setting.texts setting.is_ats_host fresh.company
          setting.company_fuzzy_threshold setting.company_review_threshold source_id job.company
          d in
      let (result, postings) =
        upsert_posting (fresh.posting store.postings) now source_id company_id job store.postings in
      (
        counted result r,
        d',
        record store { postings = postings; companies = d'.rows; reviews = d'.reviews },
      )

  unfoldable pub ingest_row :
      String → (RawJob → Option NormalizedJob) → RawJob → Progress → Progress
  unfolding keep_job store_raw
  ingest_row source_id normalize raw (r, d, store) =
      keep_job source_id (normalize raw)
        (record r { fetched = r.fetched + 1 }, d, store_raw source_id r.run_id raw store)

  -- `_ingest`
  unfoldable pub ingest :
      String → (RawJob → Option NormalizedJob) → List RawJob → Progress → Progress
  unfolding ingest_row
  ingest source_id normalize [] p = p
  ingest source_id normalize (raw ∷ raws) p =
      ingest source_id normalize raws (ingest_row source_id normalize raw p)
