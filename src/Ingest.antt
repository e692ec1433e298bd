-- ===== src/Ingest.antt =====
-- backend/app/services/ingestion.py: the tables of a discovery run, its report, and how one posting is
-- stored. Spans and instants are in microseconds. A generated key is a function of its table.
pub mod Rows
pub mod Runs
pub mod Discover
pub mod Upserting
pub mod Counts
pub mod Breaker
use career_pilot_ai.Prelude.{
  ℕ, suc, ◌+◌, String, Bool, true, false, ◌&&◌, Option, none, some, List, [], ◌∷◌, ◌++◌, ◌==◌,
  if◌then◌else◌, str_eq, or_else,
}
use career_pilot_ai.Queue.{Table}
use career_pilot_ai.Companies.{CompanyRef}
use career_pilot_ai.Companies.Directory.{Company, Review}

pub data RunStatus : Type 0 where
  running ok suspect failed : RunStatus

pub record RunReport : Type 0 where
  pub source_id : String
  pub run_id : ℕ
  pub fetched : ℕ
  pub new : ℕ
  pub updated : ℕ
  pub errors : ℕ
  pub status : RunStatus
  pub details_queued : Option ℕ
  pub changed_posting_ids : List ℕ

-- A row of `job_sources`.
pub record JobSource : Type 0 where
  pub id : String
  pub name : String
  pub adapter : String
  pub config : Option String
  pub rate_limit_rpm : ℕ
  pub tier : ℕ
  pub enabled : Bool
  pub consecutive_failures : ℕ
  pub disabled_reason : Option String
  pub last_run_at : Option ℕ

-- A row of `source_runs`.
pub record SourceRun : Type 0 where
  pub id : ℕ
  pub source_id : String
  pub started_at : ℕ
  pub finished_at : Option ℕ
  pub fetched : ℕ
  pub new_count : ℕ
  pub updated_count : ℕ
  pub errors : ℕ
  pub status : RunStatus

-- A row of `raw_payloads`.
pub record RawPayload : Type 0 where
  pub source_id : String
  pub run_id : ℕ
  pub external_id : String
  pub payload : String

pub record RawJob : Type 0 where
  pub external_id : String
  pub payload : String

-- Columns of a posting: enumerations and lists as texts, salaries in hundredths.
pub record NormalizedJob : Type 0 where
  pub external_id : String
  pub company : CompanyRef
  pub title : String
  pub title_normalized : String
  pub description_text : String
  pub locations : String
  pub remote_type : Option String
  pub employment_type : Option String
  pub seniority_level : Option String
  pub salary_min : Option ℕ
  pub salary_max : Option ℕ
  pub currency : Option String
  pub posted_at : Option ℕ
  pub expires_at : Option ℕ
  pub ats_platform : String
  pub ats_confidence : ℕ
  pub detection_method : String
  pub apply_url : String
  pub apply_url_method : String
  pub source_url : String
  pub canonical_url : Option String
  pub content_simhash : Option ℕ
  pub language : Option String
  pub status : String

-- A row of `job_postings`; `job` holds the columns that come from a normalised job.
pub record JobPosting : Type 0 where
  pub id : ℕ
  pub source_id : String
  pub company_id : ℕ
  pub job : NormalizedJob
  pub last_seen_at : ℕ
  pub updated_at : ℕ

-- The tables that a run writes, beside the queue.
pub record Store : Type 0 where
  pub sources : List JobSource
  pub runs : List SourceRun
  pub raw_payloads : List RawPayload
  pub postings : List JobPosting
  pub companies : List Company
  pub reviews : List Review

pub record Fresh : Type 0 where
  pub company : List Company → ℕ
  pub posting : List JobPosting → ℕ
  pub run : List SourceRun → ℕ
  pub task : Table → ℕ

-- `EXCLUDED` over the row that is there: an empty body and a known date are not overwritten, and the
-- platform, its confidence and the detection method stay
unfoldable pub refreshed : NormalizedJob → NormalizedJob → NormalizedJob
refreshed old job = record job {
  description_text =
      if str_eq job.description_text "" then old.description_text else job.description_text;
  posted_at = or_else old.posted_at job.posted_at;
  ats_platform = old.ats_platform;
  ats_confidence = old.ats_confidence;
  detection_method = old.detection_method;
}

abbrev pub is_key : String → String → JobPosting → Bool
is_key source_id external_id p =
    str_eq p.source_id source_id && str_eq p.job.external_id external_id

abbrev pub update_posting : ℕ → ℕ → NormalizedJob → JobPosting → JobPosting
unfolding refreshed
update_posting now company_id job p = record p {
  company_id = company_id;
  job = refreshed p.job job;
  last_seen_at = now;
  updated_at = now;
}

-- `INSERT ... ON CONFLICT (source_id, external_id) DO UPDATE ... RETURNING id, (xmax = 0)`; `id` is
-- the generated key
unfoldable pub upsert_posting :
    ℕ → ℕ → String → ℕ → NormalizedJob → List JobPosting → (ℕ × Bool) × List JobPosting
unfolding update_posting
upsert_posting id now source_id company_id job [] = (
  (id, true),
  record {
    id = id;
    source_id = source_id;
    company_id = company_id;
    job = job;
    last_seen_at = now;
    updated_at = now;
  }
      ∷ [],
)
upsert_posting id now source_id company_id job (p ∷ ps) =
    let (result, rest) = upsert_posting id now source_id company_id job ps in
    if is_key source_id job.external_id p
    then ((p.id, false), update_posting now company_id job p ∷ ps)
    else (result, p ∷ rest)
