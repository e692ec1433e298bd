-- ===== src/Examples/Ingested.antt =====
-- Runs of a source and the employers that they resolve, at concrete inputs. The text functions are
-- concrete.
use career_pilot_ai.Prelude.{
  keep_if, not, ◌≡◌, refl, inr, ◌⊎◌, String, true, false, Option, none, some, List, [], ◌∷◌, length,
}
use career_pilot_ai.Queue.{Row, Task, pending, claim}
use career_pilot_ai.Worker.{Database, Clock, HandlerResult, run_once}
use career_pilot_ai.Companies.{CompanyRef, KnownCompany, Texts, names_of, resolve_company}
use career_pilot_ai.Companies.Directory.{CompanyDirectory}
use career_pilot_ai.Companies.Justified.{ByDomain, ByName, resolve_company_justified}
use career_pilot_ai.Ingest.{
  RunReport, running, JobSource, NormalizedJob, JobPosting, RawJob, Store, Fresh, upsert_posting,
}
use career_pilot_ai.Ingest.Rows.{RunError, source_unavailable, Adapter, Setting}
use career_pilot_ai.Ingest.Discover.{DedupTexts, run_discover}
use career_pilot_ai.Ingest.Upserting.{
  stands_under, posting_of, IsUpserted, upsert_posting-posting_of,
}
use career_pilot_ai.Ingest.Breaker.{run_once-uncounted}

abbrev texts : Texts
texts = record {
  normalize = λ s. s;
  tokens = λ s. s ∷ [];
  registrable_domain = λ s. some s;
  ats_hosts = [];
  token_set_ratio = λ a b. 0;
  token_sort_ratio = λ a b. 0;
}

abbrev employer : CompanyRef
employer = record { name = "acme"; domain = none; careers_url = none }

abbrev rival : CompanyRef
rival = record { name = "apex"; domain = none; careers_url = none }

abbrev blank : CompanyDirectory
blank = record { companies = []; cache = []; rows = []; reviews = [] }

abbrev known : List KnownCompany
known = record { key = 7; canonical_name = "acme"; domain = none; aliases = [] } ∷ []

known_name : (resolve_company texts 9000 7500 employer known).company_key ≡ some 7
unfolding resolve_company
known_name = refl

resolve_company_justified_example :
    ByDomain texts employer known 7 ⊎ ByName texts 9000 "acme" (names_of known) 7
resolve_company_justified_example =
    resolve_company_justified texts 9000 7500 employer known 7 known_name

abbrev setting : Setting
setting = record {
  texts = texts;
  is_ats_host = λ u. false;
  aliases = λ i. [];
  company_fuzzy_threshold = 9000;
  company_review_threshold = 7500;
  zero_row_alert_ratio = 3000;
  disabled_text = λ n e. e;
  details_payload = λ s is. s;
  details_key = λ s is. s;
}

abbrev fresh : Fresh
fresh = record { company = length; posting = length; run = length; task = length }

abbrev job : String → NormalizedJob
job body = record {
  external_id = "x";
  company = employer;
  title = "engineer";
  title_normalized = "engineer";
  description_text = body;
  locations = "";
  remote_type = none;
  employment_type = none;
  seniority_level = none;
  salary_min = none;
  salary_max = none;
  currency = none;
  posted_at = none;
  expires_at = none;
  ats_platform = "unknown";
  ats_confidence = 0;
  detection_method = "none";
  apply_url = "u";
  apply_url_method = "ats_native";
  source_url = "u";
  canonical_url = none;
  content_simhash = some (length (body ∷ []));
  language = none;
  status = "open";
}

abbrev source : JobSource
source = record {
  id = "s";
  name = "s";
  adapter = "a";
  config = none;
  rate_limit_rpm = 20;
  tier = 1;
  enabled = true;
  consecutive_failures = 3;
  disabled_reason = none;
  last_run_at = none;
}

abbrev store : Store
store = record {
  sources = source ∷ [];
  runs = [];
  raw_payloads = [];
  postings = [];
  companies = [];
  reviews = [];
}

abbrev report : RunReport
report = record {
  source_id = "s";
  run_id = 0;
  fetched = 0;
  new = 0;
  updated = 0;
  errors = 0;
  status = running;
  details_queued = none;
  changed_posting_ids = [];
}

abbrev row : RawJob
row = record { external_id = "x"; payload = "p" }

abbrev stored : List JobPosting
stored =
    record {
      id = 4;
      source_id = "s";
      company_id = 1;
      job = job "body";
      last_seen_at = 2;
      updated_at = 2;
    }
    ∷ []

upsert_posting-posting_of_example :
    let (result, after) = upsert_posting 5 9 "s" 1 (job "") stored in
    IsUpserted 5 9 "s" 1 (job "") (posting_of "s" "x" stored) (posting_of "s" "x" after) result
    × (keep_if (λ p. not (stands_under "s" "x" p)) after
        ≡ keep_if (λ p. not (stands_under "s" "x" p)) stored)
upsert_posting-posting_of_example = upsert_posting-posting_of 5 9 "s" 1 (job "") stored

abbrev task_row : Row
task_row = record {
  id = 1;
  task_type = "discover";
  payload = "s";
  dedup_key = none;
  priority = 10;
  status = pending;
  attempts = 0;
  max_attempts = 4;
  run_after = 0;
  locked_at = none;
  locked_by = none;
  last_error = none;
  updated_at = 0;
}

abbrev down : JobSource → RunError ⊎ Adapter
down s = inr record {
  supports_details = false;
  rows = [];
  ending = some (source_unavailable "500");
  normalize = λ r. none;
}

abbrev dedup : DedupTexts
dedup = record { payload = λ is. ""; key = λ r s. "" }

abbrev handlers : String → Option (Task → Database Store → HandlerResult (Database Store))
handlers t = some (run_discover setting dedup fresh 9 down)

abbrev db : Database Store
db = record { queue = task_row ∷ []; rest = store }

abbrev clock : Clock
clock = record { claimed_at = 5; completed_at = 6; failed_at = 7 }

abbrev task : Task
task = record { id = 1; task_type = "discover"; payload = "s"; attempts = 1; max_attempts = 4 }

claims : (claim 5 (λ i. false) "w" [] (task_row ∷ [])).0 ≡ some task
unfolding claim
claims = refl

run_once-uncounted_example : (run_once handlers (1 ∷ []) clock (λ i. false) "w" db).1.rest ≡ store
run_once-uncounted_example =
    run_once-uncounted setting dedup fresh 9 down (λ s e. absurd cc) handlers (1 ∷ []) clock
      (λ i. false) "w" db task claims refl
