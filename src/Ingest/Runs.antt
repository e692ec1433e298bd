-- ===== src/Ingest/Runs.antt =====
-- backend/app/services/ingestion.py: the end of a run, the circuit breaker, and a run as a whole.
use career_pilot_ai.Prelude.{
  ℕ, zero, suc, ◌+◌, ◌*◌, ◌/◌, ◌-◌, ◌⊎◌, inl, inr, String, Bool, true, false, ◌&&◌, ◌||◌, Option,
  none, some, List, [], ◌∷◌, map, ltb, leb, ◌==◌, if◌then◌else◌, str_eq, keep_if, take, length,
  get_elem?, prefix,
}
use career_pilot_ai.Queue.{Table, enqueue}
use career_pilot_ai.Queue.Retry.{second}
use career_pilot_ai.Scoring.{sorted}
use career_pilot_ai.Companies.Directory.{load}
use career_pilot_ai.Ingest.{
  RunStatus, running, ok, suspect, failed, RunReport, JobSource, SourceRun, JobPosting, Store,
  Fresh,
}
use career_pilot_ai.Ingest.Rows.{
  RunError, rate_limited, source_unavailable, other_error, Adapter, Setting, start_run, ingest,
}

abbrev pub circuit_breaker_failures : ℕ
circuit_breaker_failures = 5

abbrev pub detail_fetch_limit_per_run : ℕ
detail_fetch_limit_per_run = 500

abbrev pub detail_batch : ℕ
detail_batch = 25

abbrev pub on_source : String → (JobSource → JobSource) → List JobSource → List JobSource
on_source id f = map (λ (s : JobSource). if str_eq s.id id then f s else s)

unfoldable pub load_source : String → List JobSource → Option JobSource
load_source id [] = none
load_source id (s ∷ ss) = let rest = load_source id ss in if str_eq s.id id then some s else rest

abbrev pub drop : ℕ → List String → List String
drop zero xs = xs
drop (suc n) [] = []
drop (suc n) (x ∷ xs) = drop n xs

-- the batches of a list, each not empty; the length of the list is enough fuel
pub batches : ℕ → ℕ → List String → List (List String)
batches zero size xs = []
batches (suc n) size [] = []
batches (suc n) size (x ∷ xs) = take size (x ∷ xs) ∷ batches n size (drop size (x ∷ xs))

unfoldable pub record_success : String → Store → Store
record_success source_id store = record store {
  sources = on_source source_id (λ s. record s { consecutive_failures = 0 }) store.sources;
}

abbrev pub is_bodyless : String → JobPosting → Bool
is_bodyless source_id p =
    str_eq p.source_id source_id && str_eq p.job.status "open" && str_eq p.job.description_text ""

-- `posted_at DESC NULLS LAST`
abbrev pub is_later : Option ℕ → Option ℕ → Bool
is_later none b = false
is_later (some a) none = true
is_later (some a) (some b) = ltb b a

pub insert_newest : JobPosting → List JobPosting → List JobPosting
insert_newest p [] = p ∷ []
insert_newest p (q ∷ qs) =
    let rest = insert_newest p qs in
    if is_later q.job.posted_at p.job.posted_at then q ∷ rest else p ∷ q ∷ qs

pub newest_first : List JobPosting → List JobPosting
unfolding insert_newest
newest_first [] = []
newest_first (p ∷ ps) = insert_newest p (newest_first ps)

abbrev pub is_trusted : RunStatus → Bool
is_trusted ok = true
is_trusted suspect = true
is_trusted _ = false

abbrev pub week : ℕ
week = 7 * 24 * 3600 * second

abbrev pub or_zero : Option ℕ → ℕ
or_zero none = 0
or_zero (some n) = n

-- `percentile_cont(0.5)`, twice
unfoldable pub median_twice : List ℕ → ℕ
unfolding sorted
median_twice xs =
    let ordered = sorted xs in
    or_zero (get_elem? ordered ((length xs - 1) / 2)) + or_zero (get_elem? ordered (length xs / 2))

abbrev pub message : RunError → String
message (rate_limited text wait) = text
message (source_unavailable text) = text
message (other_error text) = text

-- How a run ends, with what its session has written.
pub data RunEnd : Type 0 where
  completed : RunReport → Store → Table → RunEnd
  raised : RunError → Store → Table → RunEnd

abbrev pub empty_report : String → ℕ → RunReport
empty_report source_id run_id = record {
  source_id = source_id;
  run_id = run_id;
  fetched = 0;
  new = 0;
  updated = 0;
  errors = 0;
  status = running;
  details_queued = none;
  changed_posting_ids = [];
}

module _ (now : ℕ) where
  -- `_finish_run`
  unfoldable pub finish_run : RunReport → Store → Store
  finish_run r store = record store {
    runs =
        map
          (λ (row : SourceRun).
            if row.id == r.run_id
            then record row {
              finished_at = some now;
              fetched = r.fetched;
              new_count = r.new;
              updated_count = r.updated;
              errors = r.errors;
              status = r.status;
            }
            else row)
          store.runs;
    sources = on_source r.source_id (λ s. record s { last_run_at = some now }) store.sources;
  }

  -- the rows of the runs of the last seven days
  abbrev pub history : String → List SourceRun → List ℕ
  history source_id runs =
      map (λ (r : SourceRun). r.fetched)
        (keep_if
          (λ (r : SourceRun).
            str_eq r.source_id source_id && is_trusted r.status && ltb now (r.started_at + week))
          runs)

module _ (setting : Setting) where
  -- one more failure, and a disabled source from the fifth on
  unfoldable pub failed_once : String → JobSource → JobSource
  failed_once error s =
      let n = s.consecutive_failures + 1 in
      if leb circuit_breaker_failures n
      then record s {
        consecutive_failures = n;
        enabled = false;
        disabled_reason = some (setting.disabled_text n (prefix 300 error));
      }
      else record s { consecutive_failures = n }

  unfoldable pub record_failure : String → String → Store → Store
  unfolding failed_once
  record_failure source_id error store = record store {
    sources = on_source source_id (failed_once error) store.sources;
  }

module _ (setting : Setting) (fresh : Fresh) (now : ℕ) where
  pub queue_details : String → List (List String) → Table → Table
  queue_details source_id [] queue = queue
  queue_details source_id (b ∷ bs) queue =
      queue_details source_id bs
        (enqueue (fresh.task queue) now
          (record {
            task_type = "fetch_details";
            payload = setting.details_payload source_id b;
            priority = 3;
            run_after = none;
            dedup_key = some (setting.details_key source_id b);
            max_attempts = 4;
          })
          queue).1

  -- `_queue_detail_fetches`
  unfoldable pub queue_detail_fetches : String → Store → Table → ℕ × Table
  unfolding newest_first batches queue_details
  queue_detail_fetches source_id store queue =
      let ids =
        map (λ (p : JobPosting). p.job.external_id)
          (take detail_fetch_limit_per_run
            (newest_first (keep_if (is_bodyless source_id) store.postings))) in
      (length ids, queue_details source_id (batches (length ids) detail_batch ids) queue)

  -- `_assess_run`; the alert ratio is in ten-thousandths
  unfoldable pub assess_run : String → ℕ → Store → RunStatus
  unfolding median_twice
  assess_run source_id fetched store =
      let counts = history now source_id store.runs in
      if ltb (length counts) 3 || median_twice counts == 0
      then ok
      else if ltb (20000 * fetched) (setting.zero_row_alert_ratio * median_twice counts)
      then suspect
      else ok

  -- the end of a run whose rows were all stored, or that raised
  unfoldable pub end_run :
      JobSource → Adapter → Option RunError → RunReport → Store → Table → RunEnd
  unfolding finish_run record_failure record_success queue_detail_fetches assess_run
  end_run source adapter (some e) r store queue =
      raised e
        (record_failure setting source.id (message e)
          (finish_run now (record r { status = failed }) store))
        queue
  end_run source adapter none r store queue =
      let (queued, queue') = queue_detail_fetches source.id store queue in
      let r' = record r {
        details_queued = if adapter.supports_details then some queued else none;
        status = assess_run source.id r.fetched store;
      } in
      completed r' (record_success source.id (finish_run now r' store))
        (if adapter.supports_details then queue' else queue)

  unfoldable pub run_adapter : JobSource → Adapter → Store → Table → RunEnd
  unfolding start_run load ingest end_run
  run_adapter source adapter store queue =
      let (run_id, started) = start_run fresh now source.id store in
      let (r, d, stored) = ingest setting fresh now source.id adapter.normalize adapter.rows (
        empty_report source.id run_id,
        load setting.aliases started.companies started.reviews,
        started,
      ) in
      end_run source adapter adapter.ending r stored queue

  -- An adapter that cannot be built raises before the run starts.
  abbrev pub with_adapter : JobSource → RunError ⊎ Adapter → Store → Table → RunEnd
  with_adapter source (inl e) store queue = raised e store queue
  with_adapter source (inr adapter) store queue = run_adapter source adapter store queue

  abbrev pub with_source :
      (JobSource → RunError ⊎ Adapter) → Option JobSource → Store → Table → RunEnd
  with_source build none store queue = raised (other_error "LookupError") store queue
  with_source build (some source) store queue = with_adapter source (build source) store queue

  -- `run_source`; `build` gives what the source answers on this run
  unfoldable pub run_source : (JobSource → RunError ⊎ Adapter) → String → Store → Table → RunEnd
  unfolding load_source
  run_source build source_id store queue =
      with_source build (load_source source_id store.sources) store queue
