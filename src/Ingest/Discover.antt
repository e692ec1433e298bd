-- ===== src/Ingest/Discover.antt =====
-- backend/app/workers/tasks/discover.py: the handlers of a discovery and of the expiry of postings, as
-- the worker runs them in a session.
use career_pilot_ai.Prelude.{
  ℕ, zero, suc, ◌+◌, String, Bool, false, ◌&&◌, ◌||◌, Option, none, some, List, [], ◌∷◌, ltb,
  if◌then◌else◌, str_eq, map, take, length, count_if, ◌⊎◌,
}
use career_pilot_ai.Queue.{Table, Task, enqueue}
use career_pilot_ai.Worker.{HandlerResult, returned, raised_rate_limited, raised, Database}
use career_pilot_ai.Ingest.{JobSource, JobPosting, Store, Fresh}
use career_pilot_ai.Ingest.Rows.{
  RunError, rate_limited, source_unavailable, other_error, Adapter, Setting,
}
use career_pilot_ai.Ingest.Runs.{RunEnd, completed, raised as run_raised, run_source}

abbrev pub dedup_batch : ℕ
dedup_batch = 200

abbrev pub drop_ids : ℕ → List ℕ → List ℕ
drop_ids zero xs = xs
drop_ids (suc n) [] = []
drop_ids (suc n) (x ∷ xs) = drop_ids n xs

-- the texts of a deduplication task
pub record DedupTexts : Type 0 where
  pub payload : List ℕ → String
  pub key : ℕ → ℕ → String

module _ (setting : Setting) (texts : DedupTexts) (fresh : Fresh) (now : ℕ) where
  -- The changed postings in batches, `start` of them being queued; their number is enough fuel.
  unfoldable pub queue_dedup : ℕ → ℕ → ℕ → List ℕ → Table → Table
  queue_dedup zero run_id start ids queue = queue
  queue_dedup (suc n) run_id start [] queue = queue
  queue_dedup (suc n) run_id start (i ∷ is) queue =
      queue_dedup n run_id (start + dedup_batch) (drop_ids dedup_batch (i ∷ is))
        (enqueue (fresh.task queue) now
          (record {
            task_type = "deduplicate";
            payload = texts.payload (take dedup_batch (i ∷ is));
            priority = 5;
            run_after = none;
            dedup_key = some (texts.key run_id start);
            max_attempts = 4;
          })
          queue).1

  unfoldable pub handled : RunEnd → HandlerResult (Database Store)
  unfolding queue_dedup
  handled (completed r store queue) = returned (record {
    queue = queue_dedup (length r.changed_posting_ids) r.run_id 0 r.changed_posting_ids queue;
    rest = store;
  })
  handled (run_raised (rate_limited text wait) store queue) =
      raised_rate_limited text wait (record { queue = queue; rest = store })
  handled (run_raised (source_unavailable text) store queue) =
      raised text (record { queue = queue; rest = store })
  handled (run_raised (other_error text) store queue) =
      raised text (record { queue = queue; rest = store })

  -- `run_discover`; the payload is the id of the source
  unfoldable pub run_discover :
      (JobSource → RunError ⊎ Adapter) → Task → Database Store → HandlerResult (Database Store)
  unfolding run_source handled
  run_discover build task db =
      handled (run_source setting fresh now build task.payload db.rest db.queue)

abbrev pub is_past : ℕ → Option ℕ → Bool
is_past now none = false
is_past now (some t) = ltb t now

-- open, and past its end or with a link that is gone
unfoldable pub is_over : ℕ → (ℕ → Bool) → JobPosting → Bool
is_over now gone p = str_eq p.job.status "open" && (is_past now p.job.expires_at || gone p.id)

-- `run_expire_postings`: how many were closed, and the postings; `gone` holds of the postings whose
-- link is gone
unfoldable pub run_expire_postings : ℕ → (ℕ → Bool) → List JobPosting → ℕ × List JobPosting
unfolding is_over
run_expire_postings now gone postings = (
  count_if (is_over now gone) postings,
  map
      (λ (p : JobPosting).
        if is_over now gone p
        then record p { job = record p.job { status = "expired" }; updated_at = now }
        else p)
      postings,
)
