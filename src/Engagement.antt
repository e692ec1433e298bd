-- ===== src/Engagement.antt =====
-- backend/app/services/engagement.py: engagement events, applications and their history, over the
-- tables that the statements read and write. Generated ids and the database's clock are arguments.
pub mod Applications
pub mod Recording
pub mod Transitions
pub mod Duplicates
pub mod History
pub mod Queries
use career_pilot_ai.Prelude.{
  ℕ, zero, suc, ◌+◌, String, Bool, true, false, ◌&&◌, ◌||◌, not, Option, none, some, List, [], ◌∷◌,
  ◌++◌, map, ltb, leb, ◌==◌, if◌then◌else◌, any, keep_if, is_none, is_some, or_else,
}

pub data EngagementEvent : Type 0 where
  viewed saved dismissed applied_event : EngagementEvent

pub data ApplicationStatus : Type 0 where
  applied screening interviewing offer rejected withdrawn no_response : ApplicationStatus

-- ALLOWED_TRANSITIONS
unfoldable pub allowed : ApplicationStatus → ApplicationStatus → Bool
allowed applied screening = true
allowed applied interviewing = true
allowed applied rejected = true
allowed applied withdrawn = true
allowed applied no_response = true
allowed screening interviewing = true
allowed screening rejected = true
allowed screening withdrawn = true
allowed screening no_response = true
allowed interviewing offer = true
allowed interviewing rejected = true
allowed interviewing withdrawn = true
allowed interviewing no_response = true
allowed offer rejected = true
allowed offer withdrawn = true
allowed no_response screening = true
allowed no_response interviewing = true
allowed no_response rejected = true
allowed _ _ = false

abbrev pub same_status : ApplicationStatus → ApplicationStatus → Bool
same_status applied applied = true
same_status screening screening = true
same_status interviewing interviewing = true
same_status offer offer = true
same_status rejected rejected = true
same_status withdrawn withdrawn = true
same_status no_response no_response = true
same_status _ _ = false

pub record Posting : Type 0 where
  pub id : ℕ
  pub job_group_id : Option ℕ

pub record Application : Type 0 where
  pub id : ℕ
  pub user_id : ℕ
  pub posting_id : ℕ
  pub cv_version_id : ℕ
  pub status : ApplicationStatus
  pub applied_at : ℕ

pub record StatusChange : Type 0 where
  pub application_id : ℕ
  pub from_status : Option ApplicationStatus
  pub to_status : ApplicationStatus

pub record JobEvent : Type 0 where
  pub user_id : ℕ
  pub posting_id : ℕ
  pub event : EngagementEvent
  pub created_at : ℕ

pub record CvVersion : Type 0 where
  pub id : ℕ
  pub user_id : ℕ
  pub created_at : ℕ

-- New rows are appended, so a table's order is the order of insertion.
pub record Db : Type 0 where
  pub postings : List Posting
  pub applications : List Application
  pub application_events : List StatusChange
  pub user_job_events : List JobEvent
  pub cv_versions : List CvVersion

pub data EngagementError : Type 0 where
  posting_not_found : EngagementError
  duplicate_application : ℕ → Bool → EngagementError
  no_cv : EngagementError
  application_not_found : EngagementError
  cannot_move : ApplicationStatus → ApplicationStatus → EngagementError

pub data Result (A : Type 0) : Type 0 where
  ok : A → Result A
  error : EngagementError → Result A

unfoldable pub find_posting : ℕ → List Posting → Option Posting
find_posting id [] = none
find_posting id (p ∷ ps) = if p.id == id then some p else find_posting id ps

-- `CAST(:job_group_id AS uuid) IS NOT NULL AND p.job_group_id = ...`
abbrev pub same_group : Option ℕ → Option ℕ → Bool
same_group (some a) (some b) = a == b
same_group _ _ = false

abbrev pub group_of : Option Posting → Option ℕ
group_of none = none
group_of (some p) = p.job_group_id

-- The join needs the application's own posting row, which the foreign key provides.
pub is_same_job : List Posting → ℕ → ℕ → Option ℕ → Application → Bool
unfolding find_posting
is_same_job postings user_id posting_id group a =
    a.user_id == user_id
    && is_some (find_posting a.posting_id postings)
    && (a.posting_id == posting_id
        || same_group group (group_of (find_posting a.posting_id postings)))

-- `ORDER BY applied_at DESC LIMIT 1`
pub latest : Application → List Application → Application
latest best [] = best
latest best (a ∷ as') = latest (if ltb best.applied_at a.applied_at then a else best) as'

pub head_latest : List Application → Option Application
unfolding latest
head_latest [] = none
head_latest (a ∷ as') = some (latest a as')

unfoldable pub existing_application : ℕ → ℕ → Option ℕ → Db → Option Application
unfolding is_same_job head_latest
existing_application user_id posting_id group db =
    head_latest (keep_if (is_same_job db.postings user_id posting_id group) db.applications)

pub newest : CvVersion → List CvVersion → CvVersion
newest best [] = best
newest best (v ∷ vs) = newest (if ltb best.created_at v.created_at then v else best) vs

pub head_newest : List CvVersion → Option ℕ
unfolding newest
head_newest [] = none
head_newest (v ∷ vs) = some (newest v vs).id

unfoldable pub latest_cv_version : ℕ → Db → Option ℕ
unfolding head_newest
latest_cv_version user_id db = head_newest (keep_if (λ v. v.user_id == user_id) db.cv_versions)

-- the insert of `record_event`, once the posting is known to exist
pub add_event : ℕ → ℕ → ℕ → EngagementEvent → Db → Db
add_event now user_id posting_id event db = record db {
  user_job_events =
      db.user_job_events
      ++ record { user_id = user_id; posting_id = posting_id; event = event; created_at = now }
        ∷ [];
}

pub event_for : Option Posting → ℕ → ℕ → ℕ → EngagementEvent → Db → Result (Unit {0}) × Db
unfolding add_event
event_for none now user_id posting_id event db = (error posting_not_found, db)
event_for (some p) now user_id posting_id event db =
    (ok tt, add_event now user_id posting_id event db)

unfoldable pub record_event : ℕ → ℕ → ℕ → EngagementEvent → Db → Result (Unit {0}) × Db
unfolding find_posting event_for
record_event now user_id posting_id event db =
    event_for (find_posting posting_id db.postings) now user_id posting_id event db

-- `INSERT ... ON CONFLICT (user_id, posting_id) DO UPDATE SET applied_at = now() RETURNING ...`
pub is_pair : ℕ → ℕ → Application → Bool
is_pair user_id posting_id a = a.user_id == user_id && a.posting_id == posting_id

pub upsert : Application → List Application → Application × List Application
unfolding is_pair
upsert new [] = (new, new ∷ [])
upsert new (a ∷ as') =
    let (row, rest) = upsert new as' in
    let again = record a { applied_at = new.applied_at } in
    if is_pair new.user_id new.posting_id a then (again, again ∷ as') else (row, a ∷ rest)

pub log_change : ℕ → Option ApplicationStatus → ApplicationStatus → Db → Db
log_change id from to db = record db {
  application_events =
      db.application_events
      ++ record { application_id = id; from_status = from; to_status = to } ∷ [];
}
