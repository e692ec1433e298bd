-- ===== src/Engagement/Queries.antt =====
-- backend/app/services/engagement.py: an application's history, the list of applications, and the
-- deletion of a user's events, and the saved postings. A row of the list leaves out the joined texts of the posting.
use career_pilot_ai.Prelude.{
  Bool, true, false, take, ℕ, not, List, [], ◌∷◌, map, ltb, ◌==◌, ◌&&◌, if◌then◌else◌, any, keep_if,
  count_if, is_some,
}
use career_pilot_ai.Engagement.{
  EngagementEvent, saved, dismissed, ApplicationStatus, Application, StatusChange, JobEvent, Db,
  find_posting,
}

unfoldable pub delete_events : ℕ → Db → ℕ × Db
delete_events user_id db = (
  count_if (λ (e : JobEvent). e.user_id == user_id) db.user_job_events,
  record db {
    user_job_events = keep_if (λ (e : JobEvent). not (e.user_id == user_id)) db.user_job_events;
  },
)

-- The events are appended in the order in which they occurred.
unfoldable pub application_history : ℕ → ℕ → Db → List StatusChange
application_history user_id id db =
    if any (λ (a : Application). a.id == id && a.user_id == user_id) db.applications
    then keep_if (λ (c : StatusChange). c.application_id == id) db.application_events
    else []

pub record ListedApplication : Type 0 where
  pub id : ℕ
  pub status : ApplicationStatus
  pub applied_at : ℕ
  pub cv_version_id : ℕ
  pub posting_id : ℕ
  pub event_count : ℕ

-- `ORDER BY a.applied_at DESC`
pub insert_latest : Application → List Application → List Application
insert_latest a [] = a ∷ []
insert_latest a (b ∷ bs) =
    let rest = insert_latest a bs in if ltb a.applied_at b.applied_at then b ∷ rest else a ∷ b ∷ bs

pub order_latest : List Application → List Application
unfolding insert_latest
order_latest [] = []
order_latest (a ∷ as') = insert_latest a (order_latest as')

unfoldable pub list_applications : ℕ → Db → List ListedApplication
unfolding order_latest find_posting
list_applications user_id db =
    map
      (λ (a : Application). record {
        id = a.id;
        status = a.status;
        applied_at = a.applied_at;
        cv_version_id = a.cv_version_id;
        posting_id = a.posting_id;
        event_count =
            count_if (λ (c : StatusChange). c.application_id == a.id) db.application_events;
      })
      (order_latest (
        keep_if
          (λ (a : Application).
            a.user_id == user_id && is_some (find_posting a.posting_id db.postings))
          db.applications))

abbrev pub is_mark : EngagementEvent → Bool
is_mark saved = true
is_mark dismissed = true
is_mark _ = false

abbrev pub is_saved : EngagementEvent → Bool
is_saved saved = true
is_saved _ = false

-- `DISTINCT ON (posting_id) ... ORDER BY posting_id, created_at DESC`: the newest of each posting
pub is_newest : List JobEvent → JobEvent → Bool
is_newest events e =
    not
      (any (λ (f : JobEvent). f.posting_id == e.posting_id && ltb e.created_at f.created_at) events)

pub insert_event : JobEvent → List JobEvent → List JobEvent
insert_event a [] = a ∷ []
insert_event a (b ∷ bs) =
    let rest = insert_event a bs in if ltb a.created_at b.created_at then b ∷ rest else a ∷ b ∷ bs

pub order_events : List JobEvent → List JobEvent
unfolding insert_event
order_events [] = []
order_events (a ∷ as') = insert_event a (order_events as')

-- No two of a user's marks of one posting have one instant here, as each has its own transaction.
unfoldable pub saved_postings : ℕ → ℕ → Db → List JobEvent
unfolding is_newest order_events find_posting
saved_postings user_id limit db =
    let marks =
      keep_if (λ (e : JobEvent). e.user_id == user_id && is_mark e.event) db.user_job_events in
    take limit (
      order_events (
        keep_if
          (λ (e : JobEvent).
            is_newest marks e
            && is_saved e.event
            && is_some (find_posting e.posting_id db.postings))
          marks))
