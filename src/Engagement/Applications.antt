-- ===== src/Engagement/Applications.antt =====
-- backend/app/services/engagement.py: recording an application, and moving it along.
use career_pilot_ai.Prelude.{
  ℕ, Bool, true, false, ◌&&◌, not, Option, none, some, List, [], ◌∷◌, map, ◌==◌, if◌then◌else◌,
  or_else,
}
use career_pilot_ai.Engagement.{
  ApplicationStatus, applied, applied_event, Posting, Application, Db, posting_not_found,
  duplicate_application, no_cv, application_not_found, cannot_move, Result, ok, error, allowed,
  same_status, find_posting, existing_application, latest_cv_version, record_event, upsert,
  log_change,
}

-- a call whose value is dropped: its exception goes on
unfoldable pub after_event : Application → Result (Unit {0}) × Db → Result Application × Db
after_event row (ok _, db) = (ok row, db)
after_event row (error e, db) = (error e, db)

-- the three statements that write
unfoldable pub write_application : ℕ → ℕ → ℕ → ℕ → ℕ → Db → Result Application × Db
unfolding after_event upsert log_change record_event
write_application now id user_id posting_id cv db =
    let (row, applications) =
      upsert
        (record {
          id = id;
          user_id = user_id;
          posting_id = posting_id;
          cv_version_id = cv;
          status = applied;
          applied_at = now;
        })
        db.applications in
    after_event row (
      record_event now user_id posting_id applied_event
        (log_change row.id none applied (record db { applications = applications })))

unfoldable pub with_cv : ℕ → ℕ → ℕ → ℕ → Option ℕ → Db → Result Application × Db
unfolding write_application
with_cv now id user_id posting_id none db = (error no_cv, db)
with_cv now id user_id posting_id (some cv) db = write_application now id user_id posting_id cv db

-- the guard against a second application to one job
unfoldable pub unless_duplicate :
    ℕ → ℕ → ℕ → ℕ → Option ℕ → Bool → Option Application → Db → Result Application × Db
unfolding with_cv
unless_duplicate now id user_id posting_id cv false (some existing) db =
    (error (duplicate_application existing.id (not (existing.posting_id == posting_id))), db)
unless_duplicate now id user_id posting_id cv true (some existing) db =
    with_cv now id user_id posting_id (or_else cv (latest_cv_version user_id db)) db
unless_duplicate now id user_id posting_id cv force none db =
    with_cv now id user_id posting_id (or_else cv (latest_cv_version user_id db)) db

unfoldable pub for_posting :
    ℕ → ℕ → ℕ → ℕ → Option ℕ → Bool → Option Posting → Db → Result Application × Db
unfolding unless_duplicate existing_application latest_cv_version
for_posting now id user_id posting_id cv force none db = (error posting_not_found, db)
for_posting now id user_id posting_id cv force (some p) db =
    unless_duplicate now id user_id posting_id cv force
      (existing_application user_id posting_id p.job_group_id db) db

-- `id` is the key that the insert generates, if it inserts
unfoldable pub record_application : ℕ → ℕ → ℕ → ℕ → Option ℕ → Bool → Db → Result Application × Db
unfolding for_posting find_posting
record_application now id user_id posting_id cv force db =
    for_posting now id user_id posting_id cv force (find_posting posting_id db.postings) db

unfoldable pub find_application : ℕ → ℕ → List Application → Option Application
find_application user_id id [] = none
find_application user_id id (a ∷ as') =
    if a.id == id && a.user_id == user_id then some a else find_application user_id id as'

-- `UPDATE applications SET status = :status WHERE id = :id`
unfoldable pub set_status : ℕ → ApplicationStatus → List Application → List Application
set_status id status = map (λ a. if a.id == id then record a { status = status } else a)

unfoldable pub move : Application → ApplicationStatus → Db → Result Application × Db
unfolding set_status log_change
move row to db = (
  ok (record row { status = to }),
  log_change row.id (some row.status) to
      (record db { applications = set_status row.id to db.applications }),
)

unfoldable pub advance_row : Option Application → ApplicationStatus → Db → Result Application × Db
unfolding move allowed
advance_row none to db = (error application_not_found, db)
advance_row (some row) to db =
    if same_status to row.status
    then (ok row, db)
    else if not (allowed row.status to)
    then (error (cannot_move row.status to), db)
    else move row to db

unfoldable pub advance : ℕ → ℕ → ApplicationStatus → Db → Result Application × Db
unfolding find_application advance_row
advance user_id id to db = advance_row (find_application user_id id db.applications) to db
