-- ===== src/Examples/Applied.antt =====
-- backend/app/services/engagement.py at concrete inputs.
use career_pilot_ai.Prelude.{ℕ, ◌≡◌, ◌≢◌, inr, refl, Bool, true, false, some, none, [], ◌∷◌}
use career_pilot_ai.Engagement.{
  ApplicationStatus, applied, interviewing, offer, Posting, Application, Db, duplicate_application,
  ok, error, find_posting,
}
use career_pilot_ai.Engagement.Applications.{record_application, advance}
use career_pilot_ai.Engagement.Duplicates.{record_application_again}
use career_pilot_ai.Engagement.History.{
  last_to, IsTracked, advance-IsTracked, record_application_breaks_history,
}

abbrev job : Posting
job = record { id = 4; job_group_id = some 7 }

abbrev copy : Posting
copy = record { id = 5; job_group_id = some 7 }

abbrev application : ApplicationStatus → Application
application status = record {
  id = 1;
  user_id = 2;
  posting_id = 4;
  cv_version_id = 3;
  status = status;
  applied_at = 10;
}

abbrev empty_db : Db
empty_db = record {
  postings = job ∷ copy ∷ [];
  applications = [];
  application_events = [];
  user_job_events = [];
  cv_versions = [];
}

abbrev in_interview : Db
in_interview = record empty_db {
  applications = application interviewing ∷ [];
  application_events =
      record { application_id = 1; from_status = some applied; to_status = interviewing } ∷ [];
}

job_found : find_posting 4 empty_db.postings ≡ some job
unfolding find_posting
job_found = refl

copy_found : find_posting 5 empty_db.postings ≡ some copy
unfolding find_posting
copy_found = refl

first_recorded : (record_application 10 1 2 4 (some 3) false empty_db).0 ≡ ok (application applied)
unfolding record_application
first_recorded = refl

record_application_again_example :
    let after = (record_application 10 1 2 4 (some 3) false empty_db).1 in
    (e : ℕ) × (b : Bool) × (record_application 20 8 2 5 none false after
      ≡ (error (duplicate_application e b), after))
record_application_again_example =
    record_application_again 10 1 2 4 20 8 (some 3) none false job copy empty_db job_found
      copy_found (inr refl) first_recorded

moved : (advance 2 1 offer in_interview).0 ≡ ok (application offer)
unfolding advance
moved = refl

in_interview-IsTracked : IsTracked in_interview
unfolding last_to
in_interview-IsTracked = (refl, tt)

advance-IsTracked_example : IsTracked (advance 2 1 offer in_interview).1
advance-IsTracked_example = advance-IsTracked 2 1 offer in_interview in_interview-IsTracked

recorded_again :
    (record_application 30 8 2 4 (some 3) true in_interview).0
    ≡ ok (record (application interviewing) { applied_at = 30 })
unfolding record_application
recorded_again = refl

not_applied : interviewing ≢ applied
not_applied e = cc

record_application_breaks_history_example :
    ¬ IsTracked (record_application 30 8 2 4 (some 3) true in_interview).1
record_application_breaks_history_example =
    record_application_breaks_history 30 8 2 4 (some 3) true in_interview recorded_again not_applied
