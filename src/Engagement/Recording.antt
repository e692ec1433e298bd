-- ===== src/Engagement/Recording.antt =====
-- How recording an application ends.
use career_pilot_ai.Prelude.{
  ℕ, ◌≡◌, refl, sym, ap, ◌⊎◌, inl, inr, Bool, true, false, Option, none, some, Option-cases,
}
use career_pilot_ai.Engagement.{
  applied, applied_event, Posting, Application, Db, EngagementError, Result, ok, error,
  find_posting, existing_application, upsert, log_change, record_event, event_for, add_event,
}
use career_pilot_ai.Engagement.Applications.{
  after_event, write_application, with_cv, unless_duplicate, for_posting, record_application,
}

pub ok-injective : {r s : Application} → ok r ≡ ok s → s ≡ r
ok-injective {r} {s} e = sym (ap (λ x. of_ok x) e)
  where
    of_ok : Result Application → Application
    of_ok (ok x) = x
    of_ok (error _) = r

pub error-ne-ok : {e : EngagementError} {a : Application} → ¬ (error e ≡ ok a)
error-ne-ok h = cc

-- the events of a write change neither the postings nor the applications
after_event_ok :
    (now user_id posting_id : ℕ) (row : Application) (db : Db) {p : Posting}
    → find_posting posting_id db.postings ≡ some p
    → after_event row (record_event now user_id posting_id applied_event db)
      ≡ (ok row, add_event now user_id posting_id applied_event db)
unfolding after_event record_event
after_event_ok now user_id posting_id row db h =
    ap (λ o. after_event row (event_for o now user_id posting_id applied_event db)) h

-- the row that an insert of this application makes
abbrev pub new_application : ℕ → ℕ → ℕ → ℕ → ℕ → Application
new_application now id user_id posting_id cv = record {
  id = id;
  user_id = user_id;
  posting_id = posting_id;
  cv_version_id = cv;
  status = applied;
  applied_at = now;
}

-- what a write leaves, where the posting exists
abbrev pub written : ℕ → ℕ → ℕ → ℕ → ℕ → Db → Db
written now id user_id posting_id cv db =
    let stored = upsert (new_application now id user_id posting_id cv) db.applications in
    add_event now user_id posting_id applied_event
      (log_change stored.0.id none applied (record db { applications = stored.1 }))

pub write_application_lem :
    (now id user_id posting_id cv : ℕ) (db : Db) {p : Posting}
    → find_posting posting_id db.postings ≡ some p
    → write_application now id user_id posting_id cv db ≡ (
      ok (upsert (new_application now id user_id posting_id cv) db.applications).0,
      written now id user_id posting_id cv db,
    )
unfolding write_application log_change
write_application_lem now id user_id posting_id cv db h =
    after_event_ok now user_id posting_id _ _ h

-- How recording an application ends, from its checks: it was refused and nothing was written, or
-- all of it was written, and then there was no application to the job or the guard was overridden.
pub data Recorded (now id user_id posting_id : ℕ) (force : Bool) (db : Db)
    : Result Application × Db → Type 0 where
  refused : {e : EngagementError} → Recorded now id user_id posting_id force db (error e, db)
  recorded :
      (p : Posting) (cv : ℕ)
      → find_posting posting_id db.postings ≡ some p
      → (force ≡ true) ⊎ (existing_application user_id posting_id p.job_group_id db ≡ none)
      → Recorded now id user_id posting_id force db (
        ok (upsert (new_application now id user_id posting_id cv) db.applications).0,
        written now id user_id posting_id cv db,
      )

module _ (now id user_id posting_id : ℕ) (force : Bool) (db : Db) where
  with_cv-Recorded :
      (p : Posting) (cv : Option ℕ)
      → find_posting posting_id db.postings ≡ some p
      → (force ≡ true) ⊎ (existing_application user_id posting_id p.job_group_id db ≡ none)
      → Recorded now id user_id posting_id force db (with_cv now id user_id posting_id cv db)
  unfolding with_cv
  with_cv-Recorded p none h f = refused
  with_cv-Recorded p (some cv) h f =
      rw (write_application_lem now id user_id posting_id cv db h) (recorded p cv h f)

-- Recording an application ends in one of two ways. It is refused, and nothing is written. Or the
-- posting exists, there was no application to its job unless the guard was overridden, and the row,
-- its history entry and the engagement event are all written.
pub record_application-Recorded :
    (now id user_id posting_id : ℕ) (cv : Option ℕ) (force : Bool) (db : Db)
    → Recorded now id user_id posting_id force db
        (record_application now id user_id posting_id cv force db)
unfolding record_application
record_application-Recorded now id user_id posting_id cv force db =
    elim (Option-cases (find_posting posting_id db.postings)) [
      | inl e ↦ rw (e, for_posting) refused
      | inr (p, e) ↦ rw (e, for_posting) (guarded p e force (Option-cases _))
    ]
  where
    guarded :
        (p : Posting)
        → find_posting posting_id db.postings ≡ some p
        → (f : Bool)
        → (existing_application user_id posting_id p.job_group_id db ≡ none)
          ⊎ ((a : Application) × (existing_application user_id posting_id p.job_group_id db
                ≡ some a))
        → Recorded now id user_id posting_id f db (
            unless_duplicate now id user_id posting_id cv f
              (existing_application user_id posting_id p.job_group_id db)
              db)
    guarded p h f (inl e) =
        rw (e, unless_duplicate) (with_cv-Recorded now id user_id posting_id f db p _ h (inr e))
    guarded p h true (inr (a, e)) =
        rw (e, unless_duplicate)
          (with_cv-Recorded now id user_id posting_id true db p _ h (inl refl))
    guarded p h false (inr (a, e)) = rw (e, unless_duplicate) refused
