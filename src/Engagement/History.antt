-- ===== src/Engagement/History.antt =====
-- The history of an application against its status.
use mathlib.Core.Option.{some-injective}
use career_pilot_ai.Prelude.{
  ℕ, ◌≡◌, ◌≢◌, refl, sym, ap, ◌∙◌, inl, inr, Bool, true, false, Option, none, some, List, [], ◌∷◌,
  ◌++◌, or_else, arith, Bool-cases, if◌then◌else◌, ◌==◌, ==_refl, In, here, there, All, All-In,
}
use career_pilot_ai.Engagement.{
  ApplicationStatus, applied, StatusChange, Application, Db, Result, ok, error, cannot_move,
  log_change, upsert, add_event, is_pair,
}
use career_pilot_ai.Engagement.Applications.{
  set_status, move, advance_row, advance, record_application, find_application,
}
use career_pilot_ai.Engagement.Recording.{
  Recorded, refused, recorded, record_application-Recorded, new_application, ok-injective,
  error-ne-ok,
}

-- the status that the last change of an application moved it to
unfoldable pub last_to : ℕ → List StatusChange → Option ApplicationStatus
last_to id [] = none
last_to id (c ∷ cs) =
    or_else (last_to id cs) (if c.application_id == id then some c.to_status else none)

-- every application has the status that its history ends with
abbrev pub IsTracked : Db → Type 0
IsTracked db =
    All (λ (a : Application). last_to a.id db.application_events ≡ some a.status) db.applications

last_to-append :
    (id : ℕ) (cs : List StatusChange) (c : StatusChange)
    → last_to id (cs ++ c ∷ [])
      ≡ (if c.application_id == id then some c.to_status else last_to id cs)
unfolding last_to
last_to-append id [] c = elim (Bool-cases (c.application_id == id)) [
  | inl e ↦ rw e refl
  | inr e ↦ rw e refl
]
last_to-append id (d ∷ cs) c = elim (Bool-cases (c.application_id == id)) [
  | inl e ↦ rw (last_to-append id cs c, e) refl
  | inr e ↦ rw (last_to-append id cs c, e) refl
]

module _ (id : ℕ) (from : Option ApplicationStatus) (to : ApplicationStatus)
    (cs : List StatusChange) where
  abbrev longer : List StatusChange
  longer = cs ++ record { application_id = id; from_status = from; to_status = to } ∷ []

  last_to-same : (i : ℕ) → (i == id) ≡ true → last_to i longer ≡ some to
  last_to-same i e =
      let e' : (id == i) ≡ true = ground (arith, e) in last_to-append i cs _ ∙ rw e' refl

  last_to-other : (i : ℕ) → (i == id) ≡ false → last_to i longer ≡ last_to i cs
  last_to-other i e =
      let e' : (id == i) ≡ false = ground (arith, e) in last_to-append i cs _ ∙ rw e' refl

  set_status-All :
      (as' : List Application)
      → All (λ (a : Application). last_to a.id cs ≡ some a.status) as'
      → All (λ (a : Application). last_to a.id longer ≡ some a.status) (set_status id to as')
  unfolding set_status
  set_status-All [] h = tt
  set_status-All (a ∷ as') (h, hs) = elim (Bool-cases (a.id == id)) [
    | inl e ↦ rw e (last_to-same a.id e, set_status-All as' hs)
    | inr e ↦ rw e (last_to-other a.id e ∙ h, set_status-All as' hs)
  ]

move-IsTracked :
    (row : Application) (to : ApplicationStatus) (db : Db)
    → IsTracked db
    → IsTracked (move row to db).1
unfolding move log_change
move-IsTracked row to db h =
    set_status-All row.id (some row.status) to db.application_events db.applications h

-- Advancing an application keeps each application's status the one its history ends with.
pub advance-IsTracked :
    (user_id id : ℕ) (to : ApplicationStatus) (db : Db)
    → IsTracked db
    → IsTracked (advance user_id id to db).1
unfolding advance
advance-IsTracked user_id id to db h = by_row (find_application user_id id db.applications)
  where
    moved :
        (row : Application)
        → (b c : Bool)
        → IsTracked
            (if b
              then (ok row, db)
              else if c
              then (error (cannot_move row.status to), db)
              else move row to db).1
    moved row true c = h
    moved row false true = h
    moved row false false = move-IsTracked row to db h

    by_row : (o : Option Application) → IsTracked (advance_row o to db).1
    by_row none = unfold advance_row in h
    by_row (some row) = unfold advance_row in moved row _ _

-- the row that an upsert answers is in the table that it leaves
upsert-In : (new : Application) (as' : List Application) → In (upsert new as').0 (upsert new as').1
unfolding upsert
upsert-In new [] = here refl
upsert-In new (a ∷ as') = elim (Bool-cases (is_pair new.user_id new.posting_id a)) [
  | inl e ↦ rw e (here refl)
  | inr e ↦ rw e (there (upsert-In new as'))
]

-- Where recording an application returns a row that has a later status (the row was there, and the
-- guard was overridden), the history no longer ends with each application's status.
pub record_application_breaks_history :
    (now id user_id posting_id : ℕ) (cv : Option ℕ) (force : Bool) (db : Db) {row : Application}
    → (record_application now id user_id posting_id cv force db).0 ≡ ok row
    → row.status ≢ applied
    → ¬ IsTracked (record_application now id user_id posting_id cv force db).1
unfolding log_change add_event
record_application_breaks_history now id user_id posting_id cv force db r n =
    broken (record_application-Recorded now id user_id posting_id cv force db) r n
  where
    broken :
        {o : Result Application × Db} {row : Application}
        → Recorded now id user_id posting_id force db o
        → o.0 ≡ ok row
        → row.status ≢ applied
        → ¬ IsTracked o.1
    broken refused e n t = error-ne-ok e
    broken (recorded p cv' h c) e n t =
        let new = new_application now id user_id posting_id cv' in
        let (stored, rows) = upsert new db.applications in
        let says : last_to stored.id (longer stored.id none applied db.application_events)
            ≡ some stored.status =
          All-In _ t (upsert-In new db.applications) in
        n (
          ap (λ (a : Application). a.status) (ok-injective e)
          ∙ sym (
              some-injective _ _ (
                sym (
                  last_to-same stored.id none applied db.application_events stored.id
                    (==_refl stored.id))
                ∙ says)))
