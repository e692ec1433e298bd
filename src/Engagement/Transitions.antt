-- ===== src/Engagement/Transitions.antt =====
-- Moving an application along its statuses.
use mathlib.Core.Option.{some-injective}
use career_pilot_ai.Prelude.{
  ℕ, ◌≡◌, refl, sym, ap, ◌∙◌, ◌⊎◌, inl, inr, true, some, List, [], ◌∷◌, arith, Bool-cases,
  Option-cases, ◌==◌, ◌&&◌, In, here, there,
}
use career_pilot_ai.Engagement.{
  ApplicationStatus, Application, Db, Result, ok, allowed, same_status,
}
use career_pilot_ai.Engagement.Recording.{ok-injective, error-ne-ok}
use career_pilot_ai.Engagement.Applications.{find_application, move, advance_row, advance}

pub find_application-In :
    (user_id id : ℕ) (as' : List Application) {a : Application}
    → find_application user_id id as' ≡ some a
    → In a as' × (a.id ≡ id) × (a.user_id ≡ user_id)
unfolding find_application
find_application-In user_id id [] h = absurd cc
find_application-In user_id id (b ∷ as') {a} h =
    elim (Bool-cases (b.id == id && b.user_id == user_id)) [
      | inl e ↦
          let s : b ≡ a = some-injective _ _ (rw e at h) in
          (
            here s,
            ap (λ (x : Application). x.id) (sym s) ∙ ground arith,
            ap (λ (x : Application). x.user_id) (sym s) ∙ ground arith,
          )
      | inr e ↦ let (m, i, u) = find_application-In user_id id as' (rw e at h) in (there m, i, u)
    ]

abbrev pub Advanced :
    ℕ → ℕ → ApplicationStatus → Db → Application → Result Application × Db → Type 0
Advanced user_id id to db row o =
    (old : Application) × In old db.applications
    × (old.id ≡ id)
    × (old.user_id ≡ user_id)
    × (((allowed old.status to ≡ true) × (row ≡ record old { status = to }))
        ⊎ ((same_status to old.status ≡ true) × (row ≡ old) × (o.1 ≡ db)))

module _ (user_id id : ℕ) (to : ApplicationStatus) (db : Db) {row : Application} where
  advance_row-Advanced :
      (old : Application)
      → In old db.applications
      → (old.id ≡ id)
      → (old.user_id ≡ user_id)
      → (advance_row (some old) to db).0 ≡ ok row
      → Advanced user_id id to db row (advance_row (some old) to db)
  unfolding advance_row
  advance_row-Advanced old m i u r = elim (Bool-cases (same_status to old.status)) [
    | inl e ↦ (old, m, i, u, inr (e, ok-injective (rw e at r), rw e refl))
    | inr e ↦ elim (Bool-cases (allowed old.status to)) [
      | inl f ↦ (old, m, i, u, inl (f, ok-injective (unfold move in rw (e, f) at r)))
      | inr f ↦ absurd (error-ne-ok (rw (e, f) at r))
    ]
  ]

  -- An application that Advanced is one of its owner's, with the id that was asked for; its status
  -- is the one asked for, by an allowed transition, or it had that status and nothing was written.
  pub advance_allowed :
      (advance user_id id to db).0 ≡ ok row
      → Advanced user_id id to db row (advance user_id id to db)
  unfolding advance
  advance_allowed r = elim (Option-cases (find_application user_id id db.applications)) [
    | inl e ↦ absurd (error-ne-ok (unfold advance_row in rw e at r))
    | inr (old, e) ↦
        let (m, i, u) = find_application-In user_id id db.applications e in
        rw e (advance_row-Advanced old m i u (rw e at r))
  ]
