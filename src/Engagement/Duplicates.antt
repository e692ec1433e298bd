-- ===== src/Engagement/Duplicates.antt =====
-- The guard against a second application to one job.
use mathlib.Core.Option.{some-injective}
use career_pilot_ai.Prelude.{
  ℕ, ◌≡◌, refl, sym, ap, ◌∙◌, ◌⊎◌, inl, inr, Bool, true, false, ◌||◌, not, Option, some, List, [],
  ◌∷◌, arith, any, keep_if, Bool-cases, ◌==◌, ==_iff, ==_refl,
}
use career_pilot_ai.Engagement.{
  Posting, Application, Db, duplicate_application, Result, ok, error, find_posting, same_group,
  is_same_job, head_latest, latest, existing_application, is_pair, upsert, log_change, add_event,
}
use career_pilot_ai.Engagement.Applications.{unless_duplicate, for_posting, record_application}
use career_pilot_ai.Engagement.Recording.{
  Recorded, refused, recorded, record_application-Recorded, new_application, error-ne-ok,
}

upsert-any :
    (new : Application) (as' : List Application)
    → any (is_pair new.user_id new.posting_id) (upsert new as').1 ≡ true
unfolding upsert is_pair
upsert-any new [] = ground (arith, ==_refl new.user_id, ==_refl new.posting_id)
upsert-any new (a ∷ as') = elim (Bool-cases (is_pair new.user_id new.posting_id a)) [
  | inl e ↦ rw e (ground arith)
  | inr e ↦ rw e (ground (arith, upsert-any new as'))
]

Bool-true : (b : Bool) → (b || true) ≡ true
Bool-true true = refl
Bool-true false = refl

-- two postings of one job: the same row, or rows of one group
abbrev pub SameJob : Posting → Posting → Type 0
SameJob p q = (q.id ≡ p.id) ⊎ (same_group q.job_group_id p.job_group_id ≡ true)

find_posting-id :
    (id : ℕ) (ps : List Posting) {p : Posting} → find_posting id ps ≡ some p → p.id ≡ id
unfolding find_posting
find_posting-id id [] h = cc
find_posting-id id (q ∷ ps) {p} h = elim (Bool-cases (q.id == id)) [
  | inl e ↦ ap (λ (x : Posting). x.id) (sym (some-injective _ _ (rw e at h))) ∙ (==_iff _ _).0 e
  | inr e ↦ find_posting-id id ps (rw e at h)
]

pair_of :
    (user_id posting_id : ℕ) (a : Application)
    → is_pair user_id posting_id a ≡ true
    → (a.user_id ≡ user_id) × (a.posting_id ≡ posting_id)
unfolding is_pair
pair_of user_id posting_id a e = (ground arith, ground arith)

cons-ne-nil : {a : Application} {l : List Application} → ¬ (a ∷ l ≡ [])
cons-ne-nil e = cc

module _ (user_id posting_id : ℕ) (p q : Posting) (postings : List Posting)
    (found : find_posting posting_id postings ≡ some p) (same : SameJob p q) where
  same_posting :
      (a : Application)
      → a.posting_id ≡ posting_id
      → (a.posting_id == q.id || same_group q.job_group_id p.job_group_id) ≡ true
  same_posting a e = elim same [
    | inl s ↦ ground (arith, find_posting-id posting_id postings found)
    | inr s ↦ rw s (Bool-true (a.posting_id == q.id))
  ]

  pair-same_job :
      (a : Application)
      → is_pair user_id posting_id a ≡ true
      → is_same_job postings user_id q.id q.job_group_id a ≡ true
  unfolding is_same_job
  pair-same_job a e =
      let (u, w) = pair_of user_id posting_id a e in
      let f : find_posting a.posting_id postings ≡ some p =
        ap (λ x. find_posting x postings) w ∙ found in
      rw (f, u, ==_refl user_id) (same_posting a w)

  kept :
      (l : List Application)
      → any (is_pair user_id posting_id) l ≡ true
      → ¬ (keep_if (is_same_job postings user_id q.id q.job_group_id) l ≡ [])
  kept [] e = cc
  kept (a ∷ l) e = elim (Bool-cases (is_pair user_id posting_id a)) [
    | inl f ↦ rw (pair-same_job a f) cons-ne-nil
    | inr f ↦ kept_tail (Bool-cases _) (kept l (rw f at e))
  ]
    where
      kept_tail :
          (is_same_job postings user_id q.id q.job_group_id a ≡ true)
            ⊎ (is_same_job postings user_id q.id q.job_group_id a ≡ false)
          → ¬ (keep_if (is_same_job postings user_id q.id q.job_group_id) l ≡ [])
          → ¬ (keep_if (is_same_job postings user_id q.id q.job_group_id) (a ∷ l) ≡ [])
      kept_tail (inl g) n = rw g cons-ne-nil
      kept_tail (inr g) n = rw g n

head_of : (l : List Application) → ¬ (l ≡ []) → (a : Application) × (head_latest l ≡ some a)
unfolding head_latest
head_of [] n = absurd (n refl)
head_of (a ∷ l) n = (latest a l, refl)

blocked :
    (now id user_id : ℕ) (cv : Option ℕ) (q : Posting) (db : Db) (a : Application)
    → find_posting q.id db.postings ≡ some q
    → existing_application user_id q.id q.job_group_id db ≡ some a
    → record_application now id user_id q.id cv false db
      ≡ (error (duplicate_application a.id (not (a.posting_id == q.id))), db)
unfolding record_application
blocked now id user_id cv q db a f e = rw (f, for_posting, e, unless_duplicate) refl

-- After an application was recorded for a posting, recording one without the override for that
-- posting, or for a posting of the same group, is refused as a duplicate and changes nothing.
pub record_application_again :
    (now id user_id posting_id now' id' : ℕ) (cv cv' : Option ℕ) (force : Bool) (p q : Posting)
    (db : Db) {row : Application}
    → find_posting posting_id db.postings ≡ some p
    → find_posting q.id db.postings ≡ some q
    → SameJob p q
    → (record_application now id user_id posting_id cv force db).0 ≡ ok row
    → let after = (record_application now id user_id posting_id cv force db).1 in
      (e : ℕ) × (b : Bool) × (record_application now' id' user_id q.id cv' false after
        ≡ (error (duplicate_application e b), after))
unfolding existing_application add_event log_change
record_application_again now id user_id posting_id now' id' cv cv' force p q db h hq s r =
    recorded_again (record_application-Recorded now id user_id posting_id cv force db) r
  where
    recorded_again :
        {o : Result Application × Db} {row : Application}
        → Recorded now id user_id posting_id force db o
        → o.0 ≡ ok row
        → (e : ℕ) × (b : Bool) × (record_application now' id' user_id q.id cv' false o.1
            ≡ (error (duplicate_application e b), o.1))
    recorded_again refused e = absurd (error-ne-ok e)
    recorded_again (recorded p' cv'' h' c) e =
        let new = new_application now id user_id posting_id cv'' in
        let (a, ha) = head_of _ (
          kept user_id posting_id p q db.postings h s (upsert new db.applications).1
            (upsert-any new db.applications)) in
        (a.id, not (a.posting_id == q.id), blocked now' id' user_id cv' q _ a hq ha)
