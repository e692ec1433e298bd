-- ===== src/Matching/Shortlist/Gated.antt =====
-- What a matching run leaves of the gate flags and of the shortlist:
-- backend/app/services/matching.py.
use career_pilot_ai.Prelude.{
  ℕ, suc, ◌≡◌, refl, sym, ap, ◌∙◌, inl, inr, Bool, true, false, ◌&&◌, Option, List, [], ◌∷◌, ◌++◌,
  ◌==◌, Bool-cases, keep_if, take, arith,
}
use mathlib.Core.List.{append-nil, append_assoc}
use career_pilot_ai.Matching.Shortlist.{
  MatchRow, ScoredItem, Tables, Withheld, persist, persist_from, persist_item, persist_withheld,
  same_key, scored_row, set_failures, set_score, upsert, withheld_row, withhold_all, is_listed,
  is_shown, shortlist,
}

-- The gate flag of each row, by its id.
abbrev pub flags : List MatchRow → List (ℕ × Bool)
flags [] = []
flags (m ∷ ms) = (m.id, m.gate_passed) ∷ flags ms

-- The first list is the second's beginning.
abbrev pub IsBefore : List (ℕ × Bool) → List (ℕ × Bool) → Type 0
IsBefore xs ys = (added : List (ℕ × Bool)) × (ys ≡ xs ++ added)

IsBefore-refl : (xs : List (ℕ × Bool)) → IsBefore xs xs
IsBefore-refl xs = ([], sym (append-nil xs))

IsBefore-trans : (xs ys zs : List (ℕ × Bool)) → IsBefore xs ys → IsBefore ys zs → IsBefore xs zs
IsBefore-trans xs ys zs (a, e) (b, f) = (a ++ b, f ∙ ap (λ l. l ++ b) e ∙ append_assoc xs a b)

upsert-flags :
    (row : MatchRow) (set : MatchRow → MatchRow) (ms : List MatchRow)
    → ((m : MatchRow) → ((set m).id ≡ m.id) × ((set m).gate_passed ≡ m.gate_passed))
    → IsBefore (flags ms) (flags (upsert row set ms))
unfolding upsert
upsert-flags row set [] h = ((row.id, row.gate_passed) ∷ [], refl)
upsert-flags row set (m ∷ ms) h = elim (Bool-cases (same_key row m)) [
  | inl e ↦ rw e ([], rw ((h m).0, (h m).1, append-nil) refl)
  | inr e ↦
      let (added, q) = upsert-flags row set ms h in
      rw e (added, ap (λ l. (m.id, m.gate_passed) ∷ l) q)
]

persist_from-flags :
    (now user profile : ℕ) (totals : List ℕ) (rank : ℕ) (items : List ScoredItem) (tables : Tables)
    → IsBefore
        (flags tables.matches)
        (flags (persist_from now user profile totals rank items tables).matches)
unfolding persist_from persist_item
persist_from-flags now user profile totals rank [] tables = IsBefore-refl _
persist_from-flags now user profile totals rank (item ∷ items) tables =
    let row = scored_row now user profile totals rank item tables.next_id in
    IsBefore-trans _ _ _ (upsert-flags row (set_score row) tables.matches (λ m. (refl, refl))) (
      persist_from-flags now user profile totals (suc rank) items
        (persist_item now user profile totals rank item tables))

withhold_all-flags :
    (now user profile : ℕ) (ws : List Withheld) (tables : Tables)
    → IsBefore (flags tables.matches) (flags (withhold_all now user profile ws tables).matches)
unfolding withhold_all
withhold_all-flags now user profile [] tables = IsBefore-refl _
withhold_all-flags now user profile (w ∷ ws) tables =
    let row = withheld_row now user profile w tables.next_id in
    IsBefore-trans _ _ _ (upsert-flags row (set_failures row) tables.matches (λ m. (refl, refl))) (
      withhold_all-flags now user profile ws (record tables {
        matches = upsert row (set_failures row) tables.matches;
        next_id = suc tables.next_id;
      }))

-- A run never changes the gate flag of a row that is there: whatever it scores and withholds, the
-- flags of the earlier rows stay, so that a posting withheld once stays withheld when it is scored.
pub persist-flags :
    (now user profile : ℕ) (scored : List ScoredItem) (withheld : List Withheld) (tables : Tables)
    → (added : List (ℕ × Bool)) × (flags
          (persist_withheld now user profile withheld
            (persist now user profile scored tables).1).matches
        ≡ flags tables.matches ++ added)
unfolding persist_withheld persist
persist-flags now user profile scored withheld tables =
    IsBefore-trans _ _ _ (persist_from-flags now user profile _ 1 scored tables)
      (withhold_all-flags now user profile (take 200 withheld) _)

-- What the shortlist shows of a match.
abbrev pub standings : List MatchRow → List (ℕ × ℕ × ℕ × Option ℕ × Option ℕ)
standings [] = []
standings (m ∷ ms) = (m.id, m.posting_id, m.total_score, m.percentile, m.rank) ∷ standings ms

withheld-not_listed : (x y z : Bool) → ((x && false && y) && z) ≡ false
withheld-not_listed x y z = ground arith

upsert_withheld-standings :
    (now user profile viewer min_percentile : ℕ) (w : Withheld) (id : ℕ) (ms : List MatchRow)
    → let row = withheld_row now user profile w id in
      standings (keep_if (is_shown viewer min_percentile) (upsert row (set_failures row) ms))
      ≡ standings (keep_if (is_shown viewer min_percentile) ms)
unfolding upsert is_shown is_listed
upsert_withheld-standings now user profile viewer min_percentile w id [] =
    rw (withheld-not_listed (user == viewer) true false) refl
upsert_withheld-standings now user profile viewer min_percentile w id (m ∷ ms) =
    let row = withheld_row now user profile w id in
    let ih = upsert_withheld-standings now user profile viewer min_percentile w id ms in
    elim (Bool-cases (same_key row m)) [
      | inl e ↦ rw e (elim (Bool-cases (is_shown viewer min_percentile m)) [
        | inl f ↦ rw f refl
        | inr f ↦ rw f refl
      ])
      | inr e ↦ rw e (elim (Bool-cases (is_shown viewer min_percentile m)) [
        | inl f ↦ rw f (ap (λ l. (m.id, m.posting_id, m.total_score, m.percentile, m.rank) ∷ l) ih)
        | inr f ↦ rw f ih
      ])
    ]

withhold_all-standings :
    (now user profile viewer min_percentile : ℕ) (ws : List Withheld) (tables : Tables)
    → standings (shortlist viewer min_percentile (withhold_all now user profile ws tables))
      ≡ standings (shortlist viewer min_percentile tables)
unfolding withhold_all shortlist
withhold_all-standings now user profile viewer min_percentile [] tables = refl
withhold_all-standings now user profile viewer min_percentile (w ∷ ws) tables =
    let row = withheld_row now user profile w tables.next_id in
    withhold_all-standings now user profile viewer min_percentile ws (record tables {
      matches = upsert row (set_failures row) tables.matches;
      next_id = suc tables.next_id;
    })
    ∙ upsert_withheld-standings now user profile viewer min_percentile w tables.next_id
        tables.matches

-- Withholding takes nothing off a shortlist: whatever postings a run withholds, each shortlist shows
-- the same matches with the same scores, percentiles and ranks as before, the withheld ones
-- included.
pub persist_withheld-shortlist :
    (now user profile viewer min_percentile : ℕ) (withheld : List Withheld) (tables : Tables)
    → standings
        (shortlist viewer min_percentile (persist_withheld now user profile withheld tables))
      ≡ standings (shortlist viewer min_percentile tables)
unfolding persist_withheld
persist_withheld-shortlist now user profile viewer min_percentile withheld tables =
    withhold_all-standings now user profile viewer min_percentile (take 200 withheld) tables
