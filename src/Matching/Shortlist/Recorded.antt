-- ===== src/Matching/Shortlist/Recorded.antt =====
-- What a matching run records of the postings that it scored: backend/app/services/matching.py.
use career_pilot_ai.Prelude.{
  ℕ, suc, ◌≡◌, ◌≢◌, refl, sym, ◌∙◌, inl, inr, Bool, true, ◌&&◌, some, List, [], ◌∷◌, map, ◌==◌,
  ==_iff, eq_iff, Bool-cases, str_eq, take, All, AllPairs, Some, here, there, arith,
}
use career_pilot_ai.Scoring.{percentile_of}
use career_pilot_ai.Matching.Shortlist.{
  current_model_version, MatchRow, ScoredItem, Tables, Withheld, persist, persist_from,
  persist_item, persist_withheld, same_key, scored_row, set_failures, set_score, upsert,
  withheld_row, withhold_all,
}

-- The row of a scored posting: its score, its percentile in the run, and its place.
abbrev pub IsRow : ℕ → List ℕ → ℕ → ScoredItem → MatchRow → Type 0
IsRow profile totals rank item m =
    (m.profile_id ≡ profile)
    × (m.posting_id ≡ item.posting_id)
    × (m.model_version ≡ current_model_version)
    × (m.total_score ≡ item.score.total)
    × (m.percentile ≡ some (percentile_of item.score.total totals).value)
    × (m.rank ≡ some rank)

abbrev pub Recorded : ℕ → List ℕ → ℕ → List ScoredItem → List MatchRow → Type 0
Recorded profile totals rank [] ms = Unit
Recorded profile totals rank (i ∷ is) ms =
    Some (IsRow profile totals rank i) ms × Recorded profile totals (suc rank) is ms

same_key-eq :
    (a b : MatchRow)
    → same_key a b ≡ true
    → (a.profile_id ≡ b.profile_id)
      × (a.posting_id ≡ b.posting_id)
      × (a.model_version ≡ b.model_version)
same_key-eq a b h =
    let (q, t) =
      and_parts (a.profile_id == b.profile_id && a.posting_id == b.posting_id)
        (str_eq a.model_version b.model_version) h in
    let (p, r) = and_parts (a.profile_id == b.profile_id) (a.posting_id == b.posting_id) q in
    (
      (==_iff a.profile_id b.profile_id).0 p,
      (==_iff a.posting_id b.posting_id).0 r,
      (eq_iff a.model_version b.model_version).0 t,
    )
  where
    and_parts : (x y : Bool) → (x && y) ≡ true → (x ≡ true) × (y ≡ true)
    and_parts x y k = (ground (arith, k), ground (arith, k))

-- what a set that leaves the key and the score does to the rows
upsert-IsRow :
    (profile : ℕ) (totals : List ℕ) (rank : ℕ) (item : ScoredItem) (row : MatchRow)
    (set : MatchRow → MatchRow) (ms : List MatchRow)
    → ((m : MatchRow)
        → same_key row m ≡ true
        → IsRow profile totals rank item m
        → IsRow profile totals rank item (set m))
    → Some (IsRow profile totals rank item) ms
    → Some (IsRow profile totals rank item) (upsert row set ms)
unfolding upsert
upsert-IsRow profile totals rank item row set [] h s = elim s [ ]
upsert-IsRow profile totals rank item row set (m ∷ ms) h (here p) =
    elim (Bool-cases (same_key row m)) [ inl e ↦ rw e (here (h m e p)) | inr e ↦ rw e (here p) ]
upsert-IsRow profile totals rank item row set (m ∷ ms) h (there s) =
    elim (Bool-cases (same_key row m)) [
      | inl e ↦ rw e (there s)
      | inr e ↦ rw e (there (upsert-IsRow profile totals rank item row set ms h s))
    ]

persist_item-IsRow :
    (now user profile : ℕ) (totals : List ℕ) (rank : ℕ) (item : ScoredItem) (id : ℕ)
    (ms : List MatchRow)
    → let row = scored_row now user profile totals rank item id in
      Some (IsRow profile totals rank item) (upsert row (set_score row) ms)
unfolding upsert scored_row
persist_item-IsRow now user profile totals rank item id [] =
    here (refl, refl, refl, refl, refl, refl)
persist_item-IsRow now user profile totals rank item id (m ∷ ms) =
    let row = scored_row now user profile totals rank item id in
    elim (Bool-cases (same_key row m)) [
      | inl e ↦
          let (p, q, v) = same_key-eq row m e in rw e (here (sym p, sym q, sym v, refl, refl, refl))
      | inr e ↦ rw e (there (persist_item-IsRow now user profile totals rank item id ms))
    ]

-- a later item of another posting leaves the row
upsert_scored-IsRow :
    (now user profile : ℕ) (totals : List ℕ) (rank other : ℕ) (item scored : ScoredItem) (id : ℕ)
    (ms : List MatchRow)
    → item.posting_id ≢ scored.posting_id
    → Some (IsRow profile totals rank item) ms
    → let row = scored_row now user profile totals other scored id in
      Some (IsRow profile totals rank item) (upsert row (set_score row) ms)
upsert_scored-IsRow now user profile totals rank other item scored id ms d s =
    let row = scored_row now user profile totals other scored id in
    upsert-IsRow profile totals rank item row (set_score row) ms
      (λ m e (_, q, _, _, _, _).
        absurd (d (sym q ∙ sym (unfold scored_row in (same_key-eq row m e).1))))
      s

persist_from-IsRow :
    (now user profile : ℕ) (totals : List ℕ) (rank other : ℕ) (item : ScoredItem)
    (items : List ScoredItem) (tables : Tables)
    → All (λ (i : ScoredItem). item.posting_id ≢ i.posting_id) items
    → Some (IsRow profile totals rank item) tables.matches
    → Some
        (IsRow profile totals rank item)
        (persist_from now user profile totals other items tables).matches
unfolding persist_from persist_item
persist_from-IsRow now user profile totals rank other item [] tables d s = s
persist_from-IsRow now user profile totals rank other item (i ∷ is) tables (d, ds) s =
    persist_from-IsRow now user profile totals rank (suc other) item is
      (persist_item now user profile totals other i tables) ds
      (upsert_scored-IsRow now user profile totals rank other item i tables.next_id tables.matches d
        s)

persist_from-Recorded :
    (now user profile : ℕ) (totals : List ℕ) (rank : ℕ) (items : List ScoredItem) (tables : Tables)
    → AllPairs (λ (a b : ScoredItem). a.posting_id ≢ b.posting_id) items
    → Recorded profile totals rank items
        (persist_from now user profile totals rank items tables).matches
unfolding persist_from persist_item
persist_from-Recorded now user profile totals rank [] tables d = tt
persist_from-Recorded now user profile totals rank (i ∷ is) tables (d, ds) =
    let next = persist_item now user profile totals rank i tables in
    (
      persist_from-IsRow now user profile totals rank (suc rank) i is next d
          (persist_item-IsRow now user profile totals rank i tables.next_id tables.matches),
      persist_from-Recorded now user profile totals (suc rank) is next ds,
    )

withhold_all-IsRow :
    (now user profile : ℕ) (totals : List ℕ) (rank : ℕ) (item : ScoredItem) (ws : List Withheld)
    (tables : Tables)
    → Some (IsRow profile totals rank item) tables.matches
    → Some (IsRow profile totals rank item) (withhold_all now user profile ws tables).matches
unfolding withhold_all
withhold_all-IsRow now user profile totals rank item [] tables s = s
withhold_all-IsRow now user profile totals rank item (w ∷ ws) tables s =
    let row = withheld_row now user profile w tables.next_id in
    withhold_all-IsRow now user profile totals rank item ws
      (record tables {
        matches = upsert row (set_failures row) tables.matches;
        next_id = suc tables.next_id;
      })
      (upsert-IsRow profile totals rank item row (set_failures row) tables.matches (λ m e p. p) s)

withhold_all-Recorded :
    (now user profile : ℕ) (totals : List ℕ) (rank : ℕ) (items : List ScoredItem)
    (ws : List Withheld) (tables : Tables)
    → Recorded profile totals rank items tables.matches
    → Recorded profile totals rank items (withhold_all now user profile ws tables).matches
withhold_all-Recorded now user profile totals rank [] ws tables r = tt
withhold_all-Recorded now user profile totals rank (i ∷ is) ws tables (r, rs) = (
  withhold_all-IsRow now user profile totals rank i ws tables r,
  withhold_all-Recorded now user profile totals (suc rank) is ws tables rs,
)

-- A run records what it scored, when its scored postings are different ones: in the end each has a
-- row of its profile and model with its total, its percentile among the run's totals, and its
-- place, whatever was in the table and whatever was withheld after it.
pub persist-Recorded :
    (now user profile : ℕ) (scored : List ScoredItem) (withheld : List Withheld) (tables : Tables)
    → AllPairs (λ (a b : ScoredItem). a.posting_id ≢ b.posting_id) scored
    → Recorded profile
        (map (λ (i : ScoredItem). i.score.total) scored)
        1
        scored
        (persist_withheld now user profile withheld
          (persist now user profile scored tables).1).matches
unfolding persist_withheld persist
persist-Recorded now user profile scored withheld tables d =
    withhold_all-Recorded now user profile _ 1 scored (take 200 withheld) _
      (persist_from-Recorded now user profile _ 1 scored tables d)
