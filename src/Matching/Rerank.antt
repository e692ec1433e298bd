-- ===== src/Matching/Rerank.antt =====
-- backend/app/domain/matching/rerank.py. Posting ids are numbers in the order of their texts, scores
-- are in millionths, and the scores that a reranker gives the documents are an argument.
pub mod Chosen
use career_pilot_ai.Prelude.{
  ℕ, suc, ◌<◌, ◌≡◌, refl, sym, ap, ◌∙◌, String, Bool, true, false, ◌&&◌, ◌||◌, Option, none, some,
  List, [], ◌∷◌, map, arith, ltb, leb, ◌==◌, take, length, sort_by, IsSorted, sort_by-IsSorted,
  sort_by-Perm,
}
use mathlib.Core.List.{Perm}

pub record RerankedHit : Type 0 where
  pub posting_id : ℕ
  pub score : ℕ
  pub rank : ℕ

-- a posting with its document
abbrev pub Document : Type 0
Document = ℕ × String

abbrev pub Reranker : Type 0
Reranker = List String → List ℕ

-- `zip(..., strict=True)`, which raises where the lengths differ
unfoldable pub zip_strict : List ℕ → List ℕ → Option (List (ℕ × ℕ))
zip_strict [] [] = some []
zip_strict [] (s ∷ ss) = none
zip_strict (i ∷ is) [] = none
zip_strict (i ∷ is) (s ∷ ss) = elim (zip_strict is ss) [
  | none ↦ none
  | some ps ↦ some ((i, s) ∷ ps)
]

-- `(-pair[1], pair[0])`
abbrev pub is_better : ℕ × ℕ → ℕ × ℕ → Bool
is_better a b = ltb b.1 a.1 || (a.1 == b.1 && leb a.0 b.0)

-- `enumerate`, from a rank on
unfoldable pub ranked : ℕ → List (ℕ × ℕ) → List RerankedHit
ranked rank [] = []
ranked rank ((id, score) ∷ ps) =
    record { posting_id = id; score = score; rank = rank } ∷ ranked (suc rank) ps

abbrev pub scored_by : ℕ → Option (List (ℕ × ℕ)) → Option (List RerankedHit)
scored_by top_n none = none
scored_by top_n (some pairs) = some (ranked 1 (take top_n (sort_by is_better pairs)))

-- none where the reranker gives another number of scores
unfoldable pub rerank : List Document → Option Reranker → ℕ → Option (List RerankedHit)
unfolding zip_strict ranked
rerank [] reranker top_n = some []
rerank (d ∷ ds) none top_n =
    some (ranked 1 (take top_n (map (λ (c : Document). (c.0, 500000)) (d ∷ ds))))
rerank (d ∷ ds) (some score_pairs) top_n = scored_by top_n (
    zip_strict (map (λ (c : Document). c.0) (d ∷ ds))
      (score_pairs (map (λ (c : Document). c.1) (d ∷ ds))))
