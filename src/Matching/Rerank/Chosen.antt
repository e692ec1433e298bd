-- ===== src/Matching/Rerank/Chosen.antt =====
-- What a reranking chooses: backend/app/domain/matching/rerank.py.
use mathlib.Core.List.{Perm}
use career_pilot_ai.Prelude.{
  ℕ, zero, suc, String, ◌<◌, ◌≤◌, ◌≡◌, refl, sym, ap, ◌∙◌, subst, true, false, Option, none, some,
  List, [], ◌∷◌, map, arith, take, length, sort_by, IsSorted, sort_by-IsSorted, sort_by-Perm,
  sort_by-All, All, take-All, map-All,
}
use career_pilot_ai.Matching.Rerank.{
  Document, RerankedHit, Reranker, is_better, ranked, rerank, zip_strict,
}

is_better-total : (a b : ℕ × ℕ) → is_better a b ≡ false → is_better b a ≡ true
is_better-total a b h = ground (arith, h)

is_better_trans :
    (a b c : ℕ × ℕ) → is_better a b ≡ true → is_better b c ≡ true → is_better a c ≡ true
is_better_trans a b c h k = ground (arith, h, k)

-- the hits are the first of a sorted arrangement of the scored postings
abbrev pub IsTop : ℕ → List (ℕ × ℕ) → List RerankedHit → Type 0
IsTop top_n pairs hits =
    (ordered : List (ℕ × ℕ)) × Perm ordered pairs
    × IsSorted is_better ordered
    × (hits ≡ ranked 1 (take top_n ordered))

zip_strict-length :
    (ids scores : List ℕ)
    → length scores ≡ length ids
    → (pairs : List (ℕ × ℕ)) × (zip_strict ids scores ≡ some pairs)
      × (map (λ (p : ℕ × ℕ). p.0) pairs ≡ ids)
      × (map (λ (p : ℕ × ℕ). p.1) pairs ≡ scores)
unfolding zip_strict
zip_strict-length [] [] e = ([], refl, refl, refl)
zip_strict-length [] (s ∷ ss) e = absurd (omega (arith, e))
zip_strict-length (i ∷ is) [] e = absurd (omega (arith, e))
zip_strict-length (i ∷ is) (s ∷ ss) e =
    let (ps, h, a, b) = zip_strict-length is ss (omega (arith, e)) in
    ((i, s) ∷ ps, rw h refl, ap (◌∷◌ i) a, ap (◌∷◌ s) b)

length-map : (ds : List Document) → length (map (λ (c : Document). c.0) ds) ≡ length ds
length-map [] = refl
length-map (d ∷ ds) = ap suc (length-map ds)

-- A reranker that gives each document a score keeps the best postings, by descending score and then
-- by id: the hits are the first `top_n` of an arrangement in that order of all postings with the
-- scores of their documents, ranked from 1.
pub rerank-IsTop :
    (documents : List Document) (reranker : Reranker) (top_n : ℕ)
    → (0 < length documents)
    → length (reranker (map (λ (c : Document). c.1) documents)) ≡ length documents
    → (pairs : List (ℕ × ℕ)) × (hits : List RerankedHit) × (map (λ (p : ℕ × ℕ). p.0) pairs
        ≡ map (λ (c : Document). c.0) documents)
      × (map (λ (p : ℕ × ℕ). p.1) pairs ≡ reranker (map (λ (c : Document). c.1) documents))
      × (rerank documents (some reranker) top_n ≡ some hits)
      × IsTop top_n pairs hits
unfolding rerank
rerank-IsTop [] reranker top_n z e = absurd (omega (arith, z))
rerank-IsTop (d ∷ ds) reranker top_n z e =
    let (pairs, h, a, b) =
      zip_strict-length (map (λ (c : Document). c.0) (d ∷ ds))
        (reranker (map (λ (c : Document). c.1) (d ∷ ds))) (e ∙ sym (length-map (d ∷ ds))) in
    (
      pairs,
      _,
      a,
      b,
      rw h refl,
      (
        sort_by is_better pairs,
        sort_by-Perm is_better pairs,
        sort_by-IsSorted is_better is_better-total is_better_trans pairs,
        refl,
      ),
    )

-- The reranker, if there is one, gives as many scores as it is given texts.
abbrev pub Scores : Option Reranker → Type 0
Scores none = Unit
Scores (some reranker) = (texts : List String) → length (reranker texts) ≡ length texts

take-length : (n : ℕ) (ps : List (ℕ × ℕ)) → length (take n ps) ≤ n
take-length zero ps = omega arith
take-length (suc n) [] = omega arith
take-length (suc n) (p ∷ ps) = omega (arith, take-length n ps)

ranked-length : (rank : ℕ) (ps : List (ℕ × ℕ)) → length (ranked rank ps) ≡ length ps
unfolding ranked
ranked-length rank [] = refl
ranked-length rank (p ∷ ps) = ap suc (ranked-length (suc rank) ps)

module _ (P : ℕ → Type 0) where
  ranked-All :
      (rank : ℕ) (ps : List (ℕ × ℕ))
      → All (λ (p : ℕ × ℕ). P p.0) ps
      → All (λ (h : RerankedHit). P h.posting_id) (ranked rank ps)
  unfolding ranked
  ranked-All rank [] h = tt
  ranked-All rank ((id, score) ∷ ps) (h, hs) = (h, ranked-All (suc rank) ps hs)

  unmap-All :
      (ps : List (ℕ × ℕ)) → All P (map (λ (p : ℕ × ℕ). p.0) ps) → All (λ (p : ℕ × ℕ). P p.0) ps
  unmap-All [] h = tt
  unmap-All (p ∷ ps) (h, hs) = (h, unmap-All ps hs)

  -- at most so many, of the documents
  abbrev pub AreChosen : ℕ → List RerankedHit → Type 0
  AreChosen n hits = All (λ (h : RerankedHit). P h.posting_id) hits × (length hits ≤ n)

  ranked-AreChosen :
      (n : ℕ) (ps : List (ℕ × ℕ))
      → All (λ (p : ℕ × ℕ). P p.0) ps
      → AreChosen n (ranked 1 (take n ps))
  ranked-AreChosen n ps h = (
    ranked-All 1 (take n ps) (take-All (λ (p : ℕ × ℕ). P p.0) n ps h),
    omega (arith, ranked-length 1 (take n ps), take-length n ps),
  )

  pub rerank-AreChosen :
      (documents : List Document) (reranker : Option Reranker) (n : ℕ)
      → Scores reranker
      → All (λ (d : Document). P d.0) documents
      → (hits : List RerankedHit) × (rerank documents reranker n ≡ some hits) × AreChosen n hits
  unfolding rerank
  rerank-AreChosen [] reranker n s h = ([], refl, (tt, omega arith))
  rerank-AreChosen (d ∷ ds) none n s h = (
    _,
    refl,
    ranked-AreChosen n _
        (map-All (λ (p : ℕ × ℕ). P p.0) (λ (c : Document). (c.0, 500000)) (d ∷ ds) h),
  )
  rerank-AreChosen (d ∷ ds) (some reranker) n s h =
      let ids = map (λ (c : Document). c.0) (d ∷ ds) in
      let texts = map (λ (c : Document). c.1) (d ∷ ds) in
      let (pairs, e, a, _) =
        zip_strict-length ids (reranker texts) (s texts ∙ ap suc (same_length ds)) in
      let of_pairs =
        unmap-All pairs (subst (All P) (sym a) (map-All P (λ (c : Document). c.0) (d ∷ ds) h)) in
      (
        _,
        rw e refl,
        ranked-AreChosen n (sort_by is_better pairs)
            (sort_by-All is_better (λ (p : ℕ × ℕ). P p.0) pairs of_pairs),
      )
    where
      same_length :
          (ds : List Document)
          → length (map (λ (c : Document). c.1) ds) ≡ length (map (λ (c : Document). c.0) ds)
      same_length [] = refl
      same_length (d ∷ ds) = ap suc (same_length ds)
