-- ===== src/Matching/Fusion/Chosen.antt =====
-- What a fusion chooses from: the hits of its rankings, backend/app/domain/matching/retrieval.py.
use career_pilot_ai.Prelude.{
  ℕ, String, some, List, [], ◌∷◌, ◌==◌, Bool-cases, inl, inr, All, take-All, map-All, sort_by-All,
}
use career_pilot_ai.Matching.Fusion.{
  FusedHit, Gathered, RetrievalHit, add_hit, add_hits, fused_hit, gather, is_before, limited,
  reciprocal_rank_fusion,
}

-- What holds of every id that is ranked holds of every id that is fused.
module _ (P : ℕ → Type 0) where
  abbrev pub OfHit : RetrievalHit → Type 0
  OfHit h = P h.posting_id

  abbrev pub OfGathered : Gathered → Type 0
  OfGathered g = P g.posting_id

  abbrev pub OfFused : FusedHit → Type 0
  OfFused f = P f.posting_id

  add_hit-All :
      (k : ℕ) (name : String) (h : RetrievalHit) (gs : List Gathered)
      → OfHit h
      → All OfGathered gs
      → All OfGathered (add_hit k name h gs)
  unfolding add_hit
  add_hit-All k name h [] p q = (p, tt)
  add_hit-All k name h (g ∷ gs) p (q, qs) = elim (Bool-cases (g.posting_id == h.posting_id)) [
    | inl e ↦ rw e (q, qs)
    | inr e ↦ rw e (q, add_hit-All k name h gs p qs)
  ]

  add_hits-All :
      (k : ℕ) (name : String) (hs : List RetrievalHit) (gs : List Gathered)
      → All OfHit hs
      → All OfGathered gs
      → All OfGathered (add_hits k name hs gs)
  unfolding add_hits
  add_hits-All k name [] gs p q = q
  add_hits-All k name (h ∷ hs) gs (p, ps) q =
      add_hits-All k name hs (add_hit k name h gs) ps (add_hit-All k name h gs p q)

  gather-All :
      (k : ℕ) (rs : List (String × List RetrievalHit)) (gs : List Gathered)
      → All (λ (r : String × List RetrievalHit). All OfHit r.1) rs
      → All OfGathered gs
      → All OfGathered (gather k rs gs)
  unfolding gather
  gather-All k [] gs p q = q
  gather-All k ((name, hits) ∷ rs) gs (p, ps) q =
      gather-All k rs (add_hits k name hits gs) ps (add_hits-All k name hits gs p q)

  limited-All : (n : ℕ) (fs : List FusedHit) → All OfFused fs → All OfFused (limited (some n) fs)
  limited-All n fs h = elim (Bool-cases (n == 0)) [
    | inl e ↦ rw e h
    | inr e ↦ rw e (take-All OfFused n fs h)
  ]

  pub reciprocal_rank_fusion-All :
      (k n : ℕ) (rs : List (String × List RetrievalHit))
      → All (λ (r : String × List RetrievalHit). All OfHit r.1) rs
      → All OfFused (reciprocal_rank_fusion k (some n) rs)
  unfolding reciprocal_rank_fusion
  reciprocal_rank_fusion-All k n rs h =
      limited-All n _
        (sort_by-All is_before OfFused _ (map-All OfFused fused_hit _ (gather-All k rs [] h tt)))
