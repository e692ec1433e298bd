-- ===== src/Matching/Funnel/Finalists.antt =====
-- Which postings the funnel chooses: stages 3 and 4 of backend/app/services/matching.py.
use career_pilot_ai.Prelude.{
  ℕ, suc, ◌≡◌, refl, inl, inr, String, Bool, Option, none, some, List, [], ◌∷◌, map, Bool-cases,
  Option-cases, arith, In, here, there, All, All-mono, take-All, map-All, is_empty,
}
use career_pilot_ai.Matching.{CandidateSnapshot, PostingSnapshot}
use career_pilot_ai.Matching.Fusion.{FusedHit, RetrievalHit}
use career_pilot_ai.Matching.Fusion.Chosen.{reciprocal_rank_fusion-All}
use career_pilot_ai.Matching.Rerank.{Document, RerankedHit, Reranker}
use career_pilot_ai.Matching.Rerank.Chosen.{AreChosen, Scores, rerank-AreChosen}
use career_pilot_ai.Matching.Funnel.{
  FunnelConfig, PipelineSettings, PostingRow, Search, document_of, documents_of, finalists,
  hits_from, ids_or, rankings, stage2_gates, stage3_retrieval, stage4_rerank,
}

-- What holds of every id that a search finds holds of every id that the fusion and the reranking
-- choose.
module _ (P : ℕ → Type 0) where
  abbrev OfHit : RetrievalHit → Type 0
  OfHit h = P h.posting_id

  abbrev OfFused : FusedHit → Type 0
  OfFused f = P f.posting_id

  ids_or-All :
      (fs : List FusedHit) (ids : List ℕ) → All OfFused fs → All P ids → All P (ids_or fs ids)
  ids_or-All [] ids h q = q
  ids_or-All (f ∷ fs) ids (h, hs) q = (h, map-All P (λ (f : FusedHit). f.posting_id) fs hs)

  hits_from-All :
      (rank : ℕ) (rows : List (ℕ × ℕ))
      → All (λ (r : ℕ × ℕ). P r.0) rows
      → All OfHit (hits_from rank rows)
  unfolding hits_from
  hits_from-All rank [] h = tt
  hits_from-All rank ((id, score) ∷ rows) (h, hs) = (h, hits_from-All (suc rank) rows hs)

  rankings-All :
      (settings : PipelineSettings) (config : FunnelConfig) (lexical vector : Search) (ids : List ℕ)
      → All (λ (r : ℕ × ℕ). P r.0) (lexical ids config.retrieval_top_k)
      → All (λ (r : ℕ × ℕ). P r.0) (vector ids config.retrieval_top_k)
      → All
          (λ (r : String × List RetrievalHit). All OfHit r.1)
          (rankings settings config lexical vector ids)
  unfolding rankings
  rankings-All settings config lexical vector ids l v =
      let from_lexical = hits_from-All 1 _ l in
      let from_vector = hits_from-All 1 _ v in
      elim (Bool-cases settings.use_lexical) [
        | inl e ↦ elim (Bool-cases settings.use_vector) [
          | inl f ↦ rw (e, f) (from_lexical, (from_vector, tt))
          | inr f ↦ rw (e, f) (from_lexical, tt)
        ]
        | inr e ↦ elim (Bool-cases settings.use_vector) [
          | inl f ↦ rw (e, f) (from_vector, tt)
          | inr f ↦ rw (e, f) tt
        ]
      ]

  stage3-All :
      (settings : PipelineSettings) (config : FunnelConfig) (lexical vector : Search) (ids : List ℕ)
      → All P ids
      → All (λ (r : ℕ × ℕ). P r.0) (lexical ids config.retrieval_top_k)
      → All (λ (r : ℕ × ℕ). P r.0) (vector ids config.retrieval_top_k)
      → All P (stage3_retrieval settings config lexical vector ids)
  unfolding stage3_retrieval
  stage3-All settings config lexical vector ids h l v =
      ids_or-All _ _
        (reciprocal_rank_fusion-All P config.rrf_k config.fusion_top_n _
          (rankings-All settings config lexical vector ids l v))
        (take-All P config.fusion_top_n ids h)

  documents_of-All :
      (ids : List ℕ) (postings : List PostingRow)
      → All P ids
      → All (λ (d : Document). P d.0) (documents_of ids postings)
  unfolding documents_of
  documents_of-All [] postings h = tt
  documents_of-All (id ∷ ids) postings (h, hs) = elim (Option-cases (document_of id postings)) [
    | inl e ↦ rw (e, All) (documents_of-All ids postings hs)
    | inr (d, e) ↦ rw (e, All) (h, documents_of-All ids postings hs)
  ]

  stage4-AreChosen :
      (settings : PipelineSettings) (config : FunnelConfig) (reranker : Option Reranker)
      (postings : List PostingRow) (ids : List ℕ)
      → Scores reranker
      → All P ids
      → (hits : List RerankedHit) × (stage4_rerank settings config reranker postings ids
          ≡ some hits)
        × AreChosen P config.rerank_top_n hits
  unfolding stage4_rerank
  stage4-AreChosen settings config reranker postings [] s h = ([], refl, (tt, omega arith))
  stage4-AreChosen settings config reranker postings (id ∷ ids) s h =
      let of_documents = documents_of-All (id ∷ ids) postings h in
      elim (Bool-cases settings.use_rerank) [
        | inl e ↦ rw e (rerank-AreChosen P _ reranker config.rerank_top_n s of_documents)
        | inr e ↦ rw e (rerank-AreChosen P _ none config.rerank_top_n tt of_documents)
      ]

-- A search finds postings among those that it is given.
abbrev pub SearchesWithin : Search → Type 0
SearchesWithin search =
    (ids : List ℕ) (limit : ℕ) → All (λ (r : ℕ × ℕ). In r.0 ids) (search ids limit)

all_members : (ids : List ℕ) → All (λ i. In i ids) ids
all_members [] = tt
all_members (i ∷ is) = (here refl, All-mono is (λ j m. there m) (all_members is))

-- With searches that find postings among those they are given, and a reranker that scores each
-- text, the funnel returns finalists whatever its stages and settings: no more than the reranking
-- keeps, and each a posting that stage 2 found eligible.
pub finalists-AreChosen :
    (upper casefold : String → String) (stated_min_years : String → Option ℕ)
    (sponsorship_stance : String → Option Bool) (settings : PipelineSettings)
    (config : FunnelConfig) (lexical vector : Search) (reranker : Option Reranker)
    (candidate : CandidateSnapshot) (now : ℕ) (postings : List PostingRow)
    → SearchesWithin lexical
    → SearchesWithin vector
    → Scores reranker
    → let gated =
        (stage2_gates upper casefold stated_min_years sponsorship_stance settings config candidate
          now postings).1 in
      let ids = map (λ (e : ℕ × PostingSnapshot). e.0) gated.eligible in
      (hits : List RerankedHit) × (finalists upper casefold stated_min_years sponsorship_stance
          settings config lexical vector reranker candidate now postings
        ≡ some hits)
      × AreChosen (λ i. In i ids) config.rerank_top_n hits
unfolding finalists
finalists-AreChosen upper casefold stated_min_years sponsorship_stance settings config lexical
      vector reranker candidate now postings l v s =
    let gated =
      (stage2_gates upper casefold stated_min_years sponsorship_stance settings config candidate now
        postings).1 in
    let ids : List ℕ = map (λ (e : ℕ × PostingSnapshot). e.0) gated.eligible in
    elim (Bool-cases (is_empty gated.eligible)) [
      | inl e ↦ rw e ([], refl, (tt, omega arith))
      | inr e ↦ rw e (
          stage4-AreChosen (λ i. In i ids) settings config reranker postings _ s
            (stage3-All (λ i. In i ids) settings config lexical vector ids (all_members ids)
              (l ids config.retrieval_top_k) (v ids config.retrieval_top_k)))
    ]
