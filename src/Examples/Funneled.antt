-- ===== src/Examples/Funneled.antt =====
-- The funnel and the fusion at concrete inputs: three postings, of which one's link is gone.
use career_pilot_ai.Prelude.{
  ℕ, ◌≡◌, ◌+◌, refl, String, true, Bool, sort_by, Option, some, none, List, [], ◌∷◌, map, length,
  keep_if, In, here, arith,
}
use career_pilot_ai.Matching.{CandidateSnapshot, GateFailure, PostingSnapshot, UrlStatus}
use career_pilot_ai.Scoring.{round_div}
use career_pilot_ai.Matching.Fusion.{RetrievalHit, FusedHit, reciprocal_rank_fusion}
use career_pilot_ai.Matching.Fusion.Shares.{IsFusion, reciprocal_rank_fusion-IsFusion}
use career_pilot_ai.Matching.Rerank.{Reranker, RerankedHit}
use career_pilot_ai.Matching.Rerank.Chosen.{AreChosen, Scores}
use career_pilot_ai.Matching.Funnel.{
  FunnelConfig, PipelineSettings, PostingRow, Search, finalists, gate_result, scan, stage2_gates,
}
use career_pilot_ai.Matching.Funnel.Scanned.{
  entry, fails, gate_result-silent, passes, stage2_gates-split, withheld_of,
}
use career_pilot_ai.Matching.Funnel.Finalists.{SearchesWithin, finalists-AreChosen}

abbrev hit : ℕ → ℕ → RetrievalHit
hit id rank = record { posting_id = id; rank = rank; score = 0 }

abbrev two_rankings : List (String × List RetrievalHit)
two_rankings = ("bm25", hit 1 1 ∷ hit 2 2 ∷ []) ∷ ("vector", hit 2 1 ∷ []) ∷ []

both_first_test :
    map (λ (h : FusedHit). h.posting_id) (reciprocal_rank_fusion 60 none two_rankings) ≡ 2 ∷ 1 ∷ []
unfolding reciprocal_rank_fusion sort_by round_div
both_first_test = refl

reciprocal_rank_fusion-IsFusion_example :
    IsFusion 60 two_rankings (reciprocal_rank_fusion 60 none two_rankings)
reciprocal_rank_fusion-IsFusion_example = reciprocal_rank_fusion-IsFusion 60 two_rankings

abbrev same : String → String
same s = s

abbrev no_years : String → Option ℕ
no_years s = none

abbrev no_stance : String → Option Bool
no_stance s = none

abbrev candidate : CandidateSnapshot
candidate = record {
  years_experience = some 3;
  locations = "cairo" ∷ [];
  countries = "EG" ∷ [];
  open_to_remote = true;
  work_authorization = [];
  languages = [];
}

abbrev settings : PipelineSettings
settings = record {
  use_lexical = true;
  use_vector = true;
  use_rerank = true;
  use_gates = true;
  use_decomposed_scoring = true;
  use_personalisation = true;
}

abbrev config : FunnelConfig
config = record {
  gates = record {
    max_years_shortfall = 2;
    max_posting_age_days = 1;
    require_verified_url = true;
    verification_window_hours = 48;
  };
  retrieval_top_k = 10;
  rrf_k = 60;
  fusion_top_n = 10;
  rerank_top_n = 1;
}

abbrev posting : ℕ → UrlStatus → PostingRow
posting id status = record {
  id = id;
  is_open = true;
  remote_type = none;
  locations = [];
  posted_at = some (100000 + id);
  url_status = some status;
  last_verified_at = some 100000;
  description_text = "";
  document = "";
}

abbrev postings : List PostingRow
postings = posting 1 UrlStatus.live ∷ posting 2 UrlStatus.live ∷ posting 3 UrlStatus.gone ∷ []

stage2_gates-split_example :
    let rows = scan config 100100 postings in
    let (scanned, gated) =
      stage2_gates same same no_years no_stance settings config candidate 100100 postings in
    (gated.eligible
      ≡ map
          (entry same same no_years no_stance settings config candidate 100100)
          (keep_if (passes same same no_years no_stance settings config candidate 100100) rows))
    × (gated.withheld
        ≡ map
            (withheld_of same same no_years no_stance settings config candidate 100100)
            (keep_if (fails same same no_years no_stance settings config candidate 100100) rows))
    × (length gated.eligible + length gated.withheld ≡ scanned)
stage2_gates-split_example =
    stage2_gates-split same same no_years no_stance settings config candidate 100100 postings

gate_result-silent_example :
    let failures =
      (gate_result same same no_years no_stance settings config candidate 100100
        (posting 3 UrlStatus.gone)).failures in
    (¬ In GateFailure.work_authorization failures) × (¬ In GateFailure.language failures)
gate_result-silent_example =
    gate_result-silent same same no_years no_stance settings config candidate 100100
      (posting 3 UrlStatus.gone)

-- the first posting that is asked for
abbrev search_first : Search
search_first [] limit = []
search_first (i ∷ is) limit = (i, 7) ∷ []

search_first-Within : SearchesWithin search_first
search_first-Within [] limit = tt
search_first-Within (i ∷ is) limit = (here refl, tt)

abbrev equal_scores : Reranker
equal_scores [] = []
equal_scores (t ∷ ts) = 400000 ∷ equal_scores ts

equal_scores-Scores : Scores (some equal_scores)
equal_scores-Scores [] = refl
equal_scores-Scores (t ∷ ts) = omega (arith, equal_scores-Scores ts)

finalists-AreChosen_example :
    let gated =
      (stage2_gates same same no_years no_stance settings config candidate 100100 postings).1 in
    let ids = map (λ (e : ℕ × PostingSnapshot). e.0) gated.eligible in
    (hits : List RerankedHit) × (finalists same same no_years no_stance settings config search_first
        search_first
        (some equal_scores)
        candidate
        100100
        postings
      ≡ some hits)
    × AreChosen (λ i. In i ids) 1 hits
finalists-AreChosen_example =
    finalists-AreChosen same same no_years no_stance settings config search_first search_first
      (some equal_scores) candidate 100100 postings search_first-Within search_first-Within
      equal_scores-Scores
