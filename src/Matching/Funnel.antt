-- ===== src/Matching/Funnel.antt =====
-- The funnel of backend/app/services/matching.py: the scan with the gates, the retrieval and the
-- reranking. The two searches of the database, the embedder and the reranker that give the scores,
-- and the readers of a description are arguments; instants are in seconds.
pub mod Scanned
pub mod Finalists
use career_pilot_ai.Prelude.{
  ℕ, suc, ◌+◌, ◌*◌, String, Bool, true, false, ◌&&◌, ◌||◌, not, Option, none, some, List, [], ◌∷◌,
  ◌++◌, map, ltb, leb, ◌==◌, if◌then◌else◌, is_empty, keep_if, length, take, sort_by,
}
use career_pilot_ai.Matching.{
  CandidateSnapshot, GateConfig, GateFailure, GateResult, PostingSnapshot, RemoteType, UrlStatus,
  evaluate_gates, is_stated,
}
use career_pilot_ai.Matching.Fusion.{FusedHit, RetrievalHit, reciprocal_rank_fusion}
use career_pilot_ai.Matching.Rerank.{Document, RerankedHit, Reranker, rerank}
use career_pilot_ai.Matching.Shortlist.{Withheld}

abbrev pub gate_scan_limit : ℕ
gate_scan_limit = 5000

-- A location's country and city.
pub record Place : Type 0 where
  pub country : Option String
  pub city : Option String

-- The columns of `job_postings` that the funnel reads. `document` is the title with the beginning
-- of the description, as the reranker gets it.
pub record PostingRow : Type 0 where
  pub id : ℕ
  pub is_open : Bool
  pub remote_type : Option RemoteType
  pub locations : List Place
  pub posted_at : Option ℕ
  pub url_status : Option UrlStatus
  pub last_verified_at : Option ℕ
  pub description_text : String
  pub document : String

pub record PipelineSettings : Type 0 where
  pub use_lexical : Bool
  pub use_vector : Bool
  pub use_rerank : Bool
  pub use_gates : Bool
  pub use_decomposed_scoring : Bool
  pub use_personalisation : Bool

-- `PipelineSettings.label`
unfoldable pub label : PipelineSettings → String
label s =
    if not s.use_decomposed_scoring && not s.use_rerank && not s.use_lexical
    then "document cosine only"
    else if not s.use_decomposed_scoring && not s.use_rerank
    then "+ BM25 fusion (RRF)"
    else if not s.use_decomposed_scoring
    then "+ cross-encoder rerank"
    else "+ decomposed scorer with gates"

pub record FunnelConfig : Type 0 where
  pub gates : GateConfig
  pub retrieval_top_k : ℕ
  pub rrf_k : ℕ
  pub fusion_top_n : ℕ
  pub rerank_top_n : ℕ

-- the texts that are present and not empty
abbrev pub stated : List (Option String) → List String
stated [] = []
stated (none ∷ os) = stated os
stated (some s ∷ os) = let rest = stated os in if is_stated s then s ∷ rest else rest

abbrev pub status_or_unknown : Option UrlStatus → UrlStatus
status_or_unknown none = UrlStatus.unknown
status_or_unknown (some s) = s

unfoldable pub posting_snapshot :
    (stated_min_years : String → Option ℕ) (sponsorship_stance : String → Option Bool)
    → PostingRow
    → PostingSnapshot
posting_snapshot stated_min_years sponsorship_stance row = record {
  remote_type = row.remote_type;
  countries = stated (map (λ (p : Place). p.country) row.locations);
  cities = stated (map (λ (p : Place). p.city) row.locations);
  posted_at = row.posted_at;
  url_status = status_or_unknown row.url_status;
  last_verified_at = row.last_verified_at;
  min_years = stated_min_years row.description_text;
  requires_authorization_in = [];
  offers_sponsorship = sponsorship_stance row.description_text;
  required_languages = [];
}

abbrev pub is_recent : Option ℕ → ℕ → ℕ → Bool
is_recent none max_age now = true
is_recent (some at) max_age now = ltb now (at + max_age)

-- `ORDER BY p.posted_at DESC NULLS LAST`
abbrev pub is_newer : Option ℕ → Option ℕ → Bool
is_newer (some a) (some b) = leb b a
is_newer (some a) none = true
is_newer none (some b) = false
is_newer none none = true

-- the rows that stage 2 reads
unfoldable pub scan : FunnelConfig → ℕ → List PostingRow → List PostingRow
scan config now postings = take gate_scan_limit (
    sort_by (λ (a b : PostingRow). is_newer a.posted_at b.posted_at)
      (keep_if
        (λ (p : PostingRow).
          p.is_open && is_recent p.posted_at (config.gates.max_posting_age_days * 86400) now)
        postings))

-- the place of a failure in the order of the gates
abbrev pub failure_place : GateFailure → ℕ
failure_place GateFailure.work_authorization = 0
failure_place GateFailure.location = 1
failure_place GateFailure.seniority_floor = 2
failure_place GateFailure.language = 3
failure_place GateFailure.freshness = 4
failure_place GateFailure.unverified_url = 5

-- `gate_failures[failure] = gate_failures.get(failure, 0) + 1`
unfoldable pub count_failure : GateFailure → List (GateFailure × ℕ) → List (GateFailure × ℕ)
count_failure f [] = (f, 1) ∷ []
count_failure f ((g, n) ∷ rest) =
    let later = count_failure f rest in
    if failure_place g == failure_place f then (g, suc n) ∷ rest else (g, n) ∷ later

unfoldable pub count_failures : List GateFailure → List (GateFailure × ℕ) → List (GateFailure × ℕ)
unfolding count_failure
count_failures [] counts = counts
count_failures (f ∷ fs) counts = count_failures fs (count_failure f counts)

-- What stage 2 keeps: the eligible postings by their ids, the withheld ones, and the counts.
pub record Gated : Type 0 where
  pub eligible : List (ℕ × PostingSnapshot)
  pub withheld : List Withheld
  pub gate_failures : List (GateFailure × ℕ)

-- the hits of one search, ranked from a rank on
unfoldable pub hits_from : ℕ → List (ℕ × ℕ) → List RetrievalHit
hits_from rank [] = []
hits_from rank ((id, score) ∷ rows) =
    record { posting_id = id; rank = rank; score = score } ∷ hits_from (suc rank) rows

-- A search of the database among some postings: at most so many ids with their scores.
abbrev pub Search : Type 0
Search = List ℕ → ℕ → List (ℕ × ℕ)

unfoldable pub rankings :
    PipelineSettings → FunnelConfig → Search → Search → List ℕ → List (String × List RetrievalHit)
unfolding hits_from
rankings settings config lexical vector ids =
    (if settings.use_lexical
      then ("bm25", hits_from 1 (lexical ids config.retrieval_top_k)) ∷ []
      else [])
    ++ (if settings.use_vector
        then ("vector", hits_from 1 (vector ids config.retrieval_top_k)) ∷ []
        else [])

abbrev pub ids_or : List FusedHit → List ℕ → List ℕ
ids_or [] fallback = fallback
ids_or (h ∷ hs) fallback = map (λ (f : FusedHit). f.posting_id) (h ∷ hs)

unfoldable pub stage3_retrieval :
    PipelineSettings → FunnelConfig → Search → Search → List ℕ → List ℕ
unfolding rankings
stage3_retrieval settings config lexical vector eligible_ids =
    ids_or
      (reciprocal_rank_fusion config.rrf_k (some config.fusion_top_n)
        (rankings settings config lexical vector eligible_ids))
      (take config.fusion_top_n eligible_ids)

-- `by_id.get(posting_id)`
unfoldable pub document_of : ℕ → List PostingRow → Option String
document_of id [] = none
document_of id (p ∷ ps) =
    let rest = document_of id ps in if p.id == id then some p.document else rest

unfoldable pub documents_of : List ℕ → List PostingRow → List Document
unfolding document_of
documents_of [] postings = []
documents_of (id ∷ ids) postings =
    let rest = documents_of ids postings in
    elim (document_of id postings) [ none ↦ rest | some d ↦ (id, d) ∷ rest ]

unfoldable pub stage4_rerank :
    PipelineSettings
    → FunnelConfig
    → Option Reranker
    → List PostingRow
    → List ℕ
    → Option (List RerankedHit)
unfolding documents_of
stage4_rerank settings config reranker postings [] = some []
stage4_rerank settings config reranker postings (id ∷ ids) =
    rerank (documents_of (id ∷ ids) postings) (if settings.use_rerank then reranker else none)
      config.rerank_top_n

module _ (upper casefold : String → String) (stated_min_years : String → Option ℕ)
    (sponsorship_stance : String → Option Bool) where
  unfoldable pub gate_result :
      PipelineSettings → FunnelConfig → CandidateSnapshot → ℕ → PostingRow → GateResult
  gate_result settings config candidate now row =
      if settings.use_gates
      then evaluate_gates upper casefold candidate
          (posting_snapshot stated_min_years sponsorship_stance row) config.gates now
      else record { passed = true; failures = [] }

  unfoldable pub gate_all :
      PipelineSettings → FunnelConfig → CandidateSnapshot → ℕ → List PostingRow → Gated → Gated
  unfolding count_failures
  gate_all settings config candidate now [] gated = gated
  gate_all settings config candidate now (row ∷ rows) gated =
      let result = gate_result settings config candidate now row in
      let snapshot = posting_snapshot stated_min_years sponsorship_stance row in
      gate_all settings config candidate now rows (
        if result.passed
        then record gated { eligible = gated.eligible ++ (row.id, snapshot) ∷ [] }
        else record gated {
          withheld = gated.withheld ++ record { posting_id = row.id; result = result } ∷ [];
          gate_failures = count_failures result.failures gated.gate_failures;
        })

  -- the count of scanned postings, and what is kept
  unfoldable pub stage2_gates :
      PipelineSettings → FunnelConfig → CandidateSnapshot → ℕ → List PostingRow → ℕ × Gated
  unfolding scan gate_all
  stage2_gates settings config candidate now postings =
      let rows = scan config now postings in
      (
        length rows,
        gate_all settings config candidate now rows
            (record { eligible = []; withheld = []; gate_failures = [] }),
      )

  -- the ids that the stages choose, with their scores: none where the reranker's scores do not match
  unfoldable pub finalists :
      PipelineSettings
      → FunnelConfig
      → Search
      → Search
      → Option Reranker
      → CandidateSnapshot
      → ℕ
      → List PostingRow
      → Option (List RerankedHit)
  unfolding stage2_gates stage3_retrieval stage4_rerank
  finalists settings config lexical vector reranker candidate now postings =
      let gated = (stage2_gates settings config candidate now postings).1 in
      if is_empty gated.eligible
      then some []
      else stage4_rerank settings config reranker postings (
          stage3_retrieval settings config lexical vector
            (map (λ (e : ℕ × PostingSnapshot). e.0) gated.eligible))
