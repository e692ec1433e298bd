-- ===== src/Matching/Fusion.antt =====
-- backend/app/domain/matching/retrieval.py: the ranked hits of one retriever, and the fusion of the
-- hits of several. Posting ids are numbers in the order of their texts, scores of one retriever are
-- numbers of one unit, and a share is exact until it is rounded.
pub mod Shares
pub mod Chosen
use career_pilot_ai.Prelude.{
  ℕ, suc, ◌+◌, ◌*◌, String, Bool, ◌&&◌, ◌||◌, Option, none, some, List, [], ◌∷◌, map, is_empty,
  if◌then◌else◌, str_eq, ltb, leb, ◌==◌, take, sort_by,
}
use career_pilot_ai.Scoring.{round_div}

pub record RetrievalHit : Type 0 where
  pub posting_id : ℕ
  pub rank : ℕ
  pub score : ℕ

-- `enumerate(zip(posting_ids, scores))`, from a rank on
pub number_hits : ℕ → List ℕ → List ℕ → List RetrievalHit
number_hits rank [] scores = []
number_hits rank (id ∷ ids) [] = []
number_hits rank (id ∷ ids) (s ∷ scores) =
    record { posting_id = id; rank = rank; score = s } ∷ number_hits (suc rank) ids scores

-- absent scores are the empty list, which counts as absent
unfoldable pub rank_hits : List ℕ → List ℕ → List RetrievalHit
unfolding number_hits
rank_hits ids scores =
    number_hits 1 ids (if is_empty scores then map (λ (id : ℕ). 0) ids else scores)

-- a sum of shares: numerator and denominator
abbrev pub Share : Type 0
Share = ℕ × ℕ

abbrev pub plus : Share → Share → Share
plus a b = (a.0 * b.1 + b.0 * a.1, a.1 * b.1)

-- What one posting has gathered: its share, and where each retriever found it.
pub record Gathered : Type 0 where
  pub posting_id : ℕ
  pub share : Share
  pub ranks : List (String × ℕ)

pub record FusedHit : Type 0 where
  pub posting_id : ℕ
  pub fused_score : ℕ
  pub ranks : List (String × ℕ)

pub set_rank : String → ℕ → List (String × ℕ) → List (String × ℕ)
set_rank name rank [] = (name, rank) ∷ []
set_rank name rank ((n, r) ∷ rs) =
    let rest = set_rank name rank rs in if str_eq n name then (n, rank) ∷ rs else (n, r) ∷ rest

-- `contributions[id] = contributions.get(id, 0.0) + 1.0 / (k + rank)`, and the rank
pub add_hit : ℕ → String → RetrievalHit → List Gathered → List Gathered
unfolding set_rank
add_hit k name hit [] =
    record {
      posting_id = hit.posting_id;
      share = plus (0, 1) (1, k + hit.rank);
      ranks = (name, hit.rank) ∷ [];
    }
    ∷ []
add_hit k name hit (g ∷ gs) =
    let rest = add_hit k name hit gs in
    if g.posting_id == hit.posting_id
    then record g { share = plus g.share (1, k + hit.rank); ranks = set_rank name hit.rank g.ranks }
      ∷ gs
    else g ∷ rest

pub add_hits : ℕ → String → List RetrievalHit → List Gathered → List Gathered
unfolding add_hit
add_hits k name [] gs = gs
add_hits k name (h ∷ hs) gs = add_hits k name hs (add_hit k name h gs)

pub gather : ℕ → List (String × List RetrievalHit) → List Gathered → List Gathered
unfolding add_hits
gather k [] gs = gs
gather k ((name, hits) ∷ rankings) gs = gather k rankings (add_hits k name hits gs)

-- `round(score, 6)`, in millionths
abbrev pub rounded : Share → ℕ
rounded s = round_div (1000000 * s.0) s.1

abbrev pub fused_hit : Gathered → FusedHit
fused_hit g = record { posting_id = g.posting_id; fused_score = rounded g.share; ranks = g.ranks }

-- `(-hit.fused_score, hit.posting_id)`
abbrev pub is_before : FusedHit → FusedHit → Bool
is_before a b =
    ltb b.fused_score a.fused_score
    || (a.fused_score == b.fused_score && leb a.posting_id b.posting_id)

-- `fused[:limit] if limit else fused`
abbrev pub limited : Option ℕ → List FusedHit → List FusedHit
limited none hits = hits
limited (some n) hits = if n == 0 then hits else take n hits

unfoldable pub reciprocal_rank_fusion :
    ℕ → Option ℕ → List (String × List RetrievalHit) → List FusedHit
unfolding gather
reciprocal_rank_fusion k limit rankings =
    limited limit (sort_by is_before (map fused_hit (gather k rankings [])))
