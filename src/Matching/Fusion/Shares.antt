-- ===== src/Matching/Fusion/Shares.antt =====
-- The fused score of a posting as a sum over its own hits.
use career_pilot_ai.Prelude.{
  ℕ, ◌+◌, ◌≡◌, ◌≢◌, refl, sym, ap, ◌∙◌, inl, inr, String, true, false, none, List, [], ◌∷◌, ◌++◌,
  map, arith, ◌==◌, ==_iff, ==_refl, if◌then◌else◌, Bool-cases, keep_if, All, All-mono, Some, here,
  there, IsSorted, AllPairs, sort_by-IsSorted, sort_by-All, sort_by-AllPairs, sort_by-Some,
}
use career_pilot_ai.Matching.Fusion.{
  RetrievalHit, Share, plus, Gathered, FusedHit, add_hit, add_hits, gather, rounded, fused_hit,
  is_before, reciprocal_rank_fusion,
}

pub all_hits : List (String × List RetrievalHit) → List RetrievalHit
all_hits [] = []
all_hits ((name, hits) ∷ rankings) = hits ++ all_hits rankings

-- the shares of some hits, added to one
pub sum_shares : ℕ → List RetrievalHit → Share → Share
sum_shares k [] s = s
sum_shares k (h ∷ hs) s = sum_shares k hs (plus s (1, k + h.rank))

abbrev pub hits_of : ℕ → List RetrievalHit → List RetrievalHit
hits_of id = keep_if (λ h. h.posting_id == id)

share_of : ℕ → List Gathered → Share
share_of id [] = (0, 1)
share_of id (g ∷ gs) = let rest = share_of id gs in if g.posting_id == id then g.share else rest

module _ (k : ℕ) (id : ℕ) where
  add_hit-share :
      (name : String) (h : RetrievalHit) (gs : List Gathered)
      → share_of id (add_hit k name h gs)
        ≡ (if h.posting_id == id then plus (share_of id gs) (1, k + h.rank) else share_of id gs)
  unfolding add_hit share_of
  add_hit-share name h [] = refl
  add_hit-share name h (g ∷ gs) = ground (
    arith,
    add_hit-share name h gs,
    ==_iff g.posting_id h.posting_id,
    ==_iff g.posting_id id,
    ==_iff h.posting_id id,
  )

  sum_shares-append :
      (xs ys : List RetrievalHit) (s : Share)
      → sum_shares k (hits_of id (xs ++ ys)) s
        ≡ sum_shares k (hits_of id ys) (sum_shares k (hits_of id xs) s)
  unfolding sum_shares
  sum_shares-append [] ys s = refl
  sum_shares-append (x ∷ xs) ys s = elim (Bool-cases (x.posting_id == id)) [
    | inl e ↦ rw e (sum_shares-append xs ys (plus s (1, k + x.rank)))
    | inr e ↦ rw e (sum_shares-append xs ys s)
  ]

  add_hits-share :
      (name : String) (hs : List RetrievalHit) (gs : List Gathered)
      → share_of id (add_hits k name hs gs) ≡ sum_shares k (hits_of id hs) (share_of id gs)
  unfolding add_hits sum_shares
  add_hits-share name [] gs = refl
  add_hits-share name (h ∷ hs) gs = elim (Bool-cases (h.posting_id == id)) [
    | inl e ↦ rw e (
        add_hits-share name hs (add_hit k name h gs)
        ∙ ap (sum_shares k (hits_of id hs)) (rw e at (add_hit-share name h gs)))
    | inr e ↦ rw e (
        add_hits-share name hs (add_hit k name h gs)
        ∙ ap (sum_shares k (hits_of id hs)) (rw e at (add_hit-share name h gs)))
  ]

  gather-share :
      (rankings : List (String × List RetrievalHit)) (gs : List Gathered)
      → share_of id (gather k rankings gs)
        ≡ sum_shares k (hits_of id (all_hits rankings)) (share_of id gs)
  unfolding gather all_hits sum_shares
  gather-share [] gs = refl
  gather-share ((name, hits) ∷ rankings) gs =
      gather-share rankings (add_hits k name hits gs)
      ∙ ap (sum_shares k (hits_of id (all_hits rankings))) (add_hits-share name hits gs)
      ∙ sym (sum_shares-append hits (all_hits rankings) (share_of id gs))

-- no posting is gathered twice
abbrev Apart : Gathered → Gathered → Type 0
Apart a b = a.posting_id ≢ b.posting_id

add_hit-All :
    (P : ℕ → Type 0) (k : ℕ) (name : String) (h : RetrievalHit) (gs : List Gathered)
    → P h.posting_id
    → All (λ (g : Gathered). P g.posting_id) gs
    → All (λ (g : Gathered). P g.posting_id) (add_hit k name h gs)
unfolding add_hit
add_hit-All P k name h [] p q = (p, tt)
add_hit-All P k name h (g ∷ gs) p (q, qs) = elim (Bool-cases (g.posting_id == h.posting_id)) [
  | inl e ↦ rw e (q, qs)
  | inr e ↦ rw e (q, add_hit-All P k name h gs p qs)
]

add_hit-AllPairs :
    (k : ℕ) (name : String) (h : RetrievalHit) (gs : List Gathered)
    → AllPairs Apart gs
    → AllPairs Apart (add_hit k name h gs)
unfolding add_hit
add_hit-AllPairs k name h [] d = (tt, tt)
add_hit-AllPairs k name h (g ∷ gs) (a, d) = elim (Bool-cases (g.posting_id == h.posting_id)) [
  | inl e ↦ rw e (a, d)
  | inr e ↦ rw e (
    add_hit-All (λ i. g.posting_id ≢ i) k name h gs (λ q. ground (arith, q, e)) a,
    add_hit-AllPairs k name h gs d,
  )
]

-- what a hit keeps, all hits keep
module _ (k : ℕ) (P : List Gathered → Type 0)
    (keeps : (name : String) (h : RetrievalHit) (gs : List Gathered)
      → P gs
      → P (add_hit k name h gs)) where
  add_hits-keeps :
      (name : String) (hs : List RetrievalHit) (gs : List Gathered)
      → P gs
      → P (add_hits k name hs gs)
  unfolding add_hits
  add_hits-keeps name [] gs p = p
  add_hits-keeps name (h ∷ hs) gs p =
      add_hits-keeps name hs (add_hit k name h gs) (keeps name h gs p)

  gather-keeps :
      (rankings : List (String × List RetrievalHit)) (gs : List Gathered)
      → P gs
      → P (gather k rankings gs)
  unfolding gather
  gather-keeps [] gs p = p
  gather-keeps ((name, hits) ∷ rankings) gs p =
      gather-keeps rankings (add_hits k name hits gs) (add_hits-keeps name hits gs p)

abbrev IsFound : ℕ → List Gathered → Type 0
IsFound id gs = Some (λ (g : Gathered). g.posting_id ≡ id) gs

add_hit-IsFound_self :
    (k : ℕ) (name : String) (h : RetrievalHit) (gs : List Gathered)
    → IsFound h.posting_id (add_hit k name h gs)
unfolding add_hit
add_hit-IsFound_self k name h [] = here refl
add_hit-IsFound_self k name h (g ∷ gs) = elim (Bool-cases (g.posting_id == h.posting_id)) [
  | inl e ↦ rw e (here ((==_iff g.posting_id h.posting_id).0 e))
  | inr e ↦ rw e (there (add_hit-IsFound_self k name h gs))
]

add_hit-IsFound :
    (k id : ℕ) (name : String) (h : RetrievalHit) (gs : List Gathered)
    → IsFound id gs
    → IsFound id (add_hit k name h gs)
unfolding add_hit
add_hit-IsFound k id name h [] s = elim s [ ]
add_hit-IsFound k id name h (g ∷ gs) (here p) = elim (Bool-cases (g.posting_id == h.posting_id)) [
  | inl e ↦ rw e (here p)
  | inr e ↦ rw e (here p)
]
add_hit-IsFound k id name h (g ∷ gs) (there s) = elim (Bool-cases (g.posting_id == h.posting_id)) [
  | inl e ↦ rw e (there s)
  | inr e ↦ rw e (there (add_hit-IsFound k id name h gs s))
]

add_hits-IsFound :
    (k : ℕ) (name : String) (hs : List RetrievalHit) (gs : List Gathered)
    → All (λ (h : RetrievalHit). IsFound h.posting_id (add_hits k name hs gs)) hs
unfolding add_hits
add_hits-IsFound k name [] gs = tt
add_hits-IsFound k name (h ∷ hs) gs = (
  add_hits-keeps k (IsFound h.posting_id) (add_hit-IsFound k h.posting_id) name hs
      (add_hit k name h gs) (add_hit-IsFound_self k name h gs),
  add_hits-IsFound k name hs (add_hit k name h gs),
)

All-append :
    (P : RetrievalHit → Type 0) (xs ys : List RetrievalHit) → All P xs → All P ys → All P (xs ++ ys)
All-append P [] ys p q = q
All-append P (x ∷ xs) ys (p, ps) q = (p, All-append P xs ys ps q)

gather-IsFound :
    (k : ℕ) (rankings : List (String × List RetrievalHit)) (gs : List Gathered)
    → All (λ (h : RetrievalHit). IsFound h.posting_id (gather k rankings gs)) (all_hits rankings)
unfolding gather all_hits
gather-IsFound k [] gs = tt
gather-IsFound k ((name, hits) ∷ rankings) gs =
    All-append _ hits (all_hits rankings)
      (All-mono hits
        (λ h.
          gather-keeps k (IsFound h.posting_id) (add_hit-IsFound k h.posting_id) rankings
            (add_hits k name hits gs))
        (add_hits-IsFound k name hits gs))
      (gather-IsFound k rankings (add_hits k name hits gs))

-- each entry holds the share of its posting
own_share :
    (gs : List Gathered)
    → AllPairs Apart gs
    → All (λ (g : Gathered). g.share ≡ share_of g.posting_id gs) gs
unfolding share_of
own_share [] d = tt
own_share (g ∷ gs) (a, d) = (rw (==_refl g.posting_id) refl, behind gs a (own_share gs d))
  where
    behind :
        (hs : List Gathered)
        → All (Apart g) hs
        → All (λ (h : Gathered). h.share ≡ share_of h.posting_id gs) hs
        → All (λ (h : Gathered). h.share ≡ share_of h.posting_id (g ∷ gs)) hs
    behind [] a q = tt
    behind (h ∷ hs) (a, as') (q, qs) =
        let e : (g.posting_id == h.posting_id) ≡ false = ground (arith, a) in
        (rw e q, behind hs as' qs)

-- What a fusion promises of its hits.
pub record IsFusion (k : ℕ) (rankings : List (String × List RetrievalHit)) (hits : List FusedHit)
    : Type 0 where
  pub ordered : IsSorted is_before hits
  pub once : AllPairs (λ (a : FusedHit) (b : FusedHit). a.posting_id ≢ b.posting_id) hits
  pub scores :
      All
        (λ (h : FusedHit).
          h.fused_score ≡ rounded (sum_shares k (hits_of h.posting_id (all_hits rankings)) (0, 1)))
        hits
  pub complete :
      All
        (λ (r : RetrievalHit). Some (λ (h : FusedHit). h.posting_id ≡ r.posting_id) hits)
        (all_hits rankings)

map-All :
    (P : FusedHit → Type 0) (gs : List Gathered)
    → All (λ g. P (fused_hit g)) gs
    → All P (map fused_hit gs)
map-All P [] h = tt
map-All P (g ∷ gs) (h, hs) = (h, map-All P gs hs)

map-Some :
    (P : FusedHit → Type 0) (gs : List Gathered)
    → Some (λ g. P (fused_hit g)) gs
    → Some P (map fused_hit gs)
map-Some P [] s = elim s [ ]
map-Some P (g ∷ gs) (here p) = here p
map-Some P (g ∷ gs) (there s) = there (map-Some P gs s)

map-AllPairs :
    (gs : List Gathered)
    → AllPairs Apart gs
    → AllPairs (λ (a : FusedHit) (b : FusedHit). a.posting_id ≢ b.posting_id) (map fused_hit gs)
map-AllPairs [] d = tt
map-AllPairs (g ∷ gs) (a, d) = (map-All (λ b. g.posting_id ≢ b.posting_id) gs a, map-AllPairs gs d)

is_before-total : (a b : FusedHit) → is_before a b ≡ false → is_before b a ≡ true
is_before-total a b h = ground (arith, h)

is_before_trans :
    (a b c : FusedHit) → is_before a b ≡ true → is_before b c ≡ true → is_before a c ≡ true
is_before_trans a b c h k = ground (arith, h, k)

-- A fusion without a limit holds every posting that some retriever found, once, by descending score
-- and then by id. The score of a posting is the rounded sum of 1 / (k + rank) over its own hits, of
-- all retrievers, whatever was found of other postings.
pub reciprocal_rank_fusion-IsFusion :
    (k : ℕ) (rankings : List (String × List RetrievalHit))
    → IsFusion k rankings (reciprocal_rank_fusion k none rankings)
unfolding reciprocal_rank_fusion share_of
reciprocal_rank_fusion-IsFusion k rankings =
    let gs = gather k rankings [] in
    let d : AllPairs Apart gs =
      gather-keeps k (AllPairs Apart) (add_hit-AllPairs k) rankings [] tt in
    record {
      ordered = sort_by-IsSorted is_before is_before-total is_before_trans (map fused_hit gs);
      once =
          sort_by-AllPairs is_before (λ (a : FusedHit) (b : FusedHit). a.posting_id ≢ b.posting_id)
            (λ a b n e. n (sym e)) (map fused_hit gs) (map-AllPairs gs d);
      scores = sort_by-All is_before _ (map fused_hit gs) (
          map-All _ gs (
            All-mono gs (λ g e. ap rounded (e ∙ gather-share k g.posting_id rankings []))
              (own_share gs d)));
      complete =
          All-mono (all_hits rankings)
            (λ r s.
              sort_by-Some is_before (λ (h : FusedHit). h.posting_id ≡ r.posting_id)
                (map fused_hit gs) (map-Some _ gs s))
            (gather-IsFound k rankings []);
    }
