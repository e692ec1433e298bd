-- ===== src/Dedup/Groups.antt =====
-- backend/app/domain/dedup/clustering.py: the clusters that are read off the forest.
pub mod Members
pub mod Grouping
use career_pilot_ai.Prelude.{
  ℕ, zero, suc, ◌+◌, ◌≤◌, ◌≡◌, ◌≢◌, refl, sym, ap, ◌∙◌, subst, inl, inr, String, Bool, true, false,
  Option, none, some, List, [], ◌∷◌, ◌++◌, map, leb, ◌==◌, ==_iff, if◌then◌else◌, Bool-cases, All,
  All-mono, In, here, there, Some, arith,
}
use career_pilot_ai.Dedup.{DedupCandidate, canonical_pick}
use career_pilot_ai.Dedup.Forest.{UnionFind, find}
use career_pilot_ai.Dedup.Forest.Roots.{Root}
use career_pilot_ai.Dedup.Forest.Partition.{IsValid, find-Root, find-Keeps}
use career_pilot_ai.Dedup.Cluster.{Reason, reason_of, Clustering, Settings, clustered}

-- `out.setdefault(root, []).append(item)`
pub add_member : ℕ → ℕ → List (ℕ × List ℕ) → List (ℕ × List ℕ)
add_member root item [] = (root, item ∷ []) ∷ []
add_member root item ((k, ms) ∷ gs) =
    let rest = add_member root item gs in
    if k == root then (k, ms ++ item ∷ []) ∷ gs else (k, ms) ∷ rest

pub groups_from : List ℕ → UnionFind → List (ℕ × List ℕ) → List (ℕ × List ℕ)
unfolding add_member
groups_from [] uf gs = gs
groups_from (i ∷ is) uf gs =
    let (root, after) = find i uf in groups_from is after (add_member root i gs)

unfoldable pub groups : UnionFind → List (ℕ × List ℕ)
unfolding groups_from
groups uf = groups_from uf.items uf []

pub record Cluster : Type 0 where
  pub cluster_key : String
  pub member_ids : List ℕ
  pub canonical_id : ℕ
  pub reasons : List (ℕ × Reason)

pub insert_id : ℕ → List ℕ → List ℕ
insert_id x [] = x ∷ []
insert_id x (y ∷ ys) = let rest = insert_id x ys in if leb x y then x ∷ y ∷ ys else y ∷ rest

pub sort_ids : List ℕ → List ℕ
unfolding insert_id
sort_ids [] = []
sort_ids (x ∷ xs) = insert_id x (sort_ids xs)

-- the candidate of an id in front, where there is one
abbrev pub with_id : ℕ → List DedupCandidate → List DedupCandidate → List DedupCandidate
with_id i [] rest = rest
with_id i (c ∷ cs) rest = if c.id == i then c ∷ rest else with_id i cs rest

-- `[by_id[m] for m in member_ids]`
pub by_ids : List ℕ → List DedupCandidate → List DedupCandidate
by_ids [] cs = []
by_ids (i ∷ is) cs = with_id i cs (by_ids is cs)

pub cluster_of : Settings → List (ℕ × Reason) → List ℕ → List DedupCandidate → List Cluster
unfolding sort_ids
cluster_of settings reasons ids [] = []
cluster_of settings reasons ids (c ∷ cs) =
    let canonical = canonical_pick c cs in
    record {
      cluster_key = settings.blocking_key canonical;
      member_ids = sort_ids ids;
      canonical_id = canonical.id;
      reasons = map (λ (m : ℕ). (m, reason_of m reasons)) (sort_ids ids);
    }
    ∷ []

pub insert_cluster : Cluster → List Cluster → List Cluster
insert_cluster a [] = a ∷ []
insert_cluster a (b ∷ bs) =
    let rest = insert_cluster a bs in
    if leb a.canonical_id b.canonical_id then a ∷ b ∷ bs else b ∷ rest

abbrev pub insert_all : List Cluster → List Cluster → List Cluster
unfolding insert_cluster
insert_all [] rest = rest
insert_all (c ∷ cs) rest = insert_cluster c (insert_all cs rest)

-- the clusters of the groups, by the id of the canonical posting
pub clusters_of :
    Settings → List (ℕ × Reason) → List DedupCandidate → List (ℕ × List ℕ) → List Cluster
unfolding cluster_of by_ids insert_all
clusters_of settings reasons candidates [] = []
clusters_of settings reasons candidates ((k, ids) ∷ gs) =
    insert_all (cluster_of settings reasons ids (by_ids ids candidates))
      (clusters_of settings reasons candidates gs)

unfoldable pub cluster_postings : Settings → List DedupCandidate → List Cluster
unfolding clustered groups clusters_of
cluster_postings settings candidates =
    let s = clustered settings candidates in clusters_of settings s.reasons candidates (groups s.uf)
