-- ===== src/Dedup/Cluster.antt =====
-- backend/app/domain/dedup/clustering.py, `cluster_postings`. The blocking key of a posting, the bit
-- distance of two hashes and the similarity of two postings, in ten-thousandths, are arguments.
pub mod Evidence
pub mod Merging
pub mod Grouped
pub mod Stages
pub mod Sources
use career_pilot_ai.Prelude.{
  ℕ, ◌≤◌, String, Bool, true, false, ◌&&◌, ◌||◌, not, Option, none, some, List, [], ◌∷◌, ◌++◌, map,
  ltb, leb, ◌==◌, if◌then◌else◌, str_eq, length, keep_if, is_some,
}
use career_pilot_ai.Dedup.{DedupCandidate, locations_compatible, is_short_pair, canonical_pick}
use career_pilot_ai.Dedup.Forest.{UnionFind, set, new, find, union}

pub data Reason : Type 0 where
  exact_key canonical_url title_exact simhash semantic singleton : Reason

pub record Clustering : Type 0 where
  pub uf : UnionFind
  pub reasons : List (ℕ × Reason)
  pub cluster_location : ℕ → Option String

abbrev pub has_reason : ℕ → List (ℕ × Reason) → Bool
has_reason id [] = false
has_reason id ((j, r) ∷ rs) = j == id || has_reason id rs

-- `reasons.setdefault(id, reason)`
abbrev pub set_default : ℕ → Reason → List (ℕ × Reason) → List (ℕ × Reason)
set_default id reason rs = if has_reason id rs then rs else rs ++ (id, reason) ∷ []

abbrev pub reason_of : ℕ → List (ℕ × Reason) → Reason
reason_of id [] = singleton
reason_of id ((j, r) ∷ rs) = if j == id then r else reason_of id rs

-- `a or b` of texts that may be absent, an empty one counting as absent
abbrev pub or_text : Option String → Option String → Option String
or_text none b = b
or_text (some a) b = if str_eq a "" then b else some a

abbrev pub place : ℕ → Option String → (ℕ → Option String) → ℕ → Option String
place k v f j = if j == k then v else f j

unfoldable pub merge : ℕ → ℕ → Reason → Clustering → Clustering
unfolding union find
merge a b reason s =
    let (changed, joined) = union a b s.uf in
    let (root, after) = find a joined in
    if changed
    then record {
      uf = after;
      reasons = set_default a reason (set_default b reason s.reasons);
      cluster_location =
          place root (or_text (s.cluster_location a) (s.cluster_location b)) s.cluster_location;
    }
    else record s { uf = joined }

-- `by_key.setdefault(key(c), []).append(c)` over the candidates, for the groups in their order
pub add_to {ℓ} : {A : Type ℓ} → (A → A → Bool) → A → List (List A) → List (List A)
add_to same x [] = (x ∷ []) ∷ []
add_to same x ([] ∷ gs) = [] ∷ add_to same x gs
add_to same x ((y ∷ ys) ∷ gs) =
    let rest = add_to same x gs in if same y x then (y ∷ ys ++ x ∷ []) ∷ gs else (y ∷ ys) ∷ rest

pub group_from {ℓ} : {A : Type ℓ} → (A → A → Bool) → List A → List (List A) → List (List A)
unfolding add_to
group_from same [] gs = gs
group_from same (x ∷ xs) gs = group_from same xs (add_to same x gs)

-- `for other in ids[1:]: merge(ids[0], other, reason)`
pub merge_all : Reason → ℕ → List DedupCandidate → Clustering → Clustering
unfolding merge
merge_all reason first [] s = s
merge_all reason first (c ∷ cs) s = merge_all reason first cs (merge first c.id reason s)

pub merge_group : Reason → List DedupCandidate → Clustering → Clustering
unfolding merge_all
merge_group reason [] s = s
merge_group reason (c ∷ cs) s = merge_all reason c.id cs s

pub merge_groups : Reason → List (List DedupCandidate) → Clustering → Clustering
unfolding merge_group
merge_groups reason [] s = s
merge_groups reason (g ∷ gs) s = merge_groups reason gs (merge_group reason g s)

abbrev pub same_source_key : DedupCandidate → DedupCandidate → Bool
same_source_key a b = str_eq a.source_name b.source_name && str_eq a.external_id b.external_id

abbrev pub url_of : Option String → String
url_of none = ""
url_of (some url) = url

abbrev pub same_url : DedupCandidate → DedupCandidate → Bool
same_url a b = str_eq (url_of a.canonical_url) (url_of b.canonical_url)

abbrev pub has_url : DedupCandidate → Bool
has_url c = not (str_eq (url_of c.canonical_url) "")

unfoldable pub exact_stage : List DedupCandidate → Clustering → Clustering
unfolding group_from merge_groups
exact_stage candidates = merge_groups exact_key (group_from same_source_key candidates [])

-- a link that too many postings share is a board and merges nothing
unfoldable pub url_stage : ℕ → List DedupCandidate → Clustering → Clustering
unfolding group_from merge_groups
url_stage max_postings_per_url candidates = merge_groups canonical_url (
    keep_if (λ g. leb (length g) max_postings_per_url)
      (group_from same_url (keep_if has_url candidates) []))

pub record Settings : Type 0 where
  pub simhash_hamming_max : ℕ
  pub semantic_threshold : ℕ
  pub max_postings_per_url : ℕ
  pub blocking_key : DedupCandidate → String
  pub hamming : ℕ → ℕ → ℕ
  pub similarity : ℕ → ℕ → Option ℕ

abbrev pub is_near : Settings → Option ℕ → Option ℕ → Bool
is_near settings (some a) (some b) = leb (settings.hamming a b) settings.simhash_hamming_max
is_near settings _ _ = false

abbrev pub is_above : ℕ → Option ℕ → Bool
is_above threshold none = false
is_above threshold (some score) = ltb threshold score

-- stages 4 and 5 on a pair that may merge by text
unfoldable pub by_text : Settings → DedupCandidate → DedupCandidate → Clustering → Clustering
unfolding merge is_short_pair
by_text settings a b s =
    if is_short_pair a b
    then (if str_eq a.title_normalized b.title_normalized then merge a.id b.id title_exact s else s)
    else if is_near settings a.simhash b.simhash
    then merge a.id b.id simhash s
    else if is_above settings.semantic_threshold (settings.similarity a.id b.id)
    then merge a.id b.id semantic s
    else s

-- One pair of a block; every `find` compresses the forest.
unfoldable pub compare_pair : Settings → DedupCandidate → DedupCandidate → Clustering → Clustering
unfolding find by_text locations_compatible
compare_pair settings a b s =
    let (ra, first) = find a.id s.uf in
    let (rb, second) = find b.id first in
    let s' = record s { uf = second } in
    if ra == rb
    then s'
    else if str_eq a.source_name b.source_name
    then s'
    else if not (locations_compatible (s.cluster_location ra) (s.cluster_location rb))
    then s'
    else by_text settings a b s'

pub compare_with : Settings → DedupCandidate → List DedupCandidate → Clustering → Clustering
unfolding compare_pair
compare_with settings a [] s = s
compare_with settings a (b ∷ bs) s = compare_with settings a bs (compare_pair settings a b s)

pub compare_all : Settings → List DedupCandidate → Clustering → Clustering
unfolding compare_with
compare_all settings [] s = s
compare_all settings (a ∷ as') s = compare_all settings as' (compare_with settings a as' s)

pub compare_blocks : Settings → List (List DedupCandidate) → Clustering → Clustering
unfolding compare_all
compare_blocks settings [] s = s
compare_blocks settings (g ∷ gs) s = compare_blocks settings gs (compare_all settings g s)

abbrev pub location_of : List DedupCandidate → ℕ → Option String
location_of [] id = none
location_of (c ∷ cs) id = if c.id == id then c.location_key else location_of cs id

-- The state before the first stage; the ids of the candidates are distinct.
unfoldable pub initial : List DedupCandidate → Clustering
unfolding new
initial candidates = record {
  uf = new (map (λ (c : DedupCandidate). c.id) candidates);
  reasons = [];
  cluster_location = location_of candidates;
}

-- stages 1 to 5
unfoldable pub clustered : Settings → List DedupCandidate → Clustering
unfolding initial exact_stage url_stage group_from compare_blocks
clustered settings candidates =
    let blocks =
      group_from (λ a b. str_eq (settings.blocking_key a) (settings.blocking_key b)) candidates
        [] in
    compare_blocks settings blocks (
      url_stage settings.max_postings_per_url candidates
        (exact_stage candidates (initial candidates)))
