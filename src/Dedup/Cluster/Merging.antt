-- ===== src/Dedup/Cluster/Merging.antt =====
-- What one merge and one comparison of `cluster_postings` do to the sets of the forest.
use mathlib.Core.Bool.{false≢true}
use career_pilot_ai.Prelude.{
  arith, eq_iff, ◌||◌, ℕ, ◌≡◌, ◌↔◌, refl, sym, ◌∙◌, subst, ◌⊎◌, inl, inr, Bool, true, false, ◌==◌,
  if◌then◌else◌, Bool-cases, In, str_eq,
}
use career_pilot_ai.Dedup.{DedupCandidate, locations_compatible, is_short_pair}
use career_pilot_ai.Dedup.Forest.{UnionFind, find, union}
use career_pilot_ai.Dedup.Forest.Roots.{Root, Root-unique}
use career_pilot_ai.Dedup.Forest.Partition.{IsValid, find-Root, find-Keeps, Same, Joined}
use career_pilot_ai.Dedup.Forest.Union.{IsUnion, union-IsUnion}
use career_pilot_ai.Dedup.Cluster.{
  Clustering, Reason, Settings, merge, by_text, compare_pair, is_near, is_above, title_exact,
  simhash, semantic,
}
use career_pilot_ai.Dedup.Cluster.Evidence.{
  IsEvident, is_evident, is_evident-IsEvident, IsEvident-is_evident,
}

-- A step on a valid forest: the forest stays valid, on the same items, and its sets are given.
pub record IsStep (sets : ℕ → ℕ → Type 0) (s t : Clustering) : Type 0 where
  pub valid : IsValid t.uf
  pub items : t.uf.items ≡ s.uf.items
  pub same : (i j : ℕ) → Same t.uf i j ↔ sets i j

find-Same :
    (k : ℕ) (uf : UnionFind)
    → IsValid uf
    → In k uf.items
    → (i j : ℕ) → Same (find k uf).1 i j ↔ Same uf i j
find-Same k uf v m i j =
    let (w, keeps) = find-Keeps k uf v m in
    let ri = find-Root i uf v in
    let rj = find-Root j uf v in
    (
      (λ (r, a, b). (
        (find i uf).0,
        ri,
        subst (Root uf.parent j) (Root-unique (keeps j _ rj) b ∙ Root-unique a (keeps i _ ri)) rj,
      )),
      (λ (r, a, b). (r, keeps i r a, keeps j r b)),
    )

find-items : (i : ℕ) (uf : UnionFind) → (find i uf).1.items ≡ uf.items
unfolding find
find-items i uf = refl

module _ (a b : ℕ) (reason : Reason) (s : Clustering) (v : IsValid s.uf) (ma : In a s.uf.items)
    (mb : In b s.uf.items) where
  -- A merge of two items joins their sets.
  pub merge-IsStep : IsStep (Joined s.uf a b) s (merge a b reason s)
  unfolding merge
  merge-IsStep =
      let u : IsUnion a b s.uf (union a b s.uf) = union-IsUnion a b s.uf v ma mb in
      let ma' : In a (union a b s.uf).1.items = subst (In a) (sym u.items) ma in
      elim (Bool-cases (union a b s.uf).0) [
        | inl e ↦ rw e record {
          valid = (find-Keeps a (union a b s.uf).1 u.valid ma').0;
          items = find-items a (union a b s.uf).1 ∙ u.items;
          same = λ i j.
              let (f, g) = find-Same a (union a b s.uf).1 u.valid ma' i j in
              let (h, k) = u.sets i j in ((λ x. h (f x)), (λ x. g (k x)));
        }
        | inr e ↦ rw e record { valid = u.valid; items = u.items; same = u.sets }
      ]

by_text-cases :
    (settings : Settings) (a b : DedupCandidate) (s : Clustering)
    → ((by_text settings a b s ≡ s) × (is_evident settings a b ≡ false))
      ⊎ (r : Reason) × (by_text settings a b s ≡ merge a.id b.id r s)
        × (is_evident settings a b ≡ true)
unfolding by_text
by_text-cases settings a b s =
    cases (is_short_pair a b) (str_eq a.title_normalized b.title_normalized)
      (is_near settings a.simhash b.simhash)
      (is_above settings.semantic_threshold (settings.similarity a.id b.id))
  where
    cases :
        (short title near above : Bool)
        → (((if short
                then (if title then merge a.id b.id title_exact s else s)
                else if near
                then merge a.id b.id simhash s
                else if above
                then merge a.id b.id semantic s
                else s)
              ≡ s)
            × ((if short then title else near || above) ≡ false))
          ⊎ (r : Reason) × ((if short
                then (if title then merge a.id b.id title_exact s else s)
                else if near
                then merge a.id b.id simhash s
                else if above
                then merge a.id b.id semantic s
                else s)
              ≡ merge a.id b.id r s)
            × ((if short then title else near || above) ≡ true)
    cases true true near above = inr (title_exact, refl, refl)
    cases true false near above = inl (refl, refl)
    cases false title true above = inr (simhash, refl, refl)
    cases false title false true = inr (semantic, refl, refl)
    cases false title false false = inl (refl, refl)

Joined-cong :
    (uf vf : UnionFind)
    → ((i j : ℕ) → Same uf i j ↔ Same vf i j)
    → (a b i j : ℕ) → Joined uf a b i j ↔ Joined vf a b i j
Joined-cong uf vf h a b i j = (to uf vf (λ i j. (h i j).0), to vf uf (λ i j. (h i j).1))
  where
    to :
        (uf vf : UnionFind)
        → ((i j : ℕ) → Same uf i j → Same vf i j)
        → Joined uf a b i j
        → Joined vf a b i j
    to uf vf f (inl m) = inl (f i j m)
    to uf vf f (inr (inl (m, n))) = inr (inl (f i a m, f b j n))
    to uf vf f (inr (inr (m, n))) = inr (inr (f i b m, f a j n))

-- What one comparison may do: nothing to the sets, or join the two sets, then of postings of two
-- sources, of clusters with compatible locations, and on textual evidence.
pub record IsJustified (settings : Settings) (a b : DedupCandidate) (s : Clustering) : Type 0 where
  pub sources : str_eq a.source_name b.source_name ≡ false
  pub root_a : ℕ
  pub root_b : ℕ
  pub at_a : Root s.uf.parent a.id root_a
  pub at_b : Root s.uf.parent b.id root_b
  pub locations :
      locations_compatible (s.cluster_location root_a) (s.cluster_location root_b) ≡ true
  pub evidence : IsEvident settings a b

-- Why a comparison joins nothing.
pub data IsApart (settings : Settings) (a b : DedupCandidate) (s : Clustering) : Type 0 where
  joined_before : Same s.uf a.id b.id → IsApart settings a b s
  one_source : a.source_name ≡ b.source_name → IsApart settings a b s
  other_place :
      {root_a root_b : ℕ}
      → Root s.uf.parent a.id root_a
      → Root s.uf.parent b.id root_b
      → locations_compatible (s.cluster_location root_a) (s.cluster_location root_b) ≡ false
      → IsApart settings a b s
  not_evident : ¬ IsEvident settings a b → IsApart settings a b s

module _ (settings : Settings) (a b : DedupCandidate) (s : Clustering) (v : IsValid s.uf)
    (ma : In a.id s.uf.items) (mb : In b.id s.uf.items) where
  abbrev first : UnionFind
  first = (find a.id s.uf).1

  abbrev found : Clustering
  found = record s { uf = (find b.id first).1 }

  first-IsValid : IsValid first
  first-IsValid = (find-Keeps a.id s.uf v ma).0

  mb-first : In b.id first.items
  mb-first = subst (In b.id) (sym (find-items a.id s.uf)) mb

  found-IsStep : IsStep (Same s.uf) s found
  found-IsStep = record {
    valid = (find-Keeps b.id first first-IsValid mb-first).0;
    items = find-items b.id first ∙ find-items a.id s.uf;
    same = λ i j.
        let (f, g) = find-Same b.id first first-IsValid mb-first i j in
        let (h, k) = find-Same a.id s.uf v ma i j in ((λ x. h (f x)), (λ x. g (k x)));
  }

  at-Root_b : Root s.uf.parent b.id (find b.id first).0
  at-Root_b =
      let own = find-Root b.id s.uf v in
      let kept = (find-Keeps a.id s.uf v ma).1 b.id _ own in
      subst (Root s.uf.parent b.id) (Root-unique kept (find-Root b.id first first-IsValid)) own

  Joined-IsStep : (r : Reason) → IsStep (Joined s.uf a.id b.id) s (merge a.id b.id r found)
  Joined-IsStep r =
      let f = found-IsStep in
      let m : IsStep (Joined found.uf a.id b.id) found (merge a.id b.id r found) =
        merge-IsStep a.id b.id r found f.valid (subst (In a.id) (sym f.items) ma)
          (subst (In b.id) (sym f.items) mb) in
      record {
        valid = m.valid;
        items = m.items ∙ f.items;
        same = λ i j.
            let (x, y) = m.same i j in
            let (p, q) = Joined-cong found.uf s.uf f.same a.id b.id i j in
            ((λ n. p (x n)), (λ n. y (q n)));
      }

  -- A comparison of two postings of a valid forest leaves a valid forest of the same items, and
  -- either no set changed or the two sets were joined. They were joined when the postings are of two
  -- sources, the locations their clusters stand at are compatible, and the texts are evidence of one
  -- job: of a short pair equal titles, of any other near hashes or a similarity above the threshold,
  -- each enough by itself. No set changed when the two were in one set, or one of these failed.
  pub compare_pair-IsJustified :
      (IsStep (Same s.uf) s (compare_pair settings a b s) × IsApart settings a b s)
      ⊎ (IsStep (Joined s.uf a.id b.id) s (compare_pair settings a b s)
          × IsJustified settings a b s)
  unfolding compare_pair
  compare_pair-IsJustified = elim (Bool-cases ((find a.id s.uf).0 == (find b.id first).0)) [
    | inl e ↦
        let one : (find a.id s.uf).0 ≡ (find b.id first).0 = ground (arith, e) in
        rw e (
          inl (
            found-IsStep,
            joined_before (
              (find a.id s.uf).0,
              find-Root a.id s.uf v,
              subst (Root s.uf.parent b.id) (sym one) at-Root_b,
            ),
          ))
    | inr e ↦ elim (Bool-cases (str_eq a.source_name b.source_name)) [
      | inl h ↦
          rw (e, h) (inl (found-IsStep, one_source ((eq_iff a.source_name b.source_name).0 h)))
      | inr h ↦
          elim (Bool-cases (
            locations_compatible (s.cluster_location (find a.id s.uf).0)
              (s.cluster_location (find b.id first).0))) [
                | inl k ↦ rw (e, h, k) (texts h k)
                | inr k ↦
                    rw (e, h, k)
                      (inl (found-IsStep, other_place (find-Root a.id s.uf v) at-Root_b k))
              ]
    ]
  ]
    where
      texts :
          str_eq a.source_name b.source_name ≡ false
          → locations_compatible
              (s.cluster_location (find a.id s.uf).0)
              (s.cluster_location (find b.id first).0)
            ≡ true
          → (IsStep (Same s.uf) s (by_text settings a b found) × IsApart settings a b s)
            ⊎ (IsStep (Joined s.uf a.id b.id) s (by_text settings a b found)
                × IsJustified settings a b s)
      texts h k = elim (by_text-cases settings a b found) [
        | inl (e, n) ↦ inl (
          subst (IsStep (Same s.uf) s) (sym e) found-IsStep,
          not_evident (λ d. false≢true (sym n ∙ IsEvident-is_evident settings a b d)),
        )
        | inr (r, e, evidence) ↦ inr (
          subst (IsStep (Joined s.uf a.id b.id) s) (sym e) (Joined-IsStep r),
          record {
            sources = h;
            root_a = (find a.id s.uf).0;
            root_b = (find b.id first).0;
            at_a = find-Root a.id s.uf v;
            at_b = at-Root_b;
            locations = k;
            evidence = is_evident-IsEvident settings a b evidence;
          },
        )
      ]
