-- ===== src/Dedup/Cluster/Stages.antt =====
-- The stages of `cluster_postings` on the sets of the forest, and the posting of one source key.
use career_pilot_ai.Prelude.{
  ℕ, ◌≡◌, refl, sym, ◌∙◌, subst, inl, inr, List, [], ◌∷◌, In, here, there, Some, All, All-mono,
  All-In,
}
use career_pilot_ai.Dedup.{DedupCandidate}
use career_pilot_ai.Dedup.Forest.{UnionFind, find}
use career_pilot_ai.Dedup.Forest.Roots.{Root, Root-unique}
use career_pilot_ai.Dedup.Forest.Partition.{IsValid, find-Root, Same, Joined}
use career_pilot_ai.Dedup.Cluster.{
  Clustering, Reason, Settings, merge, merge_all, merge_group, merge_groups, compare_pair,
  compare_with, compare_all, compare_blocks,
}
use career_pilot_ai.Dedup.Cluster.Merging.{IsStep, merge-IsStep, compare_pair-IsJustified}

-- A step that keeps the forest valid and its items, and separates none.
pub record IsCoarser (s t : Clustering) : Type 0 where
  pub valid : IsValid t.uf
  pub items : t.uf.items ≡ s.uf.items
  pub keeps : (i j : ℕ) → Same s.uf i j → Same t.uf i j

pub IsCoarser-refl : (s : Clustering) → IsValid s.uf → IsCoarser s s
IsCoarser-refl s v = record { valid = v; items = refl; keeps = λ i j m. m }

pub IsCoarser-trans : {s t u : Clustering} → IsCoarser s t → IsCoarser t u → IsCoarser s u
IsCoarser-trans c d = record {
  valid = d.valid;
  items = d.items ∙ c.items;
  keeps = λ i j m. d.keeps i j (c.keeps i j m);
}

abbrev pub Known : Clustering → DedupCandidate → Type 0
Known s c = In c.id s.uf.items

Known-moves : {s t : Clustering} → IsCoarser s t → (c : DedupCandidate) → Known s c → Known t c
Known-moves c d m = subst (In d.id) (sym c.items) m

pub All-Known-moves :
    {s t : Clustering}
    → IsCoarser s t
    → (cs : List DedupCandidate) → All (Known s) cs
    → All (Known t) cs
All-Known-moves h cs m = All-mono cs (Known-moves h) m

Same_refl : (uf : UnionFind) → IsValid uf → (i : ℕ) → Same uf i i
Same_refl uf v i = ((find i uf).0, find-Root i uf v, find-Root i uf v)

Same_sym : (uf : UnionFind) (i j : ℕ) → Same uf i j → Same uf j i
Same_sym uf i j (r, m, n) = (r, n, m)

Same_trans : (uf : UnionFind) (i j k : ℕ) → Same uf i j → Same uf j k → Same uf i k
Same_trans uf i j k (r, m, n) (s, p, q) = (r, m, subst (Root uf.parent k) (Root-unique p n) q)

with_first :
    (uf : UnionFind)
    → IsValid uf
    → (a : DedupCandidate) (cs : List DedupCandidate)
    → All (λ (c : DedupCandidate). Same uf a.id c.id) cs
    → (x : DedupCandidate) → In x (a ∷ cs)
    → Same uf a.id x.id
with_first uf v a cs ns x (here e) =
    subst (λ (z : DedupCandidate). Same uf a.id z.id) e (Same_refl uf v a.id)
with_first uf v a cs ns x (there m) = All-In (λ (c : DedupCandidate). Same uf a.id c.id) ns m

module _ (reason : Reason) where
  merge-IsCoarser :
      (a b : ℕ) (s : Clustering)
      → IsValid s.uf
      → In a s.uf.items
      → In b s.uf.items
      → IsCoarser s (merge a b reason s) × Same (merge a b reason s).uf a b
  merge-IsCoarser a b s v ma mb =
      let m : IsStep (Joined s.uf a b) s (merge a b reason s) = merge-IsStep a b reason s v ma mb in
      (
        record { valid = m.valid; items = m.items; keeps = λ i j n. (m.same i j).1 (inl n) },
        (m.same a b).1 (inr (inl (Same_refl s.uf v a, Same_refl s.uf v b))),
      )

  merge_all-IsCoarser :
      (a : DedupCandidate) (cs : List DedupCandidate) (s : Clustering)
      → IsValid s.uf
      → Known s a
      → All (Known s) cs
      → IsCoarser s (merge_all reason a.id cs s)
        × All (λ c. Same (merge_all reason a.id cs s).uf a.id c.id) cs
  unfolding merge_all
  merge_all-IsCoarser a [] s v ma mcs = (IsCoarser-refl s v, tt)
  merge_all-IsCoarser a (c ∷ cs) s v ma (mc, mcs) =
      let (h, m) = merge-IsCoarser a.id c.id s v ma mc in
      let (k, ns) =
        merge_all-IsCoarser a cs (merge a.id c.id reason s) h.valid (Known-moves h a ma)
          (All-Known-moves h cs mcs) in
      (IsCoarser-trans h k, (k.keeps a.id c.id m, ns))

  merge_group-IsCoarser :
      (g : List DedupCandidate) (s : Clustering)
      → IsValid s.uf
      → All (Known s) g
      → IsCoarser s (merge_group reason g s)
        × ((x y : DedupCandidate) → In x g → In y g → Same (merge_group reason g s).uf x.id y.id)
  unfolding merge_group
  merge_group-IsCoarser [] s v m = (IsCoarser-refl s v, (λ x y n k. elim n [ ]))
  merge_group-IsCoarser (a ∷ cs) s v (ma, mcs) =
      let (h, ns) = merge_all-IsCoarser a cs s v ma mcs in
      (
        h,
        λ x y n k.
            Same_trans (merge_all reason a.id cs s).uf x.id a.id y.id
              (Same_sym (merge_all reason a.id cs s).uf a.id x.id
                (with_first (merge_all reason a.id cs s).uf h.valid a cs ns x n))
              (with_first (merge_all reason a.id cs s).uf h.valid a cs ns y k),
      )

  pub merge_groups-IsCoarser :
      (gs : List (List DedupCandidate)) (s : Clustering)
      → IsValid s.uf
      → All (All (Known s)) gs
      → IsCoarser s (merge_groups reason gs s)
        × ((x y : DedupCandidate)
            → Some (λ g. In x g × In y g) gs
            → Same (merge_groups reason gs s).uf x.id y.id)
  unfolding merge_groups
  merge_groups-IsCoarser [] s v m = (IsCoarser-refl s v, (λ x y n. elim n [ ]))
  merge_groups-IsCoarser (g ∷ gs) s v (m, ms) =
      let (h, near) = merge_group-IsCoarser g s v m in
      let (k, far) =
        merge_groups-IsCoarser gs (merge_group reason g s) h.valid
          (All-mono gs (λ g. All-Known-moves h g) ms) in
      (IsCoarser-trans h k, λ x y n. in_some x y h.valid k near far n)
    where
      in_some :
          (x y : DedupCandidate)
          → IsValid (merge_group reason g s).uf
          → IsCoarser (merge_group reason g s) (merge_groups reason gs (merge_group reason g s))
          → ((x y : DedupCandidate) → In x g → In y g → Same (merge_group reason g s).uf x.id y.id)
          → ((x y : DedupCandidate)
              → Some (λ g. In x g × In y g) gs
              → Same (merge_groups reason gs (merge_group reason g s)).uf x.id y.id)
          → Some (λ g. In x g × In y g) (g ∷ gs)
          → Same (merge_groups reason gs (merge_group reason g s)).uf x.id y.id
      in_some x y w k near far (here (m, n)) = k.keeps x.id y.id (near x y m n)
      in_some x y w k near far (there n) = far x y n

module _ (settings : Settings) where
  compare_pair-IsCoarser :
      (a b : DedupCandidate) (s : Clustering)
      → IsValid s.uf
      → Known s a
      → Known s b
      → IsCoarser s (compare_pair settings a b s)
  compare_pair-IsCoarser a b s v ma mb = elim (compare_pair-IsJustified settings a b s v ma mb) [
    | inl (h, _) ↦ record { valid = h.valid; items = h.items; keeps = λ i j. (h.same i j).1 }
    | inr (h, _) ↦ record {
      valid = h.valid;
      items = h.items;
      keeps = λ i j n. (h.same i j).1 (inl n);
    }
  ]

  compare_with-IsCoarser :
      (a : DedupCandidate) (bs : List DedupCandidate) (s : Clustering)
      → IsValid s.uf
      → Known s a
      → All (Known s) bs
      → IsCoarser s (compare_with settings a bs s)
  unfolding compare_with
  compare_with-IsCoarser a [] s v ma m = IsCoarser-refl s v
  compare_with-IsCoarser a (b ∷ bs) s v ma (mb, m) =
      let h = compare_pair-IsCoarser a b s v ma mb in
      IsCoarser-trans h
        (compare_with-IsCoarser a bs _ h.valid (Known-moves h a ma) (All-Known-moves h bs m))

  compare_all-IsCoarser :
      (cs : List DedupCandidate) (s : Clustering)
      → IsValid s.uf
      → All (Known s) cs
      → IsCoarser s (compare_all settings cs s)
  unfolding compare_all
  compare_all-IsCoarser [] s v m = IsCoarser-refl s v
  compare_all-IsCoarser (a ∷ cs) s v (ma, m) =
      let h = compare_with-IsCoarser a cs s v ma m in
      IsCoarser-trans h (compare_all-IsCoarser cs _ h.valid (All-Known-moves h cs m))

  pub compare_blocks-IsCoarser :
      (gs : List (List DedupCandidate)) (s : Clustering)
      → IsValid s.uf
      → All (All (Known s)) gs
      → IsCoarser s (compare_blocks settings gs s)
  unfolding compare_blocks
  compare_blocks-IsCoarser [] s v m = IsCoarser-refl s v
  compare_blocks-IsCoarser (g ∷ gs) s v (mg, m) =
      let h = compare_all-IsCoarser g s v mg in
      IsCoarser-trans h
        (compare_blocks-IsCoarser gs _ h.valid (All-mono gs (λ g. All-Known-moves h g) m))
