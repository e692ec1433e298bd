-- ===== src/Dedup/Groups/Grouping.antt =====
-- `UnionFind.groups` groups the items of a forest by their roots.
use career_pilot_ai.Prelude.{
  members, ◌⊎◌, ℕ, ◌≡◌, refl, subst, inl, inr, List, [], ◌∷◌, All, All-mono, In, here, there, Some,
}
use career_pilot_ai.Dedup.Forest.{UnionFind, find}
use career_pilot_ai.Dedup.Forest.Roots.{Root, Root-unique}
use career_pilot_ai.Dedup.Forest.Partition.{IsValid, find-Root, find-Keeps}
use career_pilot_ai.Dedup.Groups.{add_member, groups_from, groups}
use career_pilot_ai.Dedup.Groups.Members.{
  IsGrouping, add_member-All, add_member-new, add_member-old, add_member-distinct,
}

abbrev IsCovered : List (ℕ × List ℕ) → ℕ → Type 0
IsCovered gs i = Some (λ (g : ℕ × List ℕ). In i g.1) gs

-- the root in a forest that keeps the roots of another
Root-in :
    (p : ℕ → ℕ) (i : ℕ) (uf : UnionFind)
    → IsValid uf
    → ((j r : ℕ) → Root p j r → Root uf.parent j r)
    → (r : ℕ) × Root p i r
    → Root p i (find i uf).0
Root-in p i uf v k (r, m) = subst (Root p i) (Root-unique (k i r m) (find-Root i uf v)) m

find-items : (i : ℕ) (uf : UnionFind) → (find i uf).1.items ≡ uf.items
unfolding find
find-items i uf = refl

weaken_drawn :
    (p : ℕ → ℕ) (M N : ℕ → Type 0) (gs : List (ℕ × List ℕ))
    → ((j : ℕ) → M j → N j)
    → All (λ (g : ℕ × List ℕ). All (λ m. Root p m g.0 × M m) g.1) gs
    → All (λ (g : ℕ × List ℕ). All (λ m. Root p m g.0 × N m) g.1) gs
weaken_drawn p M N gs h = All-mono gs (λ g. All-mono g.1 (λ m (r, n). (r, h m n)))

add_member-IsGrouping :
    (p : ℕ → ℕ) (M : ℕ → Type 0) (r i : ℕ) (gs : List (ℕ × List ℕ))
    → Root p i r
    → IsGrouping p M gs
    → IsGrouping p (λ j. M j ⊎ (i ≡ j)) (add_member r i gs)
add_member-IsGrouping p M r i gs at g = record {
  rooted =
      add_member-All (λ s m. Root p m s × (M m ⊎ (i ≡ m))) r i (at, inr refl) gs
        (weaken_drawn p M (λ j. M j ⊎ (i ≡ j)) gs (λ j n. inl n) g.rooted);
  covered = λ j n. cover j n;
  distinct = add_member-distinct r i gs g.distinct;
}
  where
    cover : (j : ℕ) → M j ⊎ (i ≡ j) → IsCovered (add_member r i gs) j
    cover j (inl n) = add_member-old r i j gs (g.covered j n)
    cover j (inr e) = subst (IsCovered (add_member r i gs)) e (add_member-new r i gs)

module _ (p : ℕ → ℕ) (total : (i : ℕ) → (r : ℕ) × Root p i r) where
  groups_from-IsGrouping :
      (M : ℕ → Type 0) (is : List ℕ) (uf : UnionFind) (gs : List (ℕ × List ℕ))
      → IsValid uf
      → ((i r : ℕ) → Root p i r → Root uf.parent i r)
      → All (λ i. In i uf.items) is
      → IsGrouping p M gs
      → IsGrouping p (λ j. M j ⊎ In j is) (groups_from is uf gs)
  unfolding groups_from
  groups_from-IsGrouping M [] uf gs v k m g = record {
    rooted = weaken_drawn p M (λ j. M j ⊎ In j []) gs (λ j n. inl n) g.rooted;
    covered = λ j n. g.covered j (only j n);
    distinct = g.distinct;
  }
    where
      only : (j : ℕ) → M j ⊎ In j [] → M j
      only j (inl n) = n
      only j (inr n) = elim n [ ]
  groups_from-IsGrouping M (i ∷ is) uf gs v k (m, ms) g =
      let (w, l) = find-Keeps i uf v m in
      let ms' : All (λ j. In j (find i uf).1.items) is = unfold find in ms in
      let at : Root p i (find i uf).0 = Root-in p i uf v k (total i) in
      let added : IsGrouping p (λ j. M j ⊎ (i ≡ j)) (add_member (find i uf).0 i gs) =
        add_member-IsGrouping p M (find i uf).0 i gs at g in
      let rest =
        groups_from-IsGrouping (λ j. M j ⊎ (i ≡ j)) is (find i uf).1 (add_member (find i uf).0 i gs)
          w (λ j r n. l j r (k j r n)) ms' added in
      record {
        rooted =
            weaken_drawn p _ _ (groups_from is (find i uf).1 (add_member (find i uf).0 i gs))
              (λ j. forth j) rest.rooted;
        covered = λ j n. rest.covered j (back j n);
        distinct = rest.distinct;
      }
    where
      forth : (j : ℕ) → (M j ⊎ (i ≡ j)) ⊎ In j is → M j ⊎ In j (i ∷ is)
      forth j (inl (inl n)) = inl n
      forth j (inl (inr e)) = inr (here e)
      forth j (inr n) = inr (there n)

      back : (j : ℕ) → M j ⊎ In j (i ∷ is) → (M j ⊎ (i ≡ j)) ⊎ In j is
      back j (inl n) = inl (inl n)
      back j (inr (here e)) = inl (inr e)
      back j (inr (there n)) = inr n

-- The groups of a valid forest are the sets of its partition: each group holds items of one root
-- only, every item is in some group, and no two groups have one root.
pub groups-IsGrouping :
    (uf : UnionFind) → IsValid uf → IsGrouping uf.parent (λ i. In i uf.items) (groups uf)
unfolding groups
groups-IsGrouping uf v =
    let g =
      groups_from-IsGrouping uf.parent (λ i. ((find i uf).0, find-Root i uf v)) (λ j. ⊥) uf.items uf
        [] v (λ i r m. m) (members uf.items)
        record { rooted = tt; covered = λ i m. absurd m; distinct = tt } in
    record {
      rooted = weaken_drawn uf.parent _ _ (groups_from uf.items uf []) (λ j. only j) g.rooted;
      covered = λ j n. g.covered j (inr n);
      distinct = g.distinct;
    }
  where
    only : (j : ℕ) → ⊥ ⊎ In j uf.items → In j uf.items
    only j (inl n) = absurd n
    only j (inr n) = n
