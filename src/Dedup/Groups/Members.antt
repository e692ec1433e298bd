-- ===== src/Dedup/Groups/Members.antt =====
-- The groups of `UnionFind.groups` by their roots, and what one more member does to them.
use career_pilot_ai.Prelude.{
  In-snoc, In-last, All-snoc, ℕ, ◌≡◌, ◌≢◌, refl, sym, subst, inl, inr, List, [], ◌∷◌, ◌==◌, ==_iff,
  Bool-cases, All, In, here, there, Some, arith,
}
use career_pilot_ai.Dedup.Groups.{add_member}
use career_pilot_ai.Dedup.Forest.Roots.{Root}

abbrev pub HasDistinctRoots : List (ℕ × List ℕ) → Type 0
HasDistinctRoots [] = Unit
HasDistinctRoots ((k, ms) ∷ gs) = All (λ (g : ℕ × List ℕ). g.0 ≢ k) gs × HasDistinctRoots gs

-- The groups of some items by their roots: a group holds items of its root, every item is in a
-- group, and no two groups have one root.
pub record IsGrouping (p : ℕ → ℕ) (M : ℕ → Type 0) (gs : List (ℕ × List ℕ)) : Type 0 where
  pub rooted : All (λ (g : ℕ × List ℕ). All (λ m. Root p m g.0 × M m) g.1) gs
  pub covered : (i : ℕ) → M i → Some (λ (g : ℕ × List ℕ). In i g.1) gs
  pub distinct : HasDistinctRoots gs

module _ (Q : ℕ → ℕ → Type 0) (r i : ℕ) (m : Q r i) where
  pub add_member-All :
      (gs : List (ℕ × List ℕ))
      → All (λ (g : ℕ × List ℕ). All (Q g.0) g.1) gs
      → All (λ (g : ℕ × List ℕ). All (Q g.0) g.1) (add_member r i gs)
  unfolding add_member
  add_member-All [] h = ((m, tt), tt)
  add_member-All ((k, ms) ∷ gs) (h, hs) = elim (Bool-cases (k == r)) [
    | inl e ↦
        let same : r ≡ k = sym ((==_iff k r).0 e) in
        rw e (All-snoc (Q k) i ms h (subst (λ s. Q s i) same m), hs)
    | inr e ↦ rw e (h, add_member-All gs hs)
  ]

module _ (r i : ℕ) where
  pub add_member-new :
      (gs : List (ℕ × List ℕ)) → Some (λ (g : ℕ × List ℕ). In i g.1) (add_member r i gs)
  unfolding add_member
  add_member-new [] = here (here refl)
  add_member-new ((k, ms) ∷ gs) = elim (Bool-cases (k == r)) [
    | inl e ↦ rw e (here (In-last i ms))
    | inr e ↦ rw e (there (add_member-new gs))
  ]

  pub add_member-old :
      (j : ℕ) (gs : List (ℕ × List ℕ))
      → Some (λ (g : ℕ × List ℕ). In j g.1) gs
      → Some (λ (g : ℕ × List ℕ). In j g.1) (add_member r i gs)
  unfolding add_member
  add_member-old j [] s = elim s [ ]
  add_member-old j ((k, ms) ∷ gs) (here n) = elim (Bool-cases (k == r)) [
    | inl e ↦ rw e (here (In-snoc j i ms n))
    | inr e ↦ rw e (here n)
  ]
  add_member-old j ((k, ms) ∷ gs) (there s) = elim (Bool-cases (k == r)) [
    | inl e ↦ rw e (there s)
    | inr e ↦ rw e (there (add_member-old j gs s))
  ]

  add_member-apart :
      (k : ℕ) (gs : List (ℕ × List ℕ))
      → k ≢ r
      → All (λ (g : ℕ × List ℕ). g.0 ≢ k) gs
      → All (λ (g : ℕ × List ℕ). g.0 ≢ k) (add_member r i gs)
  unfolding add_member
  add_member-apart k [] n h = ((λ e. n (sym e)), tt)
  add_member-apart k ((j, ms) ∷ gs) n (h, hs) = elim (Bool-cases (j == r)) [
    | inl e ↦ rw e (h, hs)
    | inr e ↦ rw e (h, add_member-apart k gs n hs)
  ]

  pub add_member-distinct :
      (gs : List (ℕ × List ℕ)) → HasDistinctRoots gs → HasDistinctRoots (add_member r i gs)
  unfolding add_member
  add_member-distinct [] d = (tt, tt)
  add_member-distinct ((k, ms) ∷ gs) (a, d) = elim (Bool-cases (k == r)) [
    | inl e ↦ rw e (a, d)
    | inr e ↦ rw e (add_member-apart k gs (λ q. ground (arith, q, e)) a, add_member-distinct gs d)
  ]
