-- ===== src/Dedup/Forest/Roots.antt =====
-- The roots of a forest: there is one for each item, `find` finds it, and compression keeps it.
use career_pilot_ai.Prelude.{
  ℕ, zero, suc, ◌+◌, ◌≤◌, ◌<◌, ◌≡◌, ◌≢◌, refl, sym, ap, ◌∙◌, subst, ◌⊎◌, inl, inr, false, arith,
  ◌==◌, ==_iff, Bool-cases,
}
use career_pilot_ai.Dedup.Forest.{set, root_of}

-- The items above an item, up to one that is its own parent.
pub data Root (p : ℕ → ℕ) : ℕ → ℕ → Type 0 where
  top : {i : ℕ} → p i ≡ i → Root p i i
  up : {i r : ℕ} → Root p (p i) r → Root p i r

pub Root-top : {p : ℕ → ℕ} {i r : ℕ} → Root p i r → p r ≡ r
Root-top (top e) = e
Root-top (up m) = Root-top m

pub Root-of_top : {p : ℕ → ℕ} {i j r : ℕ} → p i ≡ i → j ≡ i → Root p j r → r ≡ i
Root-of_top t e (top _) = e
Root-of_top {p} t e (up m) = Root-of_top t (ap p e ∙ t) m

pub unique_at : {p : ℕ → ℕ} {i j r s : ℕ} → Root p i r → Root p j s → i ≡ j → r ≡ s
unique_at (top e) m q = sym (Root-of_top e (sym q) m)
unique_at {p} (up n) (top e) q = Root-of_top e (ap p q ∙ e) n
unique_at {p} (up n) (up m) q = unique_at n m (ap p q)

pub Root-unique : {p : ℕ → ℕ} {i r s : ℕ} → Root p i r → Root p i s → r ≡ s
Root-unique m n = unique_at m n refl

-- sizes grow towards a root, and are at most a bound
pub record IsForest (bound : ℕ) (p size : ℕ → ℕ) : Type 0 where
  pub grows : (i : ℕ) → (p i ≡ i) ⊎ ((size i < size (p i)) × (size (p i) ≤ bound))

pub ==-false : (a b : ℕ) → (a == b) ≡ false → a ≢ b
==-false a b h e = ground (arith, h, e)

module _ {bound : ℕ} {p size : ℕ → ℕ} (f : IsForest bound p size) where
  above : (i : ℕ) → (p i == i) ≡ false → (size i < size (p i)) × (size (p i) ≤ bound)
  above i e = elim (f.grows i) [ inl t ↦ absurd (==-false _ _ e t) | inr g ↦ g ]

  pub root_of-Root : (n i : ℕ) → bound < size i + n → 0 < n → Root p i (root_of n p i)
  unfolding root_of
  root_of-Root zero i h z = absurd (omega (arith, z))
  root_of-Root (suc n) i h z = elim (Bool-cases (p i == i)) [
    | inl e ↦ rw (e, root_of) (top ((==_iff _ _).0 e))
    | inr e ↦
        let (g, b) = above i e in
        rw (e, root_of) (up (root_of-Root n (p i) (omega (arith, h, g)) (omega (arith, h, g, b))))
  ]

  pub Root-size : {i r : ℕ} → Root p i r → (i ≡ r) ⊎ (size i < size r)
  Root-size (top e) = inl refl
  Root-size {i} {r} (up m) = climb (f.grows i) (Root-size m)
    where
      climb :
          (p i ≡ i) ⊎ ((size i < size (p i)) × (size (p i) ≤ bound))
          → (p i ≡ r) ⊎ (size (p i) < size r)
          → (i ≡ r) ⊎ (size i < size r)
      climb (inl t) (inl e) = inl (sym t ∙ e)
      climb (inl t) (inr l) = inr (subst (λ k. size k < size r) t l)
      climb (inr g) (inl e) = inr (subst (λ k. size i < size k) e g.0)
      climb (inr g) (inr l) = inr (omega (arith, g.0, l))

  Root-bound : {i r : ℕ} → Root p i r → (i ≡ r) ⊎ (size r ≤ bound)
  Root-bound (top e) = inl refl
  Root-bound {i} {r} (up m) = climb (f.grows i) (Root-bound m)
    where
      climb :
          (p i ≡ i) ⊎ ((size i < size (p i)) × (size (p i) ≤ bound))
          → (p i ≡ r) ⊎ (size r ≤ bound)
          → (i ≡ r) ⊎ (size r ≤ bound)
      climb (inl t) (inl e) = inl (sym t ∙ e)
      climb t (inr l) = inr l
      climb (inr g) (inl e) = inr (subst (λ k. size k ≤ bound) e g.1)

  -- an item set below its root
  module _ (k root : ℕ) (m : Root p k root) where
    pub set-Root : {i r : ℕ} → Root p i r → Root (set k root p) i r
    set-Root {i} {r} (top e) = elim (Bool-cases (i == k)) [
      | inl h ↦
          let same : i ≡ k = (==_iff i k).0 h in
          let at : root ≡ i = Root-of_top e (sym same) m in top (rw h at)
      | inr h ↦ top (rw h e)
    ]
    set-Root {i} {r} (up n) = elim (Bool-cases (i == k)) [
      | inl h ↦
          let same : i ≡ k = (==_iff i k).0 h in
          let at : r ≡ root = unique_at (up n) m same in
          subst (Root (set k root p) i) (sym at) (up (rw h root_stays))
      | inr h ↦ up (rw h (set-Root n))
    ]
      where
        root_stays : Root (set k root p) root root
        root_stays = elim (Bool-cases (root == k)) [
          | inl q ↦ top (rw q refl)
          | inr q ↦ top (rw q (Root-top m))
        ]

    pub set-IsForest : IsForest bound (set k root p) size
    set-IsForest = record {
      grows = λ i. elim (Bool-cases (i == k)) [
        | inl h ↦ rw h (at_root i ((==_iff i k).0 h))
        | inr h ↦ rw h (f.grows i)
      ];
    }
      where
        at_root : (i : ℕ) → i ≡ k → (root ≡ i) ⊎ ((size i < size root) × (size root ≤ bound))
        at_root i e = elim (Root-size m) [
          | inl q ↦ inl (sym (e ∙ q))
          | inr l ↦ elim (Root-bound m) [
            | inl q ↦ inl (sym (e ∙ q))
            | inr b ↦ inr (subst (λ j. size j < size root) (sym e) l, b)
          ]
        ]
