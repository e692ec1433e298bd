-- ===== src/Dedup/Cluster/Grouped.antt =====
-- `setdefault(key, []).append(candidate)`: candidates of one key come into one group.
use career_pilot_ai.Prelude.{
  In-snoc, In-last, All-snoc, ◌≡◌, refl, sym, ◌∙◌, subst, inl, inr, Bool, true, false, List, [],
  ◌∷◌, Bool-cases, In, here, there, Some, All,
}
use career_pilot_ai.Dedup.Cluster.{add_to, group_from}

module _ {A : Type 0} (same : A → A → Bool) where
  -- the first group whose head is of the key of an element holds the element
  data IsHeld (x : A) : List (List A) → Type 0 where
    skip : {gs : List (List A)} → IsHeld x gs → IsHeld x ([] ∷ gs)
    at :
        {y : A} {ys : List A} {gs : List (List A)}
        → same y x ≡ true
        → In x (y ∷ ys)
        → IsHeld x ((y ∷ ys) ∷ gs)
    next :
        {y : A} {ys : List A} {gs : List (List A)}
        → same y x ≡ false
        → IsHeld x gs
        → IsHeld x ((y ∷ ys) ∷ gs)

  module _ (x : A) (own : same x x ≡ true) where
    add_to-IsHeld : (gs : List (List A)) → IsHeld x (add_to same x gs)
    unfolding add_to
    add_to-IsHeld [] = at own (here refl)
    add_to-IsHeld ([] ∷ gs) = skip (add_to-IsHeld gs)
    add_to-IsHeld ((y ∷ ys) ∷ gs) = elim (Bool-cases (same y x)) [
      | inl e ↦ rw e (at e (there (In-last x ys)))
      | inr e ↦ rw e (next e (add_to-IsHeld gs))
    ]

  add_to-keeps : (x y : A) (gs : List (List A)) → IsHeld x gs → IsHeld x (add_to same y gs)
  unfolding add_to
  add_to-keeps x y [] h = elim h [ ]
  add_to-keeps x y ([] ∷ gs) (skip h) = skip (add_to-keeps x y gs h)
  add_to-keeps x y ((z ∷ zs) ∷ gs) (at e m) = elim (Bool-cases (same z y)) [
    | inl f ↦ rw f (at e (In-snoc x y (z ∷ zs) m))
    | inr f ↦ rw f (at e m)
  ]
  add_to-keeps x y ((z ∷ zs) ∷ gs) (next e h) = elim (Bool-cases (same z y)) [
    | inl f ↦ rw f (next e h)
    | inr f ↦ rw f (next e (add_to-keeps x y gs h))
  ]

  group_from-keeps :
      (x : A) (ys : List A) (gs : List (List A)) → IsHeld x gs → IsHeld x (group_from same ys gs)
  unfolding group_from
  group_from-keeps x [] gs h = h
  group_from-keeps x (y ∷ ys) gs h =
      group_from-keeps x ys (add_to same y gs) (add_to-keeps x y gs h)

  group_from-IsHeld :
      (x : A) (ys : List A) (gs : List (List A))
      → same x x ≡ true
      → In x ys
      → IsHeld x (group_from same ys gs)
  unfolding group_from
  group_from-IsHeld x [] gs own m = elim m [ ]
  group_from-IsHeld x (y ∷ ys) gs own (here e) =
      group_from-keeps x ys (add_to same y gs)
        (subst (λ z. IsHeld x (add_to same z gs)) (sym e) (add_to-IsHeld x own gs))
  group_from-IsHeld x (y ∷ ys) gs own (there m) = group_from-IsHeld x ys (add_to same y gs) own m

  module _ (x y : A) (alike : (z : A) → same z x ≡ same z y) where
    together : (gs : List (List A)) → IsHeld x gs → IsHeld y gs → Some (λ g. In x g × In y g) gs
    together [] h k = elim h [ ]
    together ([] ∷ gs) (skip h) (skip k) = there (together gs h k)
    together ((z ∷ zs) ∷ gs) (at e m) (at f n) = here (m, n)
    together ((z ∷ zs) ∷ gs) (next e h) (next f k) = there (together gs h k)
    together ((z ∷ zs) ∷ gs) (at e m) (next f k) = absurd (true-false (sym e ∙ (alike z ∙ f)))
      where
        true-false : ¬ (true ≡ false)
        true-false q = cc
    together ((z ∷ zs) ∷ gs) (next e h) (at f n) = absurd (false-true (sym e ∙ (alike z ∙ f)))
      where
        false-true : ¬ (false ≡ true)
        false-true q = cc

    -- Two elements of a list that no key tells apart come into one group of it.
    pub group_from-together :
        (xs : List A)
        → same x x ≡ true
        → same y y ≡ true
        → In x xs
        → In y xs
        → Some (λ g. In x g × In y g) (group_from same xs [])
    group_from-together xs p q m n =
        together (group_from same xs []) (group_from-IsHeld x xs [] p m)
          (group_from-IsHeld y xs [] q n)

  module _ (Q : A → Type 0) where
    add_to-All :
        (x : A) (gs : List (List A)) → Q x → All (All Q) gs → All (All Q) (add_to same x gs)
    unfolding add_to
    add_to-All x [] q h = ((q, tt), tt)
    add_to-All x ([] ∷ gs) q (h, hs) = (tt, add_to-All x gs q hs)
    add_to-All x ((y ∷ ys) ∷ gs) q (h, hs) = elim (Bool-cases (same y x)) [
      | inl e ↦ rw e (All-snoc Q x (y ∷ ys) h q, hs)
      | inr e ↦ rw e (h, add_to-All x gs q hs)
    ]

    pub group_from-All :
        (xs : List A) (gs : List (List A))
        → All Q xs
        → All (All Q) gs
        → All (All Q) (group_from same xs gs)
    unfolding group_from
    group_from-All [] gs q h = h
    group_from-All (x ∷ xs) gs (q, qs) h =
        group_from-All xs (add_to same x gs) qs (add_to-All x gs q h)
