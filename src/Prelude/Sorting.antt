-- ===== src/Prelude/Sorting.antt =====
-- Python's stable `sorted` by a Boolean order, and what it leaves of a list.
use mathlib.Core.Path.{◌≡◌}
use mathlib.Core.Bool.{Bool, true, false}
use mathlib.Core.Logic.{inl, inr}
use mathlib.Core.List.{List, [], ◌∷◌, Perm}
use mathlib.Core.List.Perm
use career_pilot_ai.Prelude.Tests.{if◌then◌else◌, Bool-cases}
use career_pilot_ai.Prelude.Lists.{All, All-mono, Some, here, there}

module _ {ℓ} {A : Type ℓ} (before : A → A → Bool) where
  pub insert_by : A → List A → List A
  insert_by x [] = x ∷ []
  insert_by x (y ∷ ys) = let rest = insert_by x ys in if before x y then x ∷ y ∷ ys else y ∷ rest

  unfoldable pub sort_by : List A → List A
  unfolding insert_by
  sort_by [] = []
  sort_by (x ∷ xs) = insert_by x (sort_by xs)

  abbrev pub IsSorted : List A → Type ℓ
  IsSorted [] = Unit
  IsSorted (x ∷ xs) = All (λ y. before x y ≡ true) xs × IsSorted xs

  insert_by-Perm : (x : A) (ys : List A) → Perm (insert_by x ys) (x ∷ ys)
  unfolding insert_by
  insert_by-Perm x [] = Perm.rfl
  insert_by-Perm x (y ∷ ys) = elim (Bool-cases (before x y)) [
    | inl e ↦ rw e Perm.rfl
    | inr e ↦ rw e (Perm.trans (Perm.cons y (insert_by-Perm x ys)) (Perm.swap x y ys))
  ]

  pub sort_by-Perm : (xs : List A) → Perm (sort_by xs) xs
  unfolding sort_by
  sort_by-Perm [] = Perm.rfl
  sort_by-Perm (x ∷ xs) = Perm.trans (insert_by-Perm x (sort_by xs)) (Perm.cons x (sort_by-Perm xs))

  module _ {κ} (P : A → Type κ) where
    insert_by-All : (x : A) (ys : List A) → P x → All P ys → All P (insert_by x ys)
    unfolding insert_by
    insert_by-All x [] p h = (p, tt)
    insert_by-All x (y ∷ ys) p (h, hs) = elim (Bool-cases (before x y)) [
      | inl e ↦ rw e (p, (h, hs))
      | inr e ↦ rw e (h, insert_by-All x ys p hs)
    ]

    pub sort_by-All : (xs : List A) → All P xs → All P (sort_by xs)
    unfolding sort_by
    sort_by-All [] h = tt
    sort_by-All (x ∷ xs) (h, hs) = insert_by-All x (sort_by xs) h (sort_by-All xs hs)

  module _ (total : (a b : A) → before a b ≡ false → before b a ≡ true)
      (trans : (a b c : A) → before a b ≡ true → before b c ≡ true → before a c ≡ true) where
    insert_by-IsSorted : (x : A) (ys : List A) → IsSorted ys → IsSorted (insert_by x ys)
    unfolding insert_by
    insert_by-IsSorted x [] h = (tt, tt)
    insert_by-IsSorted x (y ∷ ys) (h, hs) = elim (Bool-cases (before x y)) [
      | inl e ↦ rw e ((e, All-mono ys (λ z q. trans x y z e q) h), (h, hs))
      | inr e ↦
          rw e (
            insert_by-All (λ z. before y z ≡ true) x ys (total x y e) h,
            insert_by-IsSorted x ys hs,
          )
    ]

    pub sort_by-IsSorted : (xs : List A) → IsSorted (sort_by xs)
    unfolding sort_by
    sort_by-IsSorted [] = tt
    sort_by-IsSorted (x ∷ xs) = insert_by-IsSorted x (sort_by xs) (sort_by-IsSorted xs)

-- A relation between any two elements of a list, the earlier one first.
abbrev pub AllPairs {ℓ κ} : {A : Type ℓ} → (A → A → Type κ) → List A → Type (ℓ ⊔ κ)
AllPairs R [] = Unit
AllPairs R (x ∷ xs) = All (R x) xs × AllPairs R xs

module _ {ℓ κ} {A : Type ℓ} (before : A → A → Bool) (R : A → A → Type κ)
    (symmetric : (a b : A) → R a b → R b a) where
  insert_by-AllPairs :
      (x : A) (ys : List A) → All (R x) ys → AllPairs R ys → AllPairs R (insert_by before x ys)
  unfolding insert_by
  insert_by-AllPairs x [] p h = (tt, tt)
  insert_by-AllPairs x (y ∷ ys) (p, ps) (h, hs) = elim (Bool-cases (before x y)) [
    | inl e ↦ rw e ((p, ps), (h, hs))
    | inr e ↦
        rw e (insert_by-All before (R y) x ys (symmetric x y p) h, insert_by-AllPairs x ys ps hs)
  ]

  pub sort_by-AllPairs : (xs : List A) → AllPairs R xs → AllPairs R (sort_by before xs)
  unfolding sort_by
  sort_by-AllPairs [] h = tt
  sort_by-AllPairs (x ∷ xs) (h, hs) =
      insert_by-AllPairs x (sort_by before xs) (sort_by-All before (R x) xs h)
        (sort_by-AllPairs xs hs)

module _ {ℓ κ} {A : Type ℓ} (before : A → A → Bool) (P : A → Type κ) where
  insert_by-head : (x : A) (ys : List A) → P x → Some P (insert_by before x ys)
  unfolding insert_by
  insert_by-head x [] p = here p
  insert_by-head x (y ∷ ys) p = elim (Bool-cases (before x y)) [
    | inl e ↦ rw e (here p)
    | inr e ↦ rw e (there (insert_by-head x ys p))
  ]

  insert_by-Some : (x : A) (ys : List A) → Some P ys → Some P (insert_by before x ys)
  unfolding insert_by
  insert_by-Some x [] s = elim s [ ]
  insert_by-Some x (y ∷ ys) (here p) = elim (Bool-cases (before x y)) [
    | inl e ↦ rw e (there (here p))
    | inr e ↦ rw e (here p)
  ]
  insert_by-Some x (y ∷ ys) (there s) = elim (Bool-cases (before x y)) [
    | inl e ↦ rw e (there (there s))
    | inr e ↦ rw e (there (insert_by-Some x ys s))
  ]

  pub sort_by-Some : (xs : List A) → Some P xs → Some P (sort_by before xs)
  unfolding sort_by
  sort_by-Some [] s = elim s [ ]
  sort_by-Some (x ∷ xs) (here p) = insert_by-head x (sort_by before xs) p
  sort_by-Some (x ∷ xs) (there s) = insert_by-Some x (sort_by before xs) (sort_by-Some xs s)
