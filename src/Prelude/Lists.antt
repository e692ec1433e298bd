-- ===== src/Prelude/Lists.antt =====
-- Lists measured by native numbers, Boolean searches, and predicates over the elements.
use Prim.Native.Nat.{ℕ, zero, suc, ◌+◌}
use mathlib.Core.Path.{◌≡◌, refl, sym, ap, subst, ◌∙◌}
use mathlib.Core.Bool.{Bool, true, false, ◌&&◌, ◌||◌, false≢true}
use mathlib.Core.Logic.{inl, inr}
use mathlib.Core.List.{List, [], ◌∷◌, ◌++◌, map}
use mathlib.Core.Option.{Option, none, some}
use native.Mathlib.Omega.{arith}
use career_pilot_ai.Prelude.Tests.{if◌then◌else◌, Bool-cases}

module _ {ℓ} {A : Type ℓ} where
  abbrev pub length : List A → ℕ
  length [] = 0
  length (x ∷ xs) = suc (length xs)

  abbrev pub get_elem? : List A → ℕ → Option A
  get_elem? [] i = none
  get_elem? (x ∷ xs) zero = some x
  get_elem? (x ∷ xs) (suc i) = get_elem? xs i

  abbrev pub take : ℕ → List A → List A
  take zero xs = []
  take (suc n) [] = []
  take (suc n) (x ∷ xs) = x ∷ take n xs

  -- `any(...)`, `all(...)` and a filtering comprehension
  abbrev pub any : (A → Bool) → List A → Bool
  any p [] = false
  any p (x ∷ xs) = p x || any p xs

  abbrev pub all : (A → Bool) → List A → Bool
  all p [] = true
  all p (x ∷ xs) = p x && all p xs

  abbrev pub keep_if : (A → Bool) → List A → List A
  keep_if p [] = []
  keep_if p (x ∷ xs) = let rest = keep_if p xs in if p x then x ∷ rest else rest

  -- `sum(1 for x in xs if p(x))`
  abbrev pub count_if : (A → Bool) → List A → ℕ
  count_if p [] = 0
  count_if p (x ∷ xs) = let rest = count_if p xs in if p x then suc rest else rest

  abbrev pub is_empty : List A → Bool
  is_empty [] = true
  is_empty (x ∷ xs) = false

  pub length-append : (xs ys : List A) → length (xs ++ ys) ≡ length xs + length ys
  length-append [] ys = omega arith
  length-append (x ∷ xs) ys = omega (arith, length-append xs ys)

-- A predicate of every element, and of some element with its proof kept.
abbrev pub All {ℓ κ} : {A : Type ℓ} → (A → Type κ) → List A → Type κ
All P [] = Unit
All P (x ∷ xs) = P x × All P xs

pub data Some {ℓ κ} {A : Type ℓ} (P : A → Type κ) : List A → Type (ℓ ⊔ κ) where
  here : {x : A} {xs : List A} → P x → Some P (x ∷ xs)
  there : {x : A} {xs : List A} → Some P xs → Some P (x ∷ xs)

-- Membership, as the existence of an equal element.
abbrev pub In {ℓ} : {A : Type ℓ} → A → List A → Type ℓ
In a xs = Some (λ x. x ≡ a) xs

module _ {ℓ} {A : Type ℓ} where
  pub not-In-nil : {a : A} → ¬ In a []
  not-In-nil m = elim m [ ]

  cons-ne-nil : {x : A} {xs : List A} → ¬ (x ∷ xs ≡ [])
  cons-ne-nil e = cc

  pub any-In : (p : A → Bool) (xs : List A) → any p xs ≡ true → (a : A) × In a xs × (p a ≡ true)
  any-In p [] h = ground arith
  any-In p (x ∷ xs) h = elim (Bool-cases (p x)) [
    | inl e ↦ (x, here refl, e)
    | inr e ↦ let (a, m, q) = any-In p xs (rw e at h) in (a, there m, q)
  ]

module _ {ℓ} {A : Type ℓ} (p : A → Bool) where
  head_or_tail :
      (a x : A) (xs ys : List A)
      → p x ≡ true
      → (In a ys → In a xs × (p a ≡ true))
      → In a (x ∷ ys)
      → In a (x ∷ xs) × (p a ≡ true)
  head_or_tail a x xs ys e ih (here q) = (here q, ap p (sym q) ∙ e)
  head_or_tail a x xs ys e ih (there m) = let (n, q) = ih m in (there n, q)

  -- an element that passes the filter was in the list, and passes the test
  pub In-keep_if : (a : A) (xs : List A) → In a (keep_if p xs) → In a xs × (p a ≡ true)
  In-keep_if a [] m = absurd (not-In-nil m)
  In-keep_if a (x ∷ xs) m = elim (Bool-cases (p x)) [
    | inl e ↦ head_or_tail a x xs (keep_if p xs) e (In-keep_if a xs) (rw e at m)
    | inr e ↦ let (n, q) = In-keep_if a xs (rw e at m) in (there n, q)
  ]

  -- what holds of all that pass the filter
  pub All-keep_if {κ} :
      (P : A → Type κ) (xs : List A) → All P (keep_if p xs) → All (λ x. p x ≡ true → P x) xs
  All-keep_if P [] h = tt
  All-keep_if P (x ∷ xs) h = elim (Bool-cases (p x)) [
    | inl e ↦ let h' = rw e at h in ((λ _. h'.0), All-keep_if P xs h'.1)
    | inr e ↦ ((λ q. absurd (false≢true (sym e ∙ q))), All-keep_if P xs (rw e at h))
  ]

  pub keep_if-nil : (xs : List A) → keep_if p xs ≡ [] → All (λ x. p x ≡ false) xs
  keep_if-nil [] h = tt
  keep_if-nil (x ∷ xs) h = elim (Bool-cases (p x)) [
    | inl e ↦ absurd (cons-ne-nil (rw e at h))
    | inr e ↦ (e, keep_if-nil xs (rw e at h))
  ]

module _ {ℓ κ ι} {A : Type ℓ} {P : A → Type κ} {Q : A → Type ι} where
  pub All-mono : (xs : List A) → ((x : A) → P x → Q x) → All P xs → All Q xs
  All-mono [] f h = tt
  All-mono (x ∷ xs) f h = (f x h.0, All-mono xs f h.1)

module _ {ℓ κ} {A : Type ℓ} (P : A → Type κ) where
  pub take-All : (n : ℕ) (xs : List A) → All P xs → All P (take n xs)
  take-All zero xs h = tt
  take-All (suc n) [] h = tt
  take-All (suc n) (x ∷ xs) h = (h.0, take-All n xs h.1)

  pub map-All {ι} :
      {B : Type ι} (f : B → A) (xs : List B) → All (λ b. P (f b)) xs → All P (map f xs)
  map-All f [] h = tt
  map-All f (x ∷ xs) h = (h.0, map-All f xs h.1)

  pub All-In : {a : A} {xs : List A} → All P xs → In a xs → P a
  All-In h (here e) = subst P e h.0
  All-In h (there m) = All-In h.1 m

module _ {ℓ} {A : Type ℓ} where
  pub members : (xs : List A) → All (λ x. In x xs) xs
  members [] = tt
  members (x ∷ xs) = (here refl, All-mono xs (λ y m. there m) (members xs))

  pub In-snoc : (x y : A) (ys : List A) → In x ys → In x (ys ++ y ∷ [])
  In-snoc x y [] m = elim m [ ]
  In-snoc x y (z ∷ zs) (here e) = here e
  In-snoc x y (z ∷ zs) (there m) = there (In-snoc x y zs m)

  pub In-last : (x : A) (ys : List A) → In x (ys ++ x ∷ [])
  In-last x [] = here refl
  In-last x (y ∷ ys) = there (In-last x ys)

  pub All-snoc {κ} : (Q : A → Type κ) (x : A) (ys : List A) → All Q ys → Q x → All Q (ys ++ x ∷ [])
  All-snoc Q x [] h q = (q, tt)
  All-snoc Q x (y ∷ ys) (h, hs) q = (h, All-snoc Q x ys hs q)
