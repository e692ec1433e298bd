-- ===== src/Scoring/Percentiles.antt =====
-- A percentile against the pool, counted.
use career_pilot_ai.Prelude.{
  ℕ, suc, ◌+◌, ◌-◌, ◌*◌, ◌%◌, ◌≤◌, max, ◌≡◌, refl, sym, ap, ◌∙◌, inl, inr, Bool, true, false, List,
  [], ◌∷◌, arith, ltb, leb, if◌then◌else◌, length, count_if, All, All-mono, Bool-cases, leb→le,
}
use native.Mathlib.Nat.{zero-div, zero-mod}
use career_pilot_ai.Scoring.{
  lower_half, band, insert, sorted, bisect_left, bisect_right, round_div, percentile_of,
}

IsSorted : List ℕ → Type 0
IsSorted [] = Unit
IsSorted (x ∷ xs) = All (λ y. x ≤ y) xs × IsSorted xs

insert-All : (a x : ℕ) (xs : List ℕ) → a ≤ x → All (λ y. a ≤ y) xs → All (λ y. a ≤ y) (insert x xs)
unfolding insert
insert-All a x [] h hs = (h, tt)
insert-All a x (y ∷ ys) h (k, ks) = elim (Bool-cases (leb x y)) [
  | inl e ↦ rw e (h, (k, ks))
  | inr e ↦ rw e (k, insert-All a x ys h ks)
]

insert-IsSorted : (x : ℕ) (xs : List ℕ) → IsSorted xs → IsSorted (insert x xs)
unfolding insert IsSorted
insert-IsSorted x [] h = (tt, tt)
insert-IsSorted x (y ∷ ys) (h, hs) = elim (Bool-cases (leb x y)) [
  | inl e ↦
      let le = leb→le x y e in
      rw e ((le, All-mono ys (λ z (k : y ≤ z). omega (arith, le, k)) h), (h, hs))
  | inr e ↦ rw e (insert-All y x ys (ground (arith, e)) h, insert-IsSorted x ys hs)
]

sorted-IsSorted : (xs : List ℕ) → IsSorted (sorted xs)
unfolding sorted
sorted-IsSorted [] = unfold IsSorted in tt
sorted-IsSorted (x ∷ xs) = insert-IsSorted x (sorted xs) (sorted-IsSorted xs)

insert-count_if :
    (p : ℕ → Bool) (x : ℕ) (xs : List ℕ) → count_if p (insert x xs) ≡ count_if p (x ∷ xs)
unfolding insert
insert-count_if p x [] = refl
insert-count_if p x (y ∷ ys) = elim (Bool-cases (leb x y)) [
  | inl e ↦ rw e refl
  | inr e ↦ rw (e, insert-count_if p x ys) (swap (p x) (p y) (count_if p ys))
]
  where
    swap :
        (a b : Bool) (n : ℕ)
        → (if b then suc (if a then suc n else n) else (if a then suc n else n))
          ≡ (if a then suc (if b then suc n else n) else (if b then suc n else n))
    swap true true n = refl
    swap true false n = refl
    swap false true n = refl
    swap false false n = refl

sorted-count_if : (p : ℕ → Bool) (xs : List ℕ) → count_if p (sorted xs) ≡ count_if p xs
unfolding sorted
sorted-count_if p [] = refl
sorted-count_if p (x ∷ xs) = insert-count_if p x (sorted xs) ∙ rw (sorted-count_if p xs) refl

count_if-none : (p : ℕ → Bool) (xs : List ℕ) → All (λ y. p y ≡ false) xs → count_if p xs ≡ 0
count_if-none p [] h = refl
count_if-none p (x ∷ xs) (h, hs) = rw (h) (count_if-none p xs hs)

bisect_left-count_if :
    (xs : List ℕ) (x : ℕ) → IsSorted xs → bisect_left xs x ≡ count_if (λ y. ltb y x) xs
unfolding bisect_left IsSorted
bisect_left-count_if [] x h = refl
bisect_left-count_if (y ∷ ys) x (h, hs) = elim (Bool-cases (ltb y x)) [
  | inl e ↦ rw e (ap suc (bisect_left-count_if ys x hs))
  | inr e ↦ rw e (sym (count_if-none _ ys (All-mono ys (λ z (k : y ≤ z). ground (arith, e, k)) h)))
]

bisect_right-count_if :
    (xs : List ℕ) (x : ℕ) → IsSorted xs → bisect_right xs x ≡ count_if (λ y. leb y x) xs
unfolding bisect_right IsSorted
bisect_right-count_if [] x h = refl
bisect_right-count_if (y ∷ ys) x (h, hs) = elim (Bool-cases (leb y x)) [
  | inl e ↦ rw e (ap suc (bisect_right-count_if ys x hs))
  | inr e ↦ rw e (sym (count_if-none _ ys (All-mono ys (λ z (k : y ≤ z). ground (arith, e, k)) h)))
]

insert-length : (x : ℕ) (xs : List ℕ) → length (insert x xs) ≡ suc (length xs)
unfolding insert
insert-length x [] = refl
insert-length x (y ∷ ys) = elim (Bool-cases (leb x y)) [
  | inl e ↦ rw e refl
  | inr e ↦ rw e (ap suc (insert-length x ys))
]

sorted-length : (xs : List ℕ) → length (sorted xs) ≡ length xs
unfolding sorted
sorted-length [] = refl
sorted-length (x ∷ xs) = insert-length x (sorted xs) ∙ ap suc (sorted-length xs)

count_split :
    (x : ℕ) (xs : List ℕ) → count_if (λ y. leb y x) xs + count_if (λ y. ltb x y) xs ≡ length xs
count_split x [] = refl
count_split x (y ∷ ys) = elim (Bool-cases (leb y x)) [
  | inl e ↦
      let f : ltb x y ≡ false = ground (arith, e) in rw (e, f) (omega (arith, count_split x ys))
  | inr e ↦
      let f : ltb x y ≡ true = ground (arith, e) in rw (e, f) (omega (arith, count_split x ys))
]

-- Against a pool that is not empty, a percentile counts: its value is the share of the pool below
-- the score, rounded, and its rank is one more than the number of scores above.
pub percentile_of-counts :
    (score s : ℕ) (ss : List ℕ)
    → let pool = s ∷ ss in
      let p = percentile_of score pool in
      (p.value ≡ round_div (10000 * count_if (λ y. ltb y score) pool) (length pool))
      × (p.pool_size ≡ length pool)
      × (p.rank ≡ suc (count_if (λ y. ltb score y) pool))
unfolding percentile_of
percentile_of-counts score s ss =
    let pool = s ∷ ss in
    let below =
      bisect_left-count_if (sorted pool) score (sorted-IsSorted pool)
      ∙ sorted-count_if (λ y. ltb y score) pool in
    let upto =
      bisect_right-count_if (sorted pool) score (sorted-IsSorted pool)
      ∙ sorted-count_if (λ y. leb y score) pool in
    let size = sorted-length pool in
    (rw (below, size) refl, size, rw (upto, size) (rank_of _ _ _ (count_split score pool)))
  where
    rank_of : (n below above : ℕ) → below + above ≡ n → max (n - below + 1) 1 ≡ suc above
    rank_of n below above e = omega (arith, e)

-- A higher score has no higher rank in the same pool.
pub percentile_of-rank :
    (a b s : ℕ) (ss : List ℕ)
    → a ≤ b
    → (percentile_of b (s ∷ ss)).rank ≤ (percentile_of a (s ∷ ss)).rank
percentile_of-rank a b s ss h =
    rw ((percentile_of-counts a s ss).2, (percentile_of-counts b s ss).2) (above (s ∷ ss))
  where
    above : (xs : List ℕ) → suc (count_if (λ y. ltb b y) xs) ≤ suc (count_if (λ y. ltb a y) xs)
    above [] = omega arith
    above (x ∷ xs) = elim (Bool-cases (ltb b x)) [
      | inl e ↦ let f : ltb a x ≡ true = ground (arith, e, h) in rw (e, f) (omega (arith, above xs))
      | inr e ↦ elim (Bool-cases (ltb a x)) [
        | inl f ↦ rw (e, f) (omega (arith, above xs))
        | inr f ↦ rw (e, f) (above xs)
      ]
    ]

round_div_zero : (d : ℕ) → round_div 0 (suc d) ≡ 0
unfolding round_div
round_div_zero d =
    let e : ltb (2 * (0 % suc d)) (suc d) ≡ true = rw (zero-mod (suc d)) (ground arith) in
    rw (e, zero-div (suc d)) refl

-- In a pool of equal scores every member is first, at the value 0, in the lowest band.
pub percentile_of_ties :
    (score s : ℕ) (ss : List ℕ)
    → All (λ y. y ≡ score) (s ∷ ss)
    → let p = percentile_of score (s ∷ ss) in
      (p.value ≡ 0) × (p.rank ≡ 1) × (band p.value ≡ lower_half)
percentile_of_ties score s ss h =
    let (value, _, rank) = percentile_of-counts score s ss in
    let none_below : count_if (λ y. ltb y score) (s ∷ ss) ≡ 0 =
      count_if-none (λ y. ltb y score) (s ∷ ss)
        (All-mono (s ∷ ss) (λ y (k : y ≡ score). ground (arith, k)) h) in
    let none_above : count_if (λ y. ltb score y) (s ∷ ss) ≡ 0 =
      count_if-none (λ y. ltb score y) (s ∷ ss)
        (All-mono (s ∷ ss) (λ y (k : y ≡ score). ground (arith, k)) h) in
    let zero_value : (percentile_of score (s ∷ ss)).value ≡ 0 =
      value ∙ ap (λ k. round_div (10000 * k) (length (s ∷ ss))) none_below ∙ round_div_zero _ in
    (zero_value, rank ∙ ap suc none_above, rw zero_value (unfold band in refl))
