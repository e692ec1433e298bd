-- ===== src/Scoring/Rounding.antt =====
-- Rounding half to even: what it is bounded by, and that it keeps the order.
use career_pilot_ai.Prelude.{
  ℕ, suc, ◌+◌, ◌*◌, ◌⊎◌, inl, inr, ◌/◌, ◌%◌, ◌≤◌, ◌<◌, ◌≡◌, refl, sym, ap, subst, arith, ltb, ◌==◌,
  if◌then◌else◌,
}
use native.Mathlib.Nat.{div-add-mod, mod-lt, div-le_of_le-mul, div-mul-le_self, le-div_iff_mul-le}
use native.Mathlib.Decide.{dec_lt}
use career_pilot_ai.Scoring.{round_div}

-- with the quotient and the remainder as they are
rounded_up : ℕ → ℕ → ℕ → ℕ
rounded_up q r d =
    if ltb (2 * r) d then q else if ltb d (2 * r) then suc q else if q % 2 == 0 then q else suc q

rounded_up-ge : (q r d : ℕ) → (q ≤ rounded_up q r d) × (rounded_up q r d ≤ suc q)
unfolding rounded_up
rounded_up-ge q r d = ground arith

rounded_up_mono : (q r s d : ℕ) → r ≤ s → rounded_up q r d ≤ rounded_up q s d
unfolding rounded_up
rounded_up_mono q r s d h = ground (arith, h)

rounded_up_exact : (q d : ℕ) → 0 < d → rounded_up q 0 d ≡ q
unfolding rounded_up
rounded_up_exact q d h = ground (arith, h)

round_div_lem : (n d : ℕ) → round_div n d ≡ rounded_up (n / d) (n % d) d
unfolding round_div rounded_up
round_div_lem n d = refl

pub round_div-le_bound : (n d q : ℕ) → 0 < d → n ≤ d * q → round_div n d ≤ q
round_div-le_bound n d q z h =
    let below : n / d ≤ q = div-le_of_le-mul d h in
    subst (λ x. x ≤ q) (sym (round_div_lem n d))
      (elim (dec_lt (n / d) q) [
        | yes l ↦ omega (arith, l, (rounded_up-ge (n / d) (n % d) d).1)
        | no l ↦
            let e : n / d ≡ q = omega (arith, l, below) in
            let r : n % d ≡ 0 = omega (arith, div-add-mod n d, ap (λ (t : ℕ). d * t) e, h) in
            omega (arith, ap (λ (t : ℕ). rounded_up (n / d) t d) r, rounded_up_exact (n / d) d z, e)
      ])

pub round_div-ge_bound : (n d q : ℕ) → 0 < d → d * q ≤ n → q ≤ round_div n d
round_div-ge_bound n d q z h =
    let above : q ≤ n / d = (le-div_iff_mul-le z).1 (omega (arith, h)) in
    subst (λ x. q ≤ x) (sym (round_div_lem n d))
      (omega (arith, above, (rounded_up-ge (n / d) (n % d) d).0))

div_mono : (m n d : ℕ) → 0 < d → m ≤ n → m / d ≤ n / d
div_mono m n d z h = (le-div_iff_mul-le z).1 (omega (arith, div-mul-le_self m d, h))

pub round_div_mono : (m n d : ℕ) → 0 < d → m ≤ n → round_div m d ≤ round_div n d
round_div_mono m n d z h =
    let below = div_mono m n d z h in
    subst (λ x. x ≤ round_div n d) (sym (round_div_lem m d))
      (subst (λ x. rounded_up (m / d) (m % d) d ≤ x) (sym (round_div_lem n d))
        (elim (dec_lt (m / d) (n / d)) [
          | yes l ↦
              let le : rounded_up (m / d) (m % d) d ≤ rounded_up (n / d) (n % d) d = omega (
                arith,
                l,
                (rounded_up-ge (m / d) (m % d) d).1,
                (rounded_up-ge (n / d) (n % d) d).0,
              ) in
              le
          | no l ↦
              let e : m / d ≡ n / d = omega (arith, l, below) in
              let r : m % d ≤ n % d =
                omega (arith, div-add-mod m d, div-add-mod n d, ap (λ (t : ℕ). d * t) e, h) in
              omega (
                arith,
                ap (λ (t : ℕ). rounded_up t (m % d) d) e,
                rounded_up_mono (n / d) (m % d) (n % d) d r,
              )
        ]))

rounded_up-cases :
    (q r d : ℕ)
    → ((rounded_up q r d ≡ q) × (2 * r ≤ d)) ⊎ ((rounded_up q r d ≡ suc q) × (d ≤ 2 * r))
unfolding rounded_up
rounded_up-cases q r d = ground arith

rounded_up-near :
    (q r d n : ℕ)
    → d * q + r ≡ n
    → r < d
    → (2 * (d * rounded_up q r d) ≤ 2 * n + d) × (2 * n ≤ 2 * (d * rounded_up q r d) + d)
rounded_up-near q r d n e l = elim (rounded_up-cases q r d) [
  | inl (p, h) ↦ rw p (omega (arith, e, h), omega (arith, e, h))
  | inr (p, h) ↦ rw p (omega (arith, e, h, l), omega (arith, e, h))
]

-- A rounded quotient is within a half of the exact one.
pub round_div-near :
    (n d : ℕ)
    → 0 < d
    → (2 * (d * round_div n d) ≤ 2 * n + d) × (2 * n ≤ 2 * (d * round_div n d) + d)
round_div-near n d z =
    subst (λ x. (2 * (d * x) ≤ 2 * n + d) × (2 * n ≤ 2 * (d * x) + d)) (sym (round_div_lem n d))
      (rounded_up-near (n / d) (n % d) d n (div-add-mod n d) (mod-lt n z))
