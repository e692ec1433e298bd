-- ===== src/Scoring/Subscores/Levels.antt =====
-- `seniority_fit` and `normalize_semantic` of backend/app/domain/scoring/subscores.py.
use career_pilot_ai.Prelude.{
  ℕ, ◌-◌, ◌*◌, ◌≤◌, ◌<◌, ◌≡◌, refl, inl, inr, true, false, some, List, [], ◌∷◌, ltb, Bool-cases,
  arith, In, All, All-mono, All-In,
}
use career_pilot_ai.Scoring.{round_div}
use career_pilot_ai.Scoring.Rounding.{round_div-le_bound, round_div_mono}
use career_pilot_ai.Scoring.Subscores.{
  Normalized, Seniority, highest_of, intern, junior, mid, senior, staff, principal, is_close,
  lowest_of, normalize_semantic, order, seniority_fit,
}

order_bound : (a : Seniority) → order a ≤ 5
order_bound intern = omega arith
order_bound junior = omega arith
order_bound mid = omega arith
order_bound senior = omega arith
order_bound staff = omega arith
order_bound principal = omega arith

fit_above :
    (a b : Seniority)
    → order a < order b
    → (seniority_fit (some a) (some b)).0 ≡ 10000 - 3000 * (order b - order a)
unfolding seniority_fit
fit_above a b h = ground (arith, h)

fit_below :
    (a b : Seniority)
    → order a < order b
    → (seniority_fit (some b) (some a)).0 ≡ 10000 - 1500 * (order b - order a)
unfolding seniority_fit
fit_below a b h = ground (arith, h)

-- A level above the candidate's is penalised more than one as far below, and a level that is
-- further above no less: the fit of the same two levels the other way round is better.
pub seniority_fit_asymmetric :
    (a b c : Seniority)
    → order a < order b
    → order b ≤ order c
    → ((seniority_fit (some a) (some b)).0 < (seniority_fit (some b) (some a)).0)
      × ((seniority_fit (some a) (some c)).0 ≤ (seniority_fit (some a) (some b)).0)
      × ((seniority_fit (some c) (some a)).0 ≤ (seniority_fit (some b) (some a)).0)
seniority_fit_asymmetric a b c h k =
    let bound = order_bound b in
    let ab = fit_above a b h in
    let ba = fit_below a b h in
    let ac = fit_above a c (omega (arith, h, k)) in
    let ca = fit_below a c (omega (arith, h, k)) in
    (omega (arith, ab, ba, bound, h), omega (arith, ab, ac, k), omega (arith, ba, ca, k))

lowest_of-le : (s : ℕ) (ss : List ℕ) → All (λ x. lowest_of s ss ≤ x) (s ∷ ss)
unfolding lowest_of
lowest_of-le s [] = (omega arith, tt)
lowest_of-le s (t ∷ ts) = (
  omega arith,
  All-mono (t ∷ ts) (λ x (h : lowest_of t ts ≤ x). omega (arith, h)) (lowest_of-le t ts),
)

le-highest_of : (s : ℕ) (ss : List ℕ) → All (λ x. x ≤ highest_of s ss) (s ∷ ss)
unfolding highest_of
le-highest_of s [] = (omega arith, tt)
le-highest_of s (t ∷ ts) = (
  omega arith,
  All-mono (t ∷ ts) (λ x (h : x ≤ highest_of t ts). omega (arith, h)) (le-highest_of t ts),
)

normalize_semantic-member :
    (raw_score s : ℕ) (ss : List ℕ)
    → In raw_score (s ∷ ss)
    → is_close (highest_of s ss) (lowest_of s ss) ≡ false
    → (normalize_semantic raw_score (s ∷ ss)
        ≡ Normalized.at_least_lowest
            (round_div (10000 * (raw_score - lowest_of s ss)) (highest_of s ss - lowest_of s ss)))
      × (0 < highest_of s ss - lowest_of s ss)
      × (raw_score ≤ highest_of s ss)
unfolding normalize_semantic
normalize_semantic-member raw_score s ss m e =
    let low : lowest_of s ss ≤ raw_score = All-In (λ x. lowest_of s ss ≤ x) (lowest_of-le s ss) m in
    let high : raw_score ≤ highest_of s ss =
      All-In (λ x. x ≤ highest_of s ss) (le-highest_of s ss) m in
    let f : ltb raw_score (lowest_of s ss) ≡ false = ground (arith, low) in
    (rw (e, f) refl, ground (arith, e, low, high), high)

-- Two members of one pool keep their order when they are normalised, into 0 to 10000
-- ten-thousandths.
pub normalize_semantic_mono :
    (a b s : ℕ) (ss : List ℕ)
    → In a (s ∷ ss)
    → In b (s ∷ ss)
    → a ≤ b
    → (m n : ℕ) × (normalize_semantic a (s ∷ ss) ≡ Normalized.at_least_lowest m)
      × (normalize_semantic b (s ∷ ss) ≡ Normalized.at_least_lowest n)
      × (m ≤ n)
      × (n ≤ 10000)
normalize_semantic_mono a b s ss m n h =
    elim (Bool-cases (is_close (highest_of s ss) (lowest_of s ss))) [
      | inl e ↦ (5000, 5000, close a s ss e, close b s ss e, omega arith, omega arith)
      | inr e ↦
          let (p, z, _) = normalize_semantic-member a s ss m e in
          let (q, _, high) = normalize_semantic-member b s ss n e in
          (
            _,
            _,
            p,
            q,
            round_div_mono _ _ _ z (omega (arith, h)),
            round_div-le_bound _ _ 10000 z (omega (arith, high)),
          )
    ]
  where
    close :
        (x s : ℕ) (ss : List ℕ)
        → is_close (highest_of s ss) (lowest_of s ss) ≡ true
        → normalize_semantic x (s ∷ ss) ≡ Normalized.at_least_lowest 5000
    close x s ss e = unfold normalize_semantic in rw e refl
