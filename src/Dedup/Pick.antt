-- ===== src/Dedup/Pick.antt =====
-- The posting that a group sends a user to.
use career_pilot_ai.Prelude.{
  ◌≤◌, ◌<◌, ◌≡◌, refl, ◌⊎◌, inl, inr, true, false, List, [], ◌∷◌, arith, All, In, here, there,
  Bool-cases, subst,
}
use career_pilot_ai.Dedup.{DedupCandidate, native_rank, is_preferred, canonical_pick}

-- `p` is the employer's own where `c` is not, or both are alike and `p` is described as fully
abbrev pub IsAsGood : DedupCandidate → DedupCandidate → Type 0
IsAsGood p c =
    (native_rank p.is_ats_native < native_rank c.is_ats_native)
    ⊎ ((native_rank p.is_ats_native ≡ native_rank c.is_ats_native)
        × (c.description_length ≤ p.description_length))

IsAsGood-refl : (a : DedupCandidate) → IsAsGood a a
IsAsGood-refl a = inr (refl, omega arith)

IsAsGood-trans : (a b c : DedupCandidate) → IsAsGood a b → IsAsGood b c → IsAsGood a c
IsAsGood-trans a b c (inl h) (inl k) = inl (omega (arith, h, k))
IsAsGood-trans a b c (inl h) (inr k) = inl (omega (arith, h, k.0))
IsAsGood-trans a b c (inr h) (inl k) = inl (omega (arith, h.0, k))
IsAsGood-trans a b c (inr h) (inr k) = inr (omega (arith, h.0, k.0), omega (arith, h.1, k.1))

preferred-IsAsGood : (a b : DedupCandidate) → is_preferred a b ≡ true → IsAsGood a b
unfolding is_preferred
preferred-IsAsGood a b h = ground (arith, h)

not_preferred-IsAsGood : (a b : DedupCandidate) → is_preferred a b ≡ false → IsAsGood b a
unfolding is_preferred
not_preferred-IsAsGood a b h = ground (arith, h)

picked :
    (best m : DedupCandidate) (cs : List DedupCandidate)
    → canonical_pick best cs ≡ m
    → In m (best ∷ cs) × All (IsAsGood m) (best ∷ cs)
unfolding canonical_pick
picked best m [] e = (here e, (subst (λ x. IsAsGood x best) e (IsAsGood-refl best), tt))
picked best m (c ∷ cs) e = elim (Bool-cases (is_preferred c best)) [
  | inl p ↦
      let (n, a) = picked c m cs (rw p at e) in
      (there n, (IsAsGood-trans m c best a.0 (preferred-IsAsGood c best p), a))
  | inr p ↦
      let (n, a) = picked best m cs (rw p at e) in
      (widen n, (a.0, (IsAsGood-trans m best c a.0 (not_preferred-IsAsGood c best p), a.1)))
]
  where
    widen : In m (best ∷ cs) → In m (best ∷ c ∷ cs)
    widen (here q) = here q
    widen (there n) = there (there n)

-- The posting that a group sends a user to is one of the group, and as good as each of it: if any
-- came from the employer's own feed then it did, and of those alike none has a longer description.
pub canonical_pick-IsAsGood :
    (best : DedupCandidate) (cs : List DedupCandidate)
    → In (canonical_pick best cs) (best ∷ cs) × All (IsAsGood (canonical_pick best cs)) (best ∷ cs)
canonical_pick-IsAsGood best cs = picked best (canonical_pick best cs) cs refl
