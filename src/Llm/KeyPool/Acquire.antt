-- ===== src/Llm/KeyPool/Acquire.antt =====
-- What `acquire` returns, and what it leaves of the pool.
use career_pilot_ai.Prelude.{
  ℕ, ◌+◌, ◌-◌, ◌≤◌, ◌<◌, ◌≡◌, refl, ap, true, false, inl, inr, List, [], ◌∷◌, arith, keep_if,
  length, All, Some, here, there, In, min, Bool-cases, ◌⊎◌, ◌∙◌, sym, subst, In-keep_if,
  All-keep_if, keep_if-nil, All-mono,
}
use career_pilot_ai.Llm.KeyPool.{
  Key, ApiKeyPool, Acquired, acquired, exhausted, is_available, precedes, least_used, soonest,
  soonest_of, use_key, acquire,
}

least_used-In : (best : Key) (keys : List Key) → In (least_used best keys) (best ∷ keys)
unfolding least_used
least_used-In best [] = here refl
least_used-In best (key ∷ keys) = elim (Bool-cases (precedes key best)) [
  | inl e ↦ rw (e, least_used) (there (least_used-In key keys))
  | inr e ↦ rw (e, least_used) (widen (least_used-In best keys))
]
  where
    widen : {k : Key} → In k (best ∷ keys) → In k (best ∷ key ∷ keys)
    widen (here p) = here p
    widen (there m) = there (there m)

least_used-le : (best : Key) (keys : List Key) → (least_used best keys).uses ≤ best.uses
unfolding least_used precedes
least_used-le best [] = omega arith
least_used-le best (key ∷ keys) = ground (arith, least_used-le best keys, least_used-le key keys)

least_used-All-le :
    (best m : Key) (keys : List Key) → least_used best keys ≡ m → All (λ k. m.uses ≤ k.uses) keys
least_used-All-le best m [] e = tt
least_used-All-le best m (key ∷ keys) e = elim (Bool-cases (precedes key best)) [
  | inl p ↦
      let e' : least_used key keys ≡ m = unfold least_used in rw p at e in
      (omega (arith, least_used-le key keys, ap (λ k. k.uses) e'), least_used-All-le key m keys e')
  | inr p ↦
      let e' : least_used best keys ≡ m = unfold least_used in rw p at e in
      (
        not_preceding key best m p (omega (arith, least_used-le best keys, ap (λ k. k.uses) e')),
        least_used-All-le best m keys e',
      )
]
  where
    not_preceding : (a b c : Key) → precedes a b ≡ false → c.uses ≤ b.uses → c.uses ≤ a.uses
    not_preceding a b c h l = unfold precedes in ground arith

-- How an acquisition ends.
pub data Outcome (now : ℕ) (pool : ApiKeyPool) : Acquired → ApiKeyPool → Type 0 where
  handed_out :
      {key : Key} {after : ApiKeyPool}
      → In key pool.keys
      → key.available_at ≤ now
      → All (λ k. k.available_at ≤ now → key.uses ≤ k.uses) pool.keys
      → after ≡ record pool { keys = use_key key.index pool.keys }
      → Outcome now pool (acquired key) after
  all_parked :
      {wait : ℕ} {after : ApiKeyPool}
      → All (λ k. now < k.available_at) pool.keys
      → All (λ k. now + wait ≤ k.available_at) pool.keys
      → (pool.keys ≡ []) ⊎ Some (λ k. k.available_at ≡ now + wait) pool.keys
      → after ≡ pool
      → Outcome now pool (exhausted (length pool.keys) wait) after

soonest-le : (best : ℕ) (keys : List Key) → soonest best keys ≤ best
unfolding soonest
soonest-le best [] = omega arith
soonest-le best (key ∷ keys) = omega (arith, soonest-le (min best key.available_at) keys)

soonest-All-le : (best : ℕ) (keys : List Key) → All (λ k. soonest best keys ≤ k.available_at) keys
unfolding soonest
soonest-All-le best [] = tt
soonest-All-le best (key ∷ keys) = (
  omega (arith, soonest-le (min best key.available_at) keys),
  soonest-All-le (min best key.available_at) keys,
)

soonest_of-All-le : (keys : List Key) → All (λ k. soonest_of keys ≤ k.available_at) keys
soonest_of-All-le [] = tt
soonest_of-All-le (key ∷ keys) =
    (soonest-le key.available_at keys, soonest-All-le key.available_at keys)

soonest-Some :
    (best : ℕ) (keys : List Key)
    → (soonest best keys ≡ best) ⊎ Some (λ k. k.available_at ≡ soonest best keys) keys
unfolding soonest
soonest-Some best [] = inl refl
soonest-Some best (key ∷ keys) = elim (soonest-Some (min best key.available_at) keys) [
  | inl e ↦ pick (min_cases best key.available_at) e
  | inr m ↦ inr (there m)
]
  where
    min_cases : (a b : ℕ) → (min a b ≡ a) ⊎ (min a b ≡ b)
    min_cases a b = omega arith

    pick :
        (min best key.available_at ≡ best) ⊎ (min best key.available_at ≡ key.available_at)
        → soonest (min best key.available_at) keys ≡ min best key.available_at
        → (soonest (min best key.available_at) keys ≡ best)
          ⊎ Some (λ k. k.available_at ≡ soonest (min best key.available_at) keys) (key ∷ keys)
    pick (inl q) e = inl (e ∙ q)
    pick (inr q) e = inr (here (sym (e ∙ q)))

soonest_of-Some :
    (keys : List Key) → (keys ≡ []) ⊎ Some (λ k. k.available_at ≡ soonest_of keys) keys
soonest_of-Some [] = inl refl
soonest_of-Some (key ∷ keys) = elim (soonest-Some key.available_at keys) [
  | inl e ↦ inr (here (sym e))
  | inr m ↦ inr (there m)
]

module _ (now s : ℕ) where
  wait-All-le :
      (keys : List Key)
      → All (λ k. now < k.available_at) keys
      → All (λ k. s ≤ k.available_at) keys
      → All (λ k. now + (s - now) ≤ k.available_at) keys
  wait-All-le [] p l = tt
  wait-All-le (key ∷ keys) p l = (omega arith, wait-All-le keys p.1 l.1)

  wait-Some :
      (keys : List Key)
      → All (λ k. now < k.available_at) keys
      → Some (λ k. k.available_at ≡ s) keys
      → Some (λ k. k.available_at ≡ now + (s - now)) keys
  wait-Some [] p m = elim m [ ]
  wait-Some (key ∷ keys) p (here e) = here (omega arith)
  wait-Some (key ∷ keys) p (there m) = there (wait-Some keys p.1 m)

parked : (now : ℕ) (k : Key) → is_available now k ≡ false → now < k.available_at
unfolding is_available
parked now k h = ground arith

free : (now : ℕ) (k : Key) → is_available now k ≡ true → k.available_at ≤ now
unfolding is_available
free now k h = ground arith

available-All-le :
    (now : ℕ) (keys : List Key) (m : ℕ)
    → All (λ k. m ≤ k.uses) (keep_if (is_available now) keys)
    → All (λ k. k.available_at ≤ now → m ≤ k.uses) keys
unfolding is_available
available-All-le now keys m h =
    All-mono keys (λ k f l. f (ground arith))
      (All-keep_if (is_available now) (λ k. m ≤ k.uses) keys h)

handed_out_case :
    (now : ℕ) (pool : ApiKeyPool) (key : Key) (keys : List Key)
    → keep_if (is_available now) pool.keys ≡ key ∷ keys
    → Outcome now pool
        (acquired (least_used key keys))
        (record pool { keys = use_key (least_used key keys).index pool.keys })
handed_out_case now pool key keys e =
    let m = least_used key keys in
    let (listed, passes) =
      In-keep_if (is_available now) m pool.keys (subst (In m) (sym e) (least_used-In key keys)) in
    handed_out listed (free now m passes)
      (available-All-le now pool.keys m.uses (
        subst (All (λ k. m.uses ≤ k.uses)) (sym e)
          (least_used-le key keys, least_used-All-le key m keys refl)))
      refl

all_parked_case :
    (now : ℕ) (pool : ApiKeyPool)
    → keep_if (is_available now) pool.keys ≡ []
    → Outcome now pool (exhausted (length pool.keys) (soonest_of pool.keys - now)) pool
all_parked_case now pool e =
    let late = All-mono pool.keys (parked now) (keep_if-nil (is_available now) pool.keys e) in
    let s = soonest_of pool.keys in
    all_parked late (wait-All-le now s pool.keys late (soonest_of-All-le pool.keys))
      (elim (soonest_of-Some pool.keys) [
        | inl n ↦ inl n
        | inr m ↦ inr (wait-Some now s pool.keys late m)
      ])
      refl

-- Every acquisition ends in one of two ways. A key is handed out: it is not parked, no available
-- key has fewer uses, and the new pool differs only by that key's count. Or every key is parked:
-- the pool is unchanged, and no key is released before the reported wait is over.
pub acquire-Outcome :
    (now : ℕ) (pool : ApiKeyPool) → Outcome now pool (acquire now pool).0 (acquire now pool).1
acquire-Outcome now pool = go (keep_if (is_available now) pool.keys) refl
  where
    go :
        (free : List Key)
        → keep_if (is_available now) pool.keys ≡ free
        → Outcome now pool (acquire now pool).0 (acquire now pool).1
    go [] e = unfold acquire in rw e (all_parked_case now pool e)
    go (key ∷ keys) e = unfold acquire in rw e (handed_out_case now pool key keys e)
