-- ===== src/Llm/KeyPool/Parking.antt =====
-- A key that was parked after a rate limit is not handed out before its wait is over.
use career_pilot_ai.Prelude.{
  ℕ, ◌+◌, ◌<◌, ◌≡◌, ◌≢◌, sym, ◌∙◌, ap, subst, String, true, false, inl, inr, Option, List, [], ◌∷◌,
  arith, str_eq, eq_iff, All, All-In, All-mono, members, ◌==◌, In, here, there, Bool-cases,
}
use career_pilot_ai.Llm.KeyPool.{
  use_key, Key, ApiKeyPool, Acquired, acquired, acquire, penalise, park, cooldown_for,
}
use career_pilot_ai.Llm.KeyPool.Build.{IsValid, HasDistinct, use_key-IsValid}
use career_pilot_ai.Llm.KeyPool.Acquire.{Outcome, handed_out, all_parked, acquire-Outcome}

-- Using a key keeps a pool valid, and so does a refusal.
pub acquire-IsValid : (now : ℕ) (pool : ApiKeyPool) → IsValid pool → IsValid (acquire now pool).1
acquire-IsValid now pool v = go (acquire-Outcome now pool)
  where
    go : {r : Acquired} {after : ApiKeyPool} → Outcome now pool r after → IsValid after
    go (handed_out {key = k} m l a e) = subst IsValid (sym e) (use_key-IsValid pool k.index v)
    go (all_parked l w s e) = subst IsValid (sym e) v

park-In :
    (v : String) (until : ℕ) (k : Key) (keys : List Key)
    → HasDistinct keys
    → In k (park v until keys)
    → k.value ≡ v
    → k.available_at ≡ until
unfolding park
park-In v until k [] d m e = elim m [ ]
park-In v until k (key ∷ keys) d m e = elim (Bool-cases (str_eq key.value v)) [
  | inl p ↦ parked_here (rw p at m) p
  | inr p ↦ parked_later (park-In v until k keys d.1) (rw p at m) p
]
  where
    parked_here :
        In k (record key { available_at = until; rate_limits = key.rate_limits + 1 } ∷ keys)
        → str_eq key.value v ≡ true
        → k.available_at ≡ until
    parked_here (here q) p = ap (λ j. j.available_at) (sym q)
    parked_here (there n) p = absurd (All-In _ d.0 n (e ∙ sym ((eq_iff _ _).0 p)))

    parked_later :
        (In k (park v until keys) → k.value ≡ v → k.available_at ≡ until)
        → In k (key ∷ park v until keys)
        → str_eq key.value v ≡ false
        → k.available_at ≡ until
    parked_later ih (here q) p = absurd (ground (arith, eq_iff key.value v))
    parked_later ih (there n) p = ih n e

-- Calls of a pool by which the key with this value is not penalised.
pub data Calls (value : String) (pool : ApiKeyPool) : ApiKeyPool → Type 0 where
  no_call : Calls value pool pool
  then_acquire :
      (at : ℕ) {after : ApiKeyPool} → Calls value pool after → Calls value pool (acquire at after).1
  then_penalise :
      (at : ℕ) (other : String) (retry_after : Option ℕ) {after : ApiKeyPool}
      → other ≢ value
      → Calls value pool after
      → Calls value pool (penalise at other retry_after after)

-- A key with this value is parked until this time.
abbrev IsParked : String → ℕ → List Key → Type 0
IsParked v until = All (λ k. k.value ≡ v → k.available_at ≡ until)

use_key-IsParked :
    (v : String) (until index : ℕ) (keys : List Key)
    → IsParked v until keys
    → IsParked v until (use_key index keys)
unfolding use_key
use_key-IsParked v until index [] h = tt
use_key-IsParked v until index (key ∷ keys) (h, hs) = (
  elim (Bool-cases (key.index == index)) [ inl e ↦ rw e h | inr e ↦ rw e h ],
  use_key-IsParked v until index keys hs,
)

park-IsParked :
    (v other : String) (until later : ℕ) (keys : List Key)
    → other ≢ v
    → IsParked v until keys
    → IsParked v until (park other later keys)
unfolding park
park-IsParked v other until later [] n h = tt
park-IsParked v other until later (key ∷ keys) n (h, hs) =
    elim (Bool-cases (str_eq key.value other)) [
      | inl e ↦ rw e ((λ q. absurd (n (sym ((eq_iff key.value other).0 e) ∙ q))), hs)
      | inr e ↦ rw e (h, park-IsParked v other until later keys n hs)
    ]

acquire-IsParked :
    (v : String) (until now : ℕ) (pool : ApiKeyPool)
    → IsParked v until pool.keys
    → IsParked v until (acquire now pool).1.keys
acquire-IsParked v until now pool h = go (acquire-Outcome now pool)
  where
    go :
        {r : Acquired} {after : ApiKeyPool} → Outcome now pool r after → IsParked v until after.keys
    go (handed_out {key = k} m l a e) =
        subst (λ p. IsParked v until p.keys) (sym e) (use_key-IsParked v until k.index pool.keys h)
    go (all_parked l w s e) = subst (λ p. IsParked v until p.keys) (sym e) h

Calls-IsParked :
    (v : String) (until : ℕ) {pool after : ApiKeyPool}
    → Calls v pool after
    → IsParked v until pool.keys
    → IsParked v until after.keys
unfolding penalise
Calls-IsParked v until no_call h = h
Calls-IsParked v until (then_acquire at {after = p} c) h =
    acquire-IsParked v until at p (Calls-IsParked v until c h)
Calls-IsParked v until (then_penalise at other retry_after {after = p} n c) h =
    park-IsParked v other until _ p.keys n (Calls-IsParked v until c h)

park-IsParked_self :
    (v : String) (until : ℕ) (keys : List Key)
    → HasDistinct keys
    → IsParked v until (park v until keys)
park-IsParked_self v until keys d =
    All-mono (park v until keys) (λ k m e. park-In v until k keys d m e)
      (members (park v until keys))

-- In a valid pool, a key that was penalised at `now` is not handed out before the wait is over,
-- whatever is acquired and whatever other keys are penalised meanwhile, as long as it is not
-- penalised again: the wait that the provider asked for, or the pool's own where it asked for none.
pub acquire-penalise :
    (now later : ℕ) (value : String) (retry_after : Option ℕ) (pool : ApiKeyPool)
    {after : ApiKeyPool} {key : Key}
    → IsValid pool
    → Calls value (penalise now value retry_after pool) after
    → later < now + cooldown_for pool retry_after
    → (acquire later after).0 ≡ acquired key
    → key.value ≢ value
acquire-penalise now later value retry_after pool {after} {key} v calls early h same =
    go (acquire-Outcome later after) h
  where
    parked : IsParked value (now + cooldown_for pool retry_after) after.keys
    parked =
        Calls-IsParked value (now + cooldown_for pool retry_after) calls
          (unfold penalise in park-IsParked_self value _ pool.keys v.values)

    go : {r : Acquired} {last : ApiKeyPool} → Outcome later after r last → r ≡ acquired key → ⊥
    go (handed_out {key = k} m l a e) q =
        let e' : k ≡ key = cc in
        let at : k.available_at ≡ now + cooldown_for pool retry_after =
          All-In _ parked m (ap (λ j. j.value) e' ∙ same) in
        omega arith
    go (all_parked l w s e) q = cc
