-- ===== src/Llm/KeyPool/Fairness.antt =====
-- While no key is parked, the load is spread evenly: the counts differ by one at most.
use career_pilot_ai.Prelude.{
  ℕ, suc, ◌+◌, ◌≤◌, ◌<◌, ◌≡◌, ◌≢◌, sym, ap, subst, inl, inr, List, [], ◌∷◌, ◌⊎◌, arith, All, All-In,
  In, here, there, Bool-cases, ◌==◌, ==_iff,
}
use career_pilot_ai.Llm.KeyPool.{Key, ApiKeyPool, Acquired, acquire, use_key}
use career_pilot_ai.Llm.KeyPool.Build.{IsValid, IsNumbered}
use career_pilot_ai.Llm.KeyPool.Acquire.{Outcome, handed_out, all_parked, acquire-Outcome}

-- Every count is `low` or one more.
abbrev pub IsLevel : ℕ → List Key → Type 0
IsLevel low keys = All (λ k. (low ≤ k.uses) × (k.uses ≤ low + 1)) keys

index-le : (i : ℕ) (k : Key) (keys : List Key) → IsNumbered i keys → In k keys → i ≤ k.index
index-le i k [] n m = elim m [ ]
index-le i k (key ∷ keys) n (here e) = omega (arith, ap (λ j. j.index) e)
index-le i k (key ∷ keys) n (there m) = omega (arith, index-le (suc i) k keys n.1 m)

-- an index names one key
same_index :
    (i : ℕ) (k : Key) (keys : List Key)
    → IsNumbered i keys
    → In k keys
    → All (λ j. j.index ≡ k.index → j ≡ k) keys
same_index i k [] n m = tt
same_index i k (key ∷ keys) n (here e) =
    ((λ _. e), later keys (suc i) n.1 (omega (arith, ap (λ j. j.index) e)))
  where
    later :
        (rest : List Key) (l : ℕ)
        → IsNumbered l rest
        → k.index < l
        → All (λ j. j.index ≡ k.index → j ≡ k) rest
    later [] l r h = tt
    later (j ∷ rest) l r h = ((λ q. absurd (omega arith)), later rest (suc l) r.1 (omega arith))
same_index i k (key ∷ keys) n (there m) =
    ((λ q. absurd (omega (arith, index-le (suc i) k keys n.1 m))), same_index (suc i) k keys n.1 m)

use_key-All :
    (P : Key → Type 0) (ix : ℕ) (keys : List Key)
    → All (λ j. (j.index ≡ ix → P (record j { uses = j.uses + 1 })) × (j.index ≢ ix → P j)) keys
    → All P (use_key ix keys)
unfolding use_key
use_key-All P ix [] h = tt
use_key-All P ix (key ∷ keys) h = elim (Bool-cases (key.index == ix)) [
  | inl e ↦ rw e (h.0.0 ((==_iff _ _).0 e), use_key-All P ix keys h.1)
  | inr e ↦ rw e (h.0.1 (λ q. ground arith), use_key-All P ix keys h.1)
]

module _ (k : Key) (low : ℕ) where
  kept-IsLevel :
      (keys : List Key)
      → k.uses ≤ low
      → All (λ j. j.index ≡ k.index → j ≡ k) keys
      → IsLevel low keys
      → IsLevel low (use_key k.index keys)
  kept-IsLevel keys h s l = use_key-All _ k.index keys (both keys s l)
    where
      both :
          (rest : List Key)
          → All (λ j. j.index ≡ k.index → j ≡ k) rest
          → IsLevel low rest
          → All
              (λ j.
                (j.index ≡ k.index → (low ≤ j.uses + 1) × (j.uses + 1 ≤ low + 1))
                × (j.index ≢ k.index → (low ≤ j.uses) × (j.uses ≤ low + 1)))
              rest
      both [] s l = tt
      both (j ∷ rest) s l =
          (((λ q. omega (arith, ap (λ i. i.uses) (s.0 q))), (λ q. l.0)), both rest s.1 l.1)

  raised-IsLevel :
      (keys : List Key)
      → k.uses ≡ low + 1
      → All (λ j. k.uses ≤ j.uses) keys
      → All (λ j. j.index ≡ k.index → j ≡ k) keys
      → IsLevel low keys
      → IsLevel (low + 1) (use_key k.index keys)
  raised-IsLevel keys h a s l = use_key-All _ k.index keys (both keys a s l)
    where
      both :
          (rest : List Key)
          → All (λ j. k.uses ≤ j.uses) rest
          → All (λ j. j.index ≡ k.index → j ≡ k) rest
          → IsLevel low rest
          → All
              (λ j.
                (j.index ≡ k.index → (low + 1 ≤ j.uses + 1) × (j.uses + 1 ≤ low + 1 + 1))
                × (j.index ≢ k.index → (low + 1 ≤ j.uses) × (j.uses ≤ low + 1 + 1)))
              rest
      both [] a s l = tt
      both (j ∷ rest) a s l = (
        ((λ q. omega (arith, ap (λ i. i.uses) (s.0 q))), (λ q. omega arith)),
        both rest a.1 s.1 l.1,
      )

-- In a valid pool with no key parked, if all counts are equal or differ by one, then an
-- acquisition leaves counts that are equal or differ by one.
pub acquire-IsLevel :
    (now low : ℕ) (pool : ApiKeyPool)
    → IsValid pool
    → All (λ k. k.available_at ≤ now) pool.keys
    → IsLevel low pool.keys
    → (low' : ℕ) × IsLevel low' (acquire now pool).1.keys
acquire-IsLevel now low pool v free l = go (acquire-Outcome now pool)
  where
    among :
        (u : ℕ) (rest : List Key)
        → All (λ k. k.available_at ≤ now) rest
        → All (λ k. k.available_at ≤ now → u ≤ k.uses) rest
        → All (λ k. u ≤ k.uses) rest
    among u [] f a = tt
    among u (k ∷ rest) f a = (a.0 f.0, among u rest f.1 a.1)

    raise_or_keep :
        (k : Key)
        → In k pool.keys
        → All (λ j. k.uses ≤ j.uses) pool.keys
        → (k.uses ≤ low) ⊎ (k.uses ≡ low + 1)
        → (low' : ℕ) × IsLevel low' (use_key k.index pool.keys)
    raise_or_keep k m a (inl h) =
        (low, kept-IsLevel k low pool.keys h (same_index 0 k pool.keys v.numbered m) l)
    raise_or_keep k m a (inr h) =
        (low + 1, raised-IsLevel k low pool.keys h a (same_index 0 k pool.keys v.numbered m) l)

    go :
        {r : Acquired} {after : ApiKeyPool}
        → Outcome now pool r after
        → (low' : ℕ) × IsLevel low' after.keys
    go (handed_out {key = k} m h a e) =
        let (low', done) =
          raise_or_keep k m (among k.uses pool.keys free a) (let b = All-In _ l m in omega arith) in
        (low', subst (λ (p : ApiKeyPool). IsLevel low' p.keys) (sym e) done)
    go (all_parked h w s e) = (low, subst (λ (p : ApiKeyPool). IsLevel low p.keys) (sym e) l)
