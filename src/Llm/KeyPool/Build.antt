-- ===== src/Llm/KeyPool/Build.antt =====
-- The pool that the constructor builds, and the invariant that its operations keep.
use career_pilot_ai.Prelude.{
  ℕ, suc, ◌≡◌, ◌≢◌, refl, sym, ◌∙◌, subst, String, false, inl, inr, some, none, List, [], ◌∷◌,
  arith, if◌then◌else◌, str_eq, eq_iff, any, All, In, here, there, Bool-cases, Option, is_empty,
  ◌==◌,
}
use mathlib.Core.Option.{some-injective}
use career_pilot_ai.Llm.KeyPool.{
  Key, ApiKeyPool, clean_keys, distinct, number_keys, new_pool, use_key, park, penalise,
}

abbrev pub IsNumbered : ℕ → List Key → Type 0
IsNumbered i [] = Unit
IsNumbered i (key ∷ keys) = (key.index ≡ i) × IsNumbered (suc i) keys

abbrev pub HasDistinct : List Key → Type 0
HasDistinct [] = Unit
HasDistinct (key ∷ keys) = All (λ k. k.value ≢ key.value) keys × HasDistinct keys

-- Keys are numbered by their positions, no two have one value, and there is at least one.
pub record IsValid (pool : ApiKeyPool) : Type 0 where
  pub numbered : IsNumbered 0 pool.keys
  pub values : HasDistinct pool.keys
  pub nonempty : pool.keys ≢ []

abbrev Absent : String → List String → Type 0
Absent v seen = All (λ s. s ≢ v) seen

not-any-Absent : (v : String) (seen : List String) → any (str_eq v) seen ≡ false → Absent v seen
not-any-Absent v [] h = tt
not-any-Absent v (s ∷ seen) h =
    ((λ e. ground (arith, eq_iff v s)), not-any-Absent v seen (ground arith))

number_keys-IsNumbered : (i : ℕ) (values : List String) → IsNumbered i (number_keys i values)
unfolding number_keys
number_keys-IsNumbered i [] = tt
number_keys-IsNumbered i (v ∷ values) = (refl, number_keys-IsNumbered (suc i) values)

number_keys-All :
    (P : String → Type 0) (i : ℕ) (values : List String)
    → All P values
    → All (λ k. P k.value) (number_keys i values)
unfolding number_keys
number_keys-All P i [] h = tt
number_keys-All P i (v ∷ values) h = (h.0, number_keys-All P (suc i) values h.1)

distinct-Absent :
    (v : String) (seen keys : List String) → In v seen → All (λ k. k ≢ v) (distinct seen keys)
unfolding distinct
distinct-Absent v seen [] m = tt
distinct-Absent v seen (key ∷ keys) m = elim (Bool-cases (any (str_eq key) seen)) [
  | inl e ↦ rw e (distinct-Absent v seen keys m)
  | inr e ↦ rw e (
    (λ q. in_absent v key seen m (not-any-Absent key seen e) q),
    distinct-Absent v (key ∷ seen) keys (there m),
  )
]
  where
    in_absent : (v key : String) (seen : List String) → In v seen → Absent key seen → ¬ (key ≡ v)
    in_absent v key (s ∷ seen) (here p) a q = a.0 (p ∙ sym q)
    in_absent v key (s ∷ seen) (there m) a q = in_absent v key seen m a.1 q
    in_absent v key [] m a q = elim m [ ]

distinct-HasDistinct :
    (i : ℕ) (seen keys : List String) → HasDistinct (number_keys i (distinct seen keys))
unfolding distinct number_keys
distinct-HasDistinct i seen [] = tt
distinct-HasDistinct i seen (key ∷ keys) = elim (Bool-cases (any (str_eq key) seen)) [
  | inl e ↦ rw e (distinct-HasDistinct i seen keys)
  | inr e ↦ rw e (
    number_keys-All (λ v. v ≢ key) (suc i) (distinct (key ∷ seen) keys)
        (distinct-Absent key (key ∷ seen) keys (here refl)),
    distinct-HasDistinct (suc i) (key ∷ seen) keys,
  )
]

none-ne-some : {pool : ApiKeyPool} → ¬ (none ≡ some pool)
none-ne-some e = cc

-- A pool that the constructor returns is valid.
pub new_pool-IsValid :
    (provider : String) (cooldown : ℕ) (keys : List String) {pool : ApiKeyPool}
    → new_pool provider cooldown keys ≡ some pool
    → IsValid pool
unfolding new_pool
new_pool-IsValid provider cooldown keys {pool} h =
    go (distinct [] (clean_keys keys)) (distinct-HasDistinct 0 [] (clean_keys keys)) h
  where
    go :
        (unique : List String)
        → HasDistinct (number_keys 0 unique)
        → (if is_empty unique
            then none
            else some (record {
              provider = provider;
              default_cooldown = cooldown;
              keys = number_keys 0 unique;
            }))
          ≡ some pool
        → IsValid pool
    go [] d e = absurd (none-ne-some e)
    go (v ∷ values) d e = subst IsValid (some-injective _ _ e) (record {
      numbered = number_keys-IsNumbered 0 (v ∷ values);
      values = d;
      nonempty = unfold number_keys in λ q. cc;
    })

use_key-IsNumbered :
    (i ix : ℕ) (keys : List Key) → IsNumbered i keys → IsNumbered i (use_key ix keys)
unfolding use_key
use_key-IsNumbered i ix [] n = tt
use_key-IsNumbered i ix (key ∷ keys) n = (ground arith, use_key-IsNumbered (suc i) ix keys n.1)

use_key-All-value :
    (P : String → Type 0) (ix : ℕ) (keys : List Key)
    → All (λ k. P k.value) keys
    → All (λ k. P k.value) (use_key ix keys)
unfolding use_key
use_key-All-value P ix [] h = tt
use_key-All-value P ix (key ∷ keys) h = elim (Bool-cases (key.index == ix)) [
  | inl e ↦ rw e (h.0, use_key-All-value P ix keys h.1)
  | inr e ↦ rw e (h.0, use_key-All-value P ix keys h.1)
]

use_key-HasDistinct : (ix : ℕ) (keys : List Key) → HasDistinct keys → HasDistinct (use_key ix keys)
unfolding use_key
use_key-HasDistinct ix [] h = tt
use_key-HasDistinct ix (key ∷ keys) h = elim (Bool-cases (key.index == ix)) [
  | inl e ↦
      rw e (use_key-All-value (λ v. v ≢ key.value) ix keys h.0, use_key-HasDistinct ix keys h.1)
  | inr e ↦
      rw e (use_key-All-value (λ v. v ≢ key.value) ix keys h.0, use_key-HasDistinct ix keys h.1)
]

park-IsNumbered :
    (v : String) (until i : ℕ) (keys : List Key)
    → IsNumbered i keys
    → IsNumbered i (park v until keys)
unfolding park
park-IsNumbered v until i [] n = tt
park-IsNumbered v until i (key ∷ keys) n = elim (Bool-cases (str_eq key.value v)) [
  | inl e ↦ rw e n
  | inr e ↦ rw e (n.0, park-IsNumbered v until (suc i) keys n.1)
]

park-All-value :
    (P : String → Type 0) (v : String) (until : ℕ) (keys : List Key)
    → All (λ k. P k.value) keys
    → All (λ k. P k.value) (park v until keys)
unfolding park
park-All-value P v until [] h = tt
park-All-value P v until (key ∷ keys) h = elim (Bool-cases (str_eq key.value v)) [
  | inl e ↦ rw e h
  | inr e ↦ rw e (h.0, park-All-value P v until keys h.1)
]

park-HasDistinct :
    (v : String) (until : ℕ) (keys : List Key) → HasDistinct keys → HasDistinct (park v until keys)
unfolding park
park-HasDistinct v until [] h = tt
park-HasDistinct v until (key ∷ keys) h = elim (Bool-cases (str_eq key.value v)) [
  | inl e ↦ rw e h
  | inr e ↦
      rw e (park-All-value (λ w. w ≢ key.value) v until keys h.0, park-HasDistinct v until keys h.1)
]

use_key-ne-nil : (ix : ℕ) (keys : List Key) → keys ≢ [] → use_key ix keys ≢ []
unfolding use_key
use_key-ne-nil ix [] h e = h refl
use_key-ne-nil ix (key ∷ keys) h e = cc

park-ne-nil : (v : String) (until : ℕ) (keys : List Key) → keys ≢ [] → park v until keys ≢ []
unfolding park
park-ne-nil v until [] h e = h refl
park-ne-nil v until (key ∷ keys) h e = ground arith

pub use_key-IsValid :
    (pool : ApiKeyPool) (ix : ℕ)
    → IsValid pool
    → IsValid (record pool { keys = use_key ix pool.keys })
use_key-IsValid pool ix v = record {
  numbered = use_key-IsNumbered 0 ix pool.keys v.numbered;
  values = use_key-HasDistinct ix pool.keys v.values;
  nonempty = use_key-ne-nil ix pool.keys v.nonempty;
}

-- Parking a key keeps a pool valid.
pub penalise-IsValid :
    (now : ℕ) (value : String) (retry_after : Option ℕ) (pool : ApiKeyPool)
    → IsValid pool
    → IsValid (penalise now value retry_after pool)
unfolding penalise
penalise-IsValid now value retry_after pool v = record {
  numbered = park-IsNumbered value _ 0 pool.keys v.numbered;
  values = park-HasDistinct value _ pool.keys v.values;
  nonempty = park-ne-nil value _ pool.keys v.nonempty;
}
