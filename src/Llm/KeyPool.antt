-- ===== src/Llm/KeyPool.antt =====
-- backend/app/adapters/llm/keypool.py: a provider's API keys, handed out least-used-first among
-- those that are not parked. Times are whole ticks of the pool's clock.
pub mod Build
pub mod Acquire
pub mod Parking
pub mod Fairness
use career_pilot_ai.Prelude.{
  ℕ, zero, suc, ◌+◌, ◌-◌, String, Bool, true, false, ◌&&◌, ◌||◌, Option, none, some, List, [], ◌∷◌,
  ltb, leb, ◌==◌, if◌then◌else◌, str_eq, strip, any, keep_if, is_empty, map, min, length,
}

pub record Key : Type 0 where
  pub value : String
  pub index : ℕ
  pub available_at : ℕ
  pub uses : ℕ
  pub rate_limits : ℕ

pub record ApiKeyPool : Type 0 where
  pub provider : String
  pub default_cooldown : ℕ
  pub keys : List Key

-- `[key.strip() for key in keys if key and key.strip()]`
pub clean_keys : List String → List String
clean_keys keys = keep_if (λ key. if str_eq key "" then false else true) (map strip keys)

-- `list(dict.fromkeys(cleaned))`: the first of each, in order
pub distinct : List String → List String → List String
distinct seen [] = []
distinct seen (key ∷ keys) =
    let dropped = distinct seen keys in
    let kept = key ∷ distinct (key ∷ seen) keys in if any (str_eq key) seen then dropped else kept

pub number_keys : ℕ → List String → List Key
number_keys index [] = []
number_keys index (value ∷ values) =
    record { value = value; index = index; available_at = 0; uses = 0; rate_limits = 0 }
    ∷ number_keys (suc index) values

-- `none` is the `ValueError` of a pool without keys
unfoldable pub new_pool : String → ℕ → List String → Option ApiKeyPool
unfolding clean_keys distinct number_keys
new_pool provider cooldown keys =
    let unique = distinct [] (clean_keys keys) in
    if is_empty unique
    then none
    else some
        (record { provider = provider; default_cooldown = cooldown; keys = number_keys 0 unique })

pub is_available : ℕ → Key → Bool
is_available now key = leb key.available_at now

-- the order of `(key.uses, key.index)`
pub precedes : Key → Key → Bool
precedes a b = ltb a.uses b.uses || (a.uses == b.uses && ltb a.index b.index)

-- `min(available, key=...)` over a list that begins with `best`
pub least_used : Key → List Key → Key
least_used best [] = best
least_used best (key ∷ keys) = least_used (if precedes key best then key else best) keys

pub soonest : ℕ → List Key → ℕ
soonest best [] = best
soonest best (key ∷ keys) = soonest (min best key.available_at) keys

-- `chosen.uses += 1` on the object that the list holds
pub use_key : ℕ → List Key → List Key
use_key index [] = []
use_key index (key ∷ keys) =
    (if key.index == index then record key { uses = key.uses + 1 } else key) ∷ use_key index keys

-- `exhausted` carries the exception's count of keys and `retry_after`
pub data Acquired : Type 0 where
  acquired : Key → Acquired
  exhausted : ℕ → ℕ → Acquired

abbrev pub soonest_of : List Key → ℕ
soonest_of [] = 0
soonest_of (key ∷ keys) = soonest key.available_at keys

-- the branches of `acquire`, by the list of available keys
pub acquire_among : ℕ → ApiKeyPool → List Key → Acquired × ApiKeyPool
acquire_among now pool [] = (exhausted (length pool.keys) (soonest_of pool.keys - now), pool)
acquire_among now pool (key ∷ keys) =
    let chosen = least_used key keys in
    (acquired chosen, record pool { keys = use_key chosen.index pool.keys })

unfoldable pub acquire : ℕ → ApiKeyPool → Acquired × ApiKeyPool
unfolding is_available precedes least_used soonest use_key acquire_among
acquire now pool = acquire_among now pool (keep_if (is_available now) pool.keys)

-- `retry_after if retry_after and retry_after > 0 else self._default_cooldown`
unfoldable pub cooldown_for : ApiKeyPool → Option ℕ → ℕ
cooldown_for pool none = pool.default_cooldown
cooldown_for pool (some zero) = pool.default_cooldown
cooldown_for pool (some (suc n)) = suc n

-- the first key with this value is parked, and the loop returns
pub park : String → ℕ → List Key → List Key
park value until [] = []
park value until (key ∷ keys) =
    if str_eq key.value value
    then record key { available_at = until; rate_limits = key.rate_limits + 1 } ∷ keys
    else key ∷ park value until keys

unfoldable pub penalise : ℕ → String → Option ℕ → ApiKeyPool → ApiKeyPool
unfolding cooldown_for park
penalise now value retry_after pool = record pool {
  keys = park value (now + cooldown_for pool retry_after) pool.keys;
}
