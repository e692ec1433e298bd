-- ===== src/Examples/KeyPools.antt =====
-- backend/app/adapters/llm: the key pool and the chain at concrete inputs.
use career_pilot_ai.Prelude.{ℕ, ◌≡◌, ◌≢◌, refl, String, some, List, [], ◌∷◌, strip, arith}
use career_pilot_ai.Llm.KeyPool.{
  Key, ApiKeyPool, acquired, acquire, new_pool, penalise, cooldown_for,
}
use career_pilot_ai.Llm.KeyPool.Build.{IsValid, new_pool-IsValid}
use career_pilot_ai.Llm.KeyPool.Acquire.{Outcome, acquire-Outcome}
use career_pilot_ai.Llm.KeyPool.Parking.{no_call, then_acquire, acquire-penalise}
use career_pilot_ai.Llm.Chain.{answered, unavailable, Turn}

abbrev first_key : Key
first_key = record { value = "a"; index = 0; available_at = 0; uses = 0; rate_limits = 0 }

abbrev second_key : Key
second_key = record { value = "b"; index = 1; available_at = 0; uses = 0; rate_limits = 0 }

abbrev two_keys : ApiKeyPool
two_keys = record { provider = "openai"; default_cooldown = 20; keys = first_key ∷ second_key ∷ [] }

built : new_pool "openai" 20 (" a " ∷ "" ∷ "b" ∷ "a" ∷ []) ≡ some two_keys
unfolding new_pool strip
built = refl

two_keys-IsValid : IsValid two_keys
two_keys-IsValid = new_pool-IsValid "openai" 20 (" a " ∷ "" ∷ "b" ∷ "a" ∷ []) built

acquire-Outcome_example : Outcome 5 two_keys (acquire 5 two_keys).0 (acquire 5 two_keys).1
acquire-Outcome_example = acquire-Outcome 5 two_keys

after_penalty : (acquire 6 (penalise 5 "a" (some 7) two_keys)).0 ≡ acquired second_key
unfolding acquire penalise
after_penalty = refl

-- the first key is penalised, then the second one is acquired
abbrev penalised : ApiKeyPool
penalised = penalise 5 "a" (some 7) two_keys

still_parked : (acquire 7 (acquire 6 penalised).1).0 ≡ acquired (record second_key { uses = 1 })
unfolding acquire penalise
still_parked = refl

acquire-penalise_example : (record second_key { uses = 1 }).value ≢ first_key.value
acquire-penalise_example =
    acquire-penalise 5 7 "a" (some 7) two_keys two_keys-IsValid (then_acquire 6 no_call)
      (unfold cooldown_for in omega arith) still_parked

abbrev turns : List (Turn ℕ)
turns =
    record { name = "groq"; checked_at = 0; reply = unavailable "down"; replied_at = 1 }
    ∷ record { name = "openai"; checked_at = 1; reply = answered 42; replied_at = 2 }
    ∷ []

abbrev turns_name : String
turns_name = "groq"

groq-ne-openai : turns_name ≢ "openai"
groq-ne-openai e = cc
