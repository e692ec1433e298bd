-- ===== src/Llm/Chain.antt =====
-- backend/app/adapters/llm/chain.py: providers tried in order, with a cooldown for those that could
-- not be reached. What a provider answers to a call is an argument: the request goes over HTTP.
-- Times are whole ticks of the chain's clock.
pub mod Cooldowns
pub mod Answers
use career_pilot_ai.Prelude.{
  ℕ, ◌+◌, String, Bool, true, false, ◌&&◌, ◌||◌, not, Option, none, some, List, [], ◌∷◌, ◌++◌, ltb,
  ◌==◌, if◌then◌else◌, str_eq, is_empty,
}

-- What `provider.chat` does: it returns a completion, or raises one of three exceptions.
pub data Reply (A : Type 0) : Type 0 where
  answered : A → Reply A
  rate_limited : Option ℕ → Reply A
  unavailable : String → Reply A
  failed : String → Reply A

-- One line of the final error, by the branch that appended it.
pub data Failure : Type 0 where
  was_rate_limited : String → Failure
  was_unavailable : String → Failure
  had_error : String → String → Failure

-- `self._unavailable_until`
abbrev pub Cooldowns : Type 0
Cooldowns = List (String × ℕ)

pub until : String → Cooldowns → Option ℕ
until name [] = none
until name ((other, time) ∷ rest) = if str_eq other name then some time else until name rest

pub put : String → ℕ → Cooldowns → Cooldowns
put name time [] = (name, time) ∷ []
put name time ((other, old) ∷ rest) =
    if str_eq other name then (name, time) ∷ rest else (other, old) ∷ put name time rest

pub is_past : ℕ → Option ℕ → Bool
is_past now none = false
is_past now (some time) = ltb now time

unfoldable pub is_cooling_down : ℕ → String → Cooldowns → Bool
unfolding until is_past
is_cooling_down now name table = is_past now (until name table)

-- One provider's turn, as the environment plays it: the clock when the loop reaches the provider,
-- what a call of it would answer, and the clock when that answer is there.
pub record Turn (A : Type 0) : Type 0 where
  pub name : String
  pub checked_at : ℕ
  pub reply : Reply A
  pub replied_at : ℕ

-- `chat` returns the completion of the provider named, or raises with the failures joined.
pub data ChainResult (A : Type 0) : Type 0 where
  completed : String → A → ChainResult A
  every_provider_failed : List Failure → ChainResult A

-- `called` is the trace of the providers whose `chat` ran.
pub record Run (A : Type 0) : Type 0 where
  pub result : ChainResult A
  pub table : Cooldowns
  pub called : List String

module _ {A : Type 0} (cooldown_seconds : ℕ) where
  -- the `try` statement; `rest` is the loop over the providers that remain
  pub try_provider :
      Turn A
      → Reply A
      → (Cooldowns → List Failure → List String → Run A)
      → Cooldowns
      → List Failure
      → List String
      → Run A
  try_provider turn (answered a) rest table errors called = record {
    result = completed turn.name a;
    table = table;
    called = called ++ turn.name ∷ [];
  }
  try_provider turn (rate_limited retry_after) rest table errors called =
      rest table (errors ++ was_rate_limited turn.name ∷ []) (called ++ turn.name ∷ [])
  try_provider turn (unavailable reason) rest table errors called =
      rest (put turn.name (turn.replied_at + cooldown_seconds) table)
        (errors ++ was_unavailable turn.name ∷ []) (called ++ turn.name ∷ [])
  try_provider turn (failed reason) rest table errors called =
      rest table (errors ++ had_error turn.name reason ∷ []) (called ++ turn.name ∷ [])

  -- `self._is_cooling_down(provider) and (remaining or errors)`
  pub is_skipped : Turn A → List (Turn A) → Cooldowns → List Failure → Bool
  is_skipped turn remaining table errors =
      is_cooling_down turn.checked_at turn.name table
      && (not (is_empty remaining) || not (is_empty errors))

  pub chat_from : List (Turn A) → Cooldowns → List Failure → List String → Run A
  chat_from [] table errors called = record {
    result = every_provider_failed errors;
    table = table;
    called = called;
  }
  chat_from (turn ∷ remaining) table errors called =
      let skipped = chat_from remaining table errors called in
      let tried = try_provider turn turn.reply (chat_from remaining) table errors called in
      if is_skipped turn remaining table errors then skipped else tried

  unfoldable pub chat : List (Turn A) → Cooldowns → Run A
  unfolding try_provider is_skipped chat_from
  chat turns table = chat_from turns table [] []

-- `_FALLBACK_MODELS.get(provider.name, requested)`
pub fallback_model : String → String → String
fallback_model provider requested =
    if str_eq provider "gemini"
    then "gemini-3.5-flash"
    else if str_eq provider "ollama"
    then "llama3.1:8b"
    else requested

-- the `model=` argument of a call: only the primary serves the model that was asked for
unfoldable pub model_for : ℕ → String → String → String
unfolding fallback_model
model_for index provider requested =
    if index == 0 then requested else fallback_model provider requested

pub add_fallbacks : List String → List String → List String
add_fallbacks gemini_keys [] = []
add_fallbacks gemini_keys (name ∷ names) =
    let rest = add_fallbacks gemini_keys names in
    if str_eq name "gemini" && not (is_empty gemini_keys)
    then "gemini" ∷ rest
    else if str_eq name "ollama"
    then "ollama" ∷ rest
    else rest

-- The names of the chain's providers; `none` is the `LLMError` of an empty chain.
unfoldable pub build_provider : List String → List String → List String → Option (List String)
unfolding add_fallbacks
build_provider groq_keys gemini_keys fallbacks =
    let others = add_fallbacks gemini_keys fallbacks in
    let providers = if is_empty groq_keys then others else "groq" ∷ others in
    if is_empty providers then none else some providers
