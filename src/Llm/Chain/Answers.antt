-- ===== src/Llm/Chain/Answers.antt =====
-- Which providers a chat calls, and where its result comes from.
use career_pilot_ai.Prelude.{
  ℕ, ◌+◌, ◌≡◌, ◌≢◌, String, Option, none, some, true, List, [], ◌∷◌, ◌++◌, map,
}
use career_pilot_ai.Llm.Chain.{
  answered, rate_limited, unavailable, failed, Failure, was_rate_limited, was_unavailable,
  had_error, Turn, Cooldowns, completed, every_provider_failed, Run, is_cooling_down, put,
}

-- the line that a provider's call adds to the errors; an answer adds none
abbrev pub failure_of : {A : Type 0} → Turn A → Option Failure
failure_of turn = elim turn.reply [
  | answered a ↦ none
  | rate_limited retry_after ↦ some (was_rate_limited turn.name)
  | unavailable reason ↦ some (was_unavailable turn.name)
  | failed reason ↦ some (had_error turn.name reason)
]

abbrev pub name_of : {A : Type 0} → Turn A → String
name_of turn = turn.name

-- the cooldowns that a call of this provider leaves
abbrev pub table_after : {A : Type 0} → ℕ → Turn A → Cooldowns → Cooldowns
table_after cooldown turn table = elim turn.reply [
  | answered a ↦ table
  | rate_limited retry_after ↦ table
  | unavailable reason ↦ put turn.name (turn.replied_at + cooldown) table
  | failed reason ↦ table
]

-- The first list is the providers of the second that are called, in the same order: those passed
-- over are cooling down when they are reached.
pub data AreCalled {A : Type 0} (cooldown : ℕ)
    : Cooldowns → List (Turn A) → List (Turn A) → Type 0 where
  nothing : {table : Cooldowns} → AreCalled cooldown table [] []
  kept :
      (turn : Turn A) {table : Cooldowns} {tried turns : List (Turn A)}
      → AreCalled cooldown (table_after cooldown turn table) tried turns
      → AreCalled cooldown table (turn ∷ tried) (turn ∷ turns)
  skipped :
      (turn : Turn A) {table : Cooldowns} {tried turns : List (Turn A)}
      → is_cooling_down turn.checked_at turn.name table ≡ true
      → AreCalled cooldown table tried turns
      → AreCalled cooldown table tried (turn ∷ turns)

-- How a chat over `turns` ends, when `table`, `errors` and `called` are what came before: it goes
-- through the first providers, of which each that was called but the last one failed, and this one
-- answered; or through all, each that was called failed, and there is an error to raise.
pub data Ending {A : Type 0} (cooldown : ℕ) (turns : List (Turn A)) (table : Cooldowns)
    (errors : List Failure) (called : List String) (run : Run A) : Type 0 where
  answer :
      (tried reached rest : List (Turn A)) (more : List Failure) (turn : Turn A) (a : A)
      → AreCalled cooldown table (tried ++ turn ∷ []) reached
      → turns ≡ reached ++ rest
      → map failure_of tried ≡ map some more
      → turn.reply ≡ answered a
      → run.result ≡ completed turn.name a
      → run.called ≡ called ++ map name_of (tried ++ turn ∷ [])
      → Ending cooldown turns table errors called run
  failures :
      (tried : List (Turn A)) (more : List Failure)
      → AreCalled cooldown table tried turns
      → map failure_of tried ≡ map some more
      → errors ++ more ≢ []
      → run.result ≡ every_provider_failed (errors ++ more)
      → run.called ≡ called ++ map name_of tried
      → Ending cooldown turns table errors called run

module _ {A : Type 0} (cooldown : ℕ) where
  -- what the loop over the remaining providers ends in, whatever the earlier ones left
  abbrev EndsWell : List (Turn A) → (Cooldowns → List Failure → List String → Run A) → Type 0
  EndsWell remaining rest =
      (table : Cooldowns) (errors : List Failure) (called : List String)
      → errors ≢ []
      → Ending cooldown remaining table errors called (rest table errors called)
