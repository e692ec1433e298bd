-- ===== src/Llm/Chain/Cooldowns.antt =====
-- The cooldowns that a chat leaves behind, and what they do to later chats.
use career_pilot_ai.Prelude.{
  ℕ, ◌+◌, ◌≡◌, refl, String, inl, inr, some, List, [], ◌∷◌, ◌++◌, arith, if◌then◌else◌, All,
  Bool-cases, ltb, str_eq, eq_iff,
}
use career_pilot_ai.Llm.Chain.{
  Reply, answered, rate_limited, unavailable, failed, Failure, was_unavailable, Turn, Cooldowns,
  Run, try_provider, is_skipped, chat_from, chat, until, put, is_cooling_down,
}

until-put :
    (name other : String) (time : ℕ) (table : Cooldowns)
    → until other (put name time table)
      ≡ (if str_eq name other then some time else until other table)
unfolding until put
until-put name other time [] = refl
until-put name other time ((key, old) ∷ rest) =
    ground
      (arith, until-put name other time rest, eq_iff name other, eq_iff key other, eq_iff key name)

-- A provider that was unavailable is cooling down exactly until its cooldown has passed; the other
-- providers are as before.
pub is_cooling_down-put :
    (now time : ℕ) (name other : String) (table : Cooldowns)
    → is_cooling_down now other (put name time table)
      ≡ (if str_eq name other then ltb now time else is_cooling_down now other table)
unfolding is_cooling_down
is_cooling_down-put now time name other table = ground (arith, until-put name other time table)

abbrev pub IsUnavailable : {A : Type 0} → Reply A → Type 0
IsUnavailable (unavailable reason) = Unit
IsUnavailable _ = ⊥

module _ {A : Type 0} (cooldown : ℕ) where
  -- the loop over the remaining providers leaves the cooldown of `name`
  abbrev Leaves : String → (Cooldowns → List Failure → List String → Run A) → Type 0
  Leaves name rest =
      (table : Cooldowns) (errors : List Failure) (called : List String)
      → until name (rest table errors called).table ≡ until name table

  try_provider-Leaves :
      (name : String) (turn : Turn A) (reply : Reply A)
      (rest : Cooldowns → List Failure → List String → Run A) (table : Cooldowns)
      (errors : List Failure) (called : List String)
      → (turn.name ≡ name → ¬ IsUnavailable reply)
      → Leaves name rest
      → until name (try_provider cooldown turn reply rest table errors called).table
        ≡ until name table
  unfolding try_provider
  try_provider-Leaves name turn (answered a) rest table errors called h k = refl
  try_provider-Leaves name turn (rate_limited r) rest table errors called h k = k _ _ _
  try_provider-Leaves name turn (unavailable reason) rest table errors called h k =
      elim (Bool-cases (str_eq turn.name name)) [
        | inl e ↦ absurd (h ((eq_iff _ _).0 e) tt)
        | inr e ↦ ground (
          arith,
          k (put turn.name (turn.replied_at + cooldown) table)
              (errors ++ was_unavailable turn.name ∷ []) (called ++ turn.name ∷ []),
          until-put turn.name name (turn.replied_at + cooldown) table,
        )
      ]
  try_provider-Leaves name turn (failed reason) rest table errors called h k = k _ _ _

  chat_from-Leaves :
      (name : String) (turns : List (Turn A))
      → All (λ t. t.name ≡ name → ¬ IsUnavailable t.reply) turns
      → Leaves name (chat_from cooldown turns)
  unfolding chat_from
  chat_from-Leaves name [] h table errors called = refl
  chat_from-Leaves name (turn ∷ turns) h table errors called =
      elim (Bool-cases (is_skipped cooldown turn turns table errors)) [
        | inl e ↦ rw e (chat_from-Leaves name turns h.1 table errors called)
        | inr e ↦ rw e (
            try_provider-Leaves name turn turn.reply (chat_from cooldown turns) table errors called
              h.0 (chat_from-Leaves name turns h.1))
      ]

-- Only an unreachable provider is parked: a chat in which no turn of that provider finds it
-- unavailable leaves its cooldown as it was, whatever was rate limited or failed.
pub until-chat :
    {A : Type 0} (cooldown : ℕ) (name : String) (turns : List (Turn A)) (table : Cooldowns)
    → All (λ t. t.name ≡ name → ¬ IsUnavailable t.reply) turns
    → until name (chat cooldown turns table).table ≡ until name table
unfolding chat
until-chat cooldown name turns table h = chat_from-Leaves cooldown name turns h table [] []
