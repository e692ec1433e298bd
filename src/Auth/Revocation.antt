-- ===== src/Auth/Revocation.antt =====
-- Ending every session of a user, and withdrawing a consent.
use career_pilot_ai.Prelude.{
  ℕ, ◌⊎◌, ◌≡◌, String, true, false, some, List, [], ◌∷◌, map, arith, any, Bool-cases, if◌then◌else◌,
  str_eq, eq_iff, ==_iff, is_none, is_some,
}
use career_pilot_ai.Auth.{
  User, RefreshToken, Consent, Store, already_used, error, Fresh, lookup_token, revoke_where,
  of_user, rotate, revoke_all, is_given, revoke_consent, has_consent,
}
use career_pilot_ai.Auth.Rotation.{lookup_token-map, revoke_where-KeepsKey, rotate_reused}

module _ (hash_token : String → String) where
  -- After every session of a user was ended, none of the user's refresh tokens can be exchanged:
  -- each is refused as already used.
  pub rotate-revoke_all :
      (now now' user_id : ℕ) (fresh : Fresh) (token : String) (store : Store) {row : RefreshToken}
      {user : User}
      → lookup_token store.users (hash_token token) store.tokens ≡ some (row, user)
      → row.user_id ≡ user_id
      → (rotate hash_token now' fresh token (revoke_all now user_id store).1).0 ≡ error already_used
  rotate-revoke_all now now' user_id fresh token store {row} {user} h u =
      (rotate_reused hash_token now' fresh token (revoke_all now user_id store).1 found
        (revoked (Bool-cases (is_none row.revoked_at)))).0
    where
      found :
          lookup_token
            (revoke_all now user_id store).1.users
            (hash_token token)
            (revoke_all now user_id store).1.tokens
          ≡ some (if of_user user_id row then record row { revoked_at = some now } else row, user)
      found =
          unfold revoke_all revoke_where in
          lookup_token-map store.users (hash_token token) _ store.tokens
            (revoke_where-KeepsKey now (of_user user_id)) h

      revoked :
          (is_none row.revoked_at ≡ true) ⊎ (is_none row.revoked_at ≡ false)
          → is_some
              (if of_user user_id row then record row { revoked_at = some now } else row).revoked_at
            ≡ true
      revoked c = ground (arith, ==_iff row.user_id user_id)

given_after :
    (user_id : ℕ) (purpose other : String) (now : ℕ) (consents : List Consent)
    → any (is_given user_id other) (
        map
          (λ c. if is_given user_id purpose c then record c { revoked_at = some now } else c)
          consents)
      ≡ (if str_eq purpose other then false else any (is_given user_id other) consents)
given_after user_id purpose other now [] = ground arith
given_after user_id purpose other now (c ∷ cs) = ground (
  arith,
  given_after user_id purpose other now cs,
  eq_iff purpose other,
  eq_iff c.purpose purpose,
  eq_iff c.purpose other,
)

-- Withdrawing a consent ends that purpose and no other of the user.
pub has_consent-revoke_consent :
    (now user_id : ℕ) (purpose other : String) (store : Store)
    → has_consent user_id other (revoke_consent now user_id purpose store).1
      ≡ (if str_eq purpose other then false else has_consent user_id other store)
unfolding has_consent revoke_consent
has_consent-revoke_consent now user_id purpose other store =
    given_after user_id purpose other now store.consents
