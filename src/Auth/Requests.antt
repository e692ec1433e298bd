-- ===== src/Auth/Requests.antt =====
-- What the transaction around a request keeps of a failed rotation.
use career_pilot_ai.Prelude.{ℕ, ◌≡◌, String, true, some, is_some}
use career_pilot_ai.Auth.{
  User, RefreshToken, Store, already_used, error, Fresh, lookup_token, rotate_row, rotate, refresh,
}

module _ (hash_token : String → String) where
  -- A refresh request with a revoked token, the sign of a stolen copy, is refused, and its
  -- transaction is rolled back: no token of the family is revoked, and all that were live before
  -- the request are live after it.
  pub refresh_reused :
      (now : ℕ) (fresh : Fresh) (token : String) (store : Store) {row : RefreshToken} {user : User}
      → lookup_token store.users (hash_token token) store.tokens ≡ some (row, user)
      → is_some row.revoked_at ≡ true
      → refresh hash_token now fresh token store ≡ (error already_used, store)
  unfolding refresh rotate
  refresh_reused now fresh token store {row} h r = rw (h, rotate_row) (rw r)
