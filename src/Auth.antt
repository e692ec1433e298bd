-- ===== src/Auth.antt =====
-- backend/app/services/auth.py: refresh tokens, consents and the tables they live in, and the
-- transaction of backend/app/api/deps.py that every request runs in. Times are whole microseconds.
-- The digest of a token and the generated secrets, ids and families are arguments.
pub mod Rotation
pub mod Requests
pub mod Revocation
use career_pilot_ai.Prelude.{
  ℕ, zero, suc, ◌+◌, ◌*◌, String, Bool, true, false, ◌&&◌, not, Option, none, some, List, [], ◌∷◌,
  ◌++◌, map, ltb, leb, ◌==◌, if◌then◌else◌, str_eq, any, count_if, is_none, is_some,
}

pub record User : Type 0 where
  pub id : ℕ
  pub email : String
  pub deleted_at : Option ℕ

pub record RefreshToken : Type 0 where
  pub id : ℕ
  pub user_id : ℕ
  pub token_hash : String
  pub family : String
  pub revoked_at : Option ℕ
  pub expires_at : ℕ

pub record Consent : Type 0 where
  pub user_id : ℕ
  pub purpose : String
  pub policy_version : String
  pub granted_at : ℕ
  pub revoked_at : Option ℕ

pub record Store : Type 0 where
  pub users : List User
  pub tokens : List RefreshToken
  pub consents : List Consent

pub data AuthError : Type 0 where
  invalid_refresh_token already_used expired : AuthError

pub data Result (A : Type 0) : Type 0 where
  ok : A → Result A
  error : AuthError → Result A

pub record AuthenticatedUser : Type 0 where
  pub user_id : ℕ
  pub email : String

pub record TokenPair : Type 0 where
  pub refresh_token : String
  pub access_expires_at : ℕ
  pub refresh_expires_at : ℕ

-- What `secrets`, `uuid` and the database generate for one new token.
pub record Fresh : Type 0 where
  pub id : ℕ
  pub token : String
  pub family : String

-- `expiry`: 15 minutes, and 30 days
abbrev pub access_ttl : ℕ
access_ttl = 15 * 60 * 1_000_000

abbrev pub refresh_ttl : ℕ
refresh_ttl = 30 * 86_400 * 1_000_000

abbrev pub or_new : Option String → String → String
or_new none new = new
or_new (some family) new = if str_eq family "" then new else family

-- the row that a token row is joined with: `u.id = r.user_id AND u.deleted_at IS NULL`
unfoldable pub owner : List User → ℕ → Option User
owner [] id = none
owner (u ∷ us) id = if u.id == id && is_none u.deleted_at then some u else owner us id

-- a row with its owner; without one the join has no row, and the search goes on
pub joined :
    Option User → RefreshToken → Option (RefreshToken × User) → Option (RefreshToken × User)
joined none r rest = rest
joined (some u) r rest = some (r, u)

-- the first row of the join with this token's digest
unfoldable pub lookup_token : List User → String → List RefreshToken → Option (RefreshToken × User)
unfolding joined
lookup_token users hash [] = none
lookup_token users hash (r ∷ rs) =
    let rest = lookup_token users hash rs in
    if str_eq r.token_hash hash then joined (owner users r.user_id) r rest else rest

-- `UPDATE refresh_tokens SET revoked_at = now() WHERE ...`
unfoldable pub revoke_where : ℕ → (RefreshToken → Bool) → List RefreshToken → List RefreshToken
revoke_where now p = map (λ r. if p r then record r { revoked_at = some now } else r)

abbrev pub in_family : String → RefreshToken → Bool
in_family family r = str_eq r.family family && is_none r.revoked_at

abbrev pub of_user : ℕ → RefreshToken → Bool
of_user user_id r = r.user_id == user_id && is_none r.revoked_at

module _ (hash_token : String → String) where
  unfoldable pub issue_tokens :
      ℕ → Fresh → AuthenticatedUser → Option String → Store → TokenPair × Store
  issue_tokens now fresh user family store = (
    record {
      refresh_token = fresh.token;
      access_expires_at = now + access_ttl;
      refresh_expires_at = now + refresh_ttl;
    },
    record store {
      tokens =
          store.tokens
          ++ record {
            id = fresh.id;
            user_id = user.user_id;
            token_hash = hash_token fresh.token;
            family = or_new family fresh.family;
            revoked_at = none;
            expires_at = now + refresh_ttl;
          }
            ∷ [];
    },
  )

  pub issue_next : ℕ → Fresh → RefreshToken → User → Store → Result TokenPair × Store
  unfolding issue_tokens
  issue_next now fresh row user store =
      let spent = record store { tokens = revoke_where now (λ r. r.id == row.id) store.tokens } in
      let (pair, after) =
        issue_tokens now fresh (record { user_id = row.user_id; email = user.email })
          (some row.family) spent in
      (ok pair, after)

  -- the branches of `rotate`, by the row that was found
  pub rotate_row : ℕ → Fresh → Option (RefreshToken × User) → Store → Result TokenPair × Store
  unfolding issue_next
  rotate_row now fresh none store = (error invalid_refresh_token, store)
  rotate_row now fresh (some (row, user)) store =
      if is_some row.revoked_at
      then (
        error already_used,
        record store { tokens = revoke_where now (in_family row.family) store.tokens },
      )
      else if leb row.expires_at now
      then (error expired, store)
      else issue_next now fresh row user store

  unfoldable pub rotate : ℕ → Fresh → String → Store → Result TokenPair × Store
  unfolding rotate_row
  rotate now fresh refresh_token store =
      rotate_row now fresh (lookup_token store.users (hash_token refresh_token) store.tokens) store

  -- whether a row was changed, and the new store
  unfoldable pub revoke_refresh_token : ℕ → String → Store → Bool × Store
  revoke_refresh_token now refresh_token store =
      let p : RefreshToken → Bool =
        λ r. str_eq r.token_hash (hash_token refresh_token) && is_none r.revoked_at in
      (ltb 0 (count_if p store.tokens), record store { tokens = revoke_where now p store.tokens })

unfoldable pub revoke_all : ℕ → ℕ → Store → ℕ × Store
revoke_all now user_id store = (
  count_if (of_user user_id) store.tokens,
  record store { tokens = revoke_where now (of_user user_id) store.tokens },
)

-- `get_session`: committed when the request returns, rolled back when it raises
pub commit_or_roll_back : {A : Type 0} → Result A → Store → Store → Result A × Store
commit_or_roll_back (ok a) after before = (ok a, after)
commit_or_roll_back (error e) after before = (error e, before)

unfoldable pub in_session : {A : Type 0} → (Store → Result A × Store) → Store → Result A × Store
unfolding commit_or_roll_back
in_session request store =
    let (result, after) = request store in commit_or_roll_back result after store

-- `POST /auth/refresh`: the service's error becomes an `HTTPException`, which is an exception too
unfoldable pub refresh : (String → String) → ℕ → Fresh → String → Store → Result TokenPair × Store
unfolding in_session
refresh hash_token now fresh refresh_token store =
    in_session (rotate hash_token now fresh refresh_token) store

-- `POST /auth/logout` and `POST /auth/logout-all`
unfoldable pub logout : (String → String) → ℕ → String → Store → Result (Unit {0}) × Store
unfolding in_session revoke_refresh_token
logout hash_token now refresh_token =
    in_session (λ store. (ok tt, (revoke_refresh_token hash_token now refresh_token store).1))

unfoldable pub logout_all : ℕ → ℕ → Store → Result (Unit {0}) × Store
unfolding in_session revoke_all
logout_all now user_id = in_session (λ store. (ok tt, (revoke_all now user_id store).1))

abbrev pub policy_version : String
policy_version = "2026-09-09"

unfoldable pub record_consent : ℕ → ℕ → String → Store → Store
record_consent now user_id purpose store = record store {
  consents =
      store.consents
      ++ record {
        user_id = user_id;
        purpose = purpose;
        policy_version = policy_version;
        granted_at = now;
        revoked_at = none;
      }
        ∷ [];
}

abbrev pub is_given : ℕ → String → Consent → Bool
is_given user_id purpose c =
    c.user_id == user_id && str_eq c.purpose purpose && is_none c.revoked_at

unfoldable pub revoke_consent : ℕ → ℕ → String → Store → ℕ × Store
revoke_consent now user_id purpose store = (
  count_if (is_given user_id purpose) store.consents,
  record store {
    consents =
        map (λ c. if is_given user_id purpose c then record c { revoked_at = some now } else c)
          store.consents;
  },
)

unfoldable pub has_consent : ℕ → String → Store → Bool
has_consent user_id purpose store = any (is_given user_id purpose) store.consents
