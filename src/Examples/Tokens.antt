-- ===== src/Examples/Tokens.antt =====
-- backend/app/services/auth.py at concrete inputs. The digest is a concrete function.
use mathlib.Core.Bool.{false≢true}
use career_pilot_ai.Prelude.{
  ℕ, ◌+◌, ◌<◌, ◌≡◌, ◌≢◌, refl, Some, eq_iff, String, false, Option, some, none, [], ◌∷◌, is_some,
}
use career_pilot_ai.Auth.{
  User, RefreshToken, Store, already_used, ok, error, Fresh, TokenPair, lookup_token, owner, rotate,
  refresh, Consent,
}
use career_pilot_ai.Auth.Rotation.{IsEnded, IsReplacement, rotate_twice}
use career_pilot_ai.Auth.Requests.{refresh_reused}

abbrev digest : String → String
digest s = s

abbrev ahmed : User
ahmed = record { id = 1; email = "a"; deleted_at = none }

abbrev token_row : String → Option ℕ → RefreshToken
token_row hash revoked = record {
  id = 1;
  user_id = 1;
  token_hash = hash;
  family = "f";
  revoked_at = revoked;
  expires_at = 100;
}

abbrev consent : Consent
consent = record {
  user_id = 1;
  purpose = "matching";
  policy_version = "v";
  granted_at = 0;
  revoked_at = none;
}

-- the first token was rotated, the second replaced it
abbrev stolen : Store
stolen = record {
  users = ahmed ∷ [];
  tokens = token_row "old" (some 5) ∷ token_row "new" none ∷ [];
  consents = consent ∷ [];
}

abbrev fresh : Fresh
fresh = record { id = 9; token = "next"; family = "g" }

abbrev second_fresh : Fresh
second_fresh = record { id = 10; token = "more"; family = "h" }

old_found :
    lookup_token stolen.users (digest "old") stolen.tokens ≡ some (token_row "old" (some 5), ahmed)
unfolding lookup_token owner
old_found = refl

new_found :
    lookup_token stolen.users (digest "new") stolen.tokens ≡ some (token_row "new" none, ahmed)
unfolding lookup_token owner
new_found = refl

abbrev issued : TokenPair
issued = record {
  refresh_token = "next";
  access_expires_at = 50 + 900000000;
  refresh_expires_at = 50 + 2592000000000;
}

new_rotated : (rotate digest 50 fresh "new" stolen).0 ≡ ok issued
unfolding rotate lookup_token owner
new_rotated = refl

family_kept : (token_row "new" none).family ≢ ""
family_kept e = absurd (false≢true ((eq_iff "f" "").1 e))

rotate_twice_example :
    let again = rotate digest 60 second_fresh "new" (rotate digest 50 fresh "new" stolen).1 in
    (is_some (token_row "new" none).revoked_at ≡ false)
    × (50 < 100)
    × (again.0 ≡ error already_used)
    × IsEnded "f" again.1.tokens
    × Some (IsReplacement digest (token_row "new" none) issued) again.1.tokens
rotate_twice_example =
    rotate_twice digest 50 60 fresh second_fresh "new" stolen new_found new_rotated family_kept

refresh_reused_example : refresh digest 50 fresh "old" stolen ≡ (error already_used, stolen)
refresh_reused_example = refresh_reused digest 50 fresh "old" stolen old_found refl
