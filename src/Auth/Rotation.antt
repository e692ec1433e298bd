-- ===== src/Auth/Rotation.antt =====
-- Refresh tokens are single-use, and the reuse of one ends its family.
use mathlib.Core.Option.{some-injective}
use career_pilot_ai.Prelude.{
  ℕ, ◌<◌, ◌≡◌, ◌≢◌, refl, sym, subst, ap, ◌∙◌, Some, here, there, String, Bool, true, false, inl,
  inr, Option, none, some, List, [], ◌∷◌, ◌++◌, map, arith, All, Bool-cases, if◌then◌else◌, str_eq,
  eq_iff, ◌==◌, ==_refl, is_some, leb,
}
use career_pilot_ai.Auth.{
  User, RefreshToken, Store, Result, AuthError, already_used, ok, error, TokenPair, Fresh, owner,
  joined, lookup_token, revoke_where, in_family, issue_tokens, issue_next, rotate,
}

abbrev with_token : (RefreshToken → RefreshToken) → RefreshToken × User → RefreshToken × User
with_token f (r, u) = (f r, u)

-- a change that keeps the columns which a token is found by
pub record KeepsKey (f : RefreshToken → RefreshToken) : Type 0 where
  pub same_hash : (r : RefreshToken) → (f r).token_hash ≡ r.token_hash
  pub same_user : (r : RefreshToken) → (f r).user_id ≡ r.user_id

pub lookup_token-map :
    (users : List User) (hash : String) (f : RefreshToken → RefreshToken)
    (tokens : List RefreshToken) {row : RefreshToken} {user : User}
    → KeepsKey f
    → lookup_token users hash tokens ≡ some (row, user)
    → lookup_token users hash (map f tokens) ≡ some (f row, user)
unfolding lookup_token
lookup_token-map users hash f [] k h = cc
lookup_token-map users hash f (r ∷ rs) {row} {user} k h =
    simp (k.same_hash r, k.same_user r)
      (elim (Bool-cases (str_eq r.token_hash hash)) [
        | inl e ↦
            rw e (at_owner (owner users r.user_id) (lookup_token-map users hash f rs k) (rw e at h))
        | inr e ↦ rw e (lookup_token-map users hash f rs k (rw e at h))
      ])
  where
    at_owner :
        (o : Option User)
        → (lookup_token users hash rs ≡ some (row, user)
            → lookup_token users hash (map f rs) ≡ some (f row, user))
        → joined o r (lookup_token users hash rs) ≡ some (row, user)
        → joined o (f r) (lookup_token users hash (map f rs)) ≡ some (f row, user)
    at_owner none ih q = ih q
    at_owner (some u) ih q = let e = some-injective _ _ q in ap some (λ i. (f (e i).0, (e i).1))

pub lookup_token-append :
    (users : List User) (hash : String) (tokens more : List RefreshToken)
    {found : RefreshToken × User}
    → lookup_token users hash tokens ≡ some found
    → lookup_token users hash (tokens ++ more) ≡ some found
unfolding lookup_token
lookup_token-append users hash [] more h = cc
lookup_token-append users hash (r ∷ rs) more {found} h =
    elim (Bool-cases (str_eq r.token_hash hash)) [
      | inl e ↦
          rw e
            (at_owner (owner users r.user_id) (lookup_token-append users hash rs more) (rw e at h))
      | inr e ↦ rw e (lookup_token-append users hash rs more (rw e at h))
    ]
  where
    at_owner :
        (o : Option User)
        → (lookup_token users hash rs ≡ some found
            → lookup_token users hash (rs ++ more) ≡ some found)
        → joined o r (lookup_token users hash rs) ≡ some found
        → joined o r (lookup_token users hash (rs ++ more)) ≡ some found
    at_owner none ih q = ih q
    at_owner (some u) ih q = q

pub revoke_where-KeepsKey :
    (now : ℕ) (p : RefreshToken → Bool)
    → KeepsKey (λ r. if p r then record r { revoked_at = some now } else r)
revoke_where-KeepsKey now p = record {
  same_hash = λ r. elim (Bool-cases (p r)) [ inl e ↦ rw e | inr e ↦ rw e ];
  same_user = λ r. elim (Bool-cases (p r)) [ inl e ↦ rw e | inr e ↦ rw e ];
}

-- No token of the family can be used again.
abbrev pub IsEnded : String → List RefreshToken → Type 0
IsEnded family tokens = All (λ r. r.family ≡ family → is_some r.revoked_at ≡ true) tokens

pub revoke_family-IsEnded :
    (now : ℕ) (family : String) (tokens : List RefreshToken)
    → IsEnded family (revoke_where now (in_family family) tokens)
unfolding revoke_where
revoke_family-IsEnded now family [] = tt
revoke_family-IsEnded now family (r ∷ rs) = (
  elim (Bool-cases (in_family family r)) [
    | inl e ↦ rw e (λ _. refl)
    | inr e ↦ rw e (λ q. live_elsewhere q e)
  ],
  revoke_family-IsEnded now family rs,
)
  where
    live_elsewhere : r.family ≡ family → in_family family r ≡ false → is_some r.revoked_at ≡ true
    live_elsewhere q e = ground (arith, eq_iff r.family family)

error-ne-ok : {e : AuthError} {pair : TokenPair} → ¬ (error e ≡ ok pair)
error-ne-ok q = cc

abbrev token_or_blank : Result TokenPair → String
token_or_blank (ok pair) = pair.refresh_token
token_or_blank (error e) = ""

Some-last :
    {P : RefreshToken → Type 0} (f : RefreshToken → RefreshToken) (rs : List RefreshToken)
    (r : RefreshToken)
    → P (f r)
    → Some P (map f (rs ++ r ∷ []))
Some-last f [] r h = here h
Some-last f (x ∷ rs) r h = there (Some-last f rs r h)

module _ (hash_token : String → String) where
  -- Presenting a refresh token that was revoked is refused, and revokes every token of its family.
  pub rotate_reused :
      (now : ℕ) (fresh : Fresh) (token : String) (store : Store) {row : RefreshToken} {user : User}
      → lookup_token store.users (hash_token token) store.tokens ≡ some (row, user)
      → is_some row.revoked_at ≡ true
      → ((rotate hash_token now fresh token store).0 ≡ error already_used)
        × IsEnded row.family (rotate hash_token now fresh token store).1.tokens
  unfolding rotate
  rotate_reused now fresh token store {row} h r =
      rw h (rw r (refl, revoke_family-IsEnded now row.family store.tokens))

  -- what it leaves of the tokens
  reused_tokens :
      (now : ℕ) (fresh : Fresh) (token : String) (store : Store) {row : RefreshToken} {user : User}
      → lookup_token store.users (hash_token token) store.tokens ≡ some (row, user)
      → is_some row.revoked_at ≡ true
      → (rotate hash_token now fresh token store).1.tokens
        ≡ revoke_where now (in_family row.family) store.tokens
  unfolding rotate
  reused_tokens now fresh token store h r = rw h (rw r refl)

  -- the token that a rotation returned replaced the row, in its family, and is revoked
  abbrev pub IsReplacement : RefreshToken → TokenPair → RefreshToken → Type 0
  IsReplacement row pair r =
      (r.token_hash ≡ hash_token pair.refresh_token)
      × (r.family ≡ row.family)
      × (is_some r.revoked_at ≡ true)

  replaced :
      (now now' : ℕ) (fresh : Fresh) (row : RefreshToken) (user : User) (store : Store)
      {pair : TokenPair}
      → row.family ≢ ""
      → (issue_next hash_token now fresh row user store).0 ≡ ok pair
      → Some (IsReplacement row pair) (
          revoke_where now'
            (in_family row.family)
            (issue_next hash_token now fresh row user store).1.tokens)
  unfolding issue_next issue_tokens revoke_where
  replaced now now' fresh row user store {pair} n k =
      Some-last _ (revoke_where now (λ r. r.id == row.id) store.tokens) _ (
        rw kept (rw ((eq_iff row.family row.family).1 refl) (ap hash_token token_kept, refl, refl)))
    where
      kept : str_eq row.family "" ≡ false
      kept = elim (Bool-cases (str_eq row.family "")) [
        | inl e ↦ absurd (n ((eq_iff row.family "").0 e))
        | inr e ↦ e
      ]

      token_kept : fresh.token ≡ pair.refresh_token
      token_kept = unfold issue_next issue_tokens in ap token_or_blank k

  module _ (now : ℕ) (fresh : Fresh) (token : String) (store : Store) {row : RefreshToken}
      {user : User} where
    -- what a rotation that succeeds has checked, and what it does
    rotated :
        {pair : TokenPair}
        → lookup_token store.users (hash_token token) store.tokens ≡ some (row, user)
        → (rotate hash_token now fresh token store).0 ≡ ok pair
        → (is_some row.revoked_at ≡ false)
          × (now < row.expires_at)
          × (rotate hash_token now fresh token store
              ≡ issue_next hash_token now fresh row user store)
    unfolding rotate
    rotated {pair} h k = go (is_some row.revoked_at) (leb row.expires_at now) refl refl
      where
        go :
            (r e : Bool)
            → is_some row.revoked_at ≡ r
            → leb row.expires_at now ≡ e
            → (is_some row.revoked_at ≡ false)
              × (now < row.expires_at)
              × (rotate hash_token now fresh token store
                  ≡ issue_next hash_token now fresh row user store)
        go true e p q = absurd (error-ne-ok (rw p at (rw h at k)))
        go false true p q = absurd (error-ne-ok (rw q at (rw p at (rw h at k))))
        go false false p q = (p, ground arith, rw h (rw p (rw q)))

    -- the row of a token that was just rotated is revoked
    spent_row :
        lookup_token store.users (hash_token token) store.tokens ≡ some (row, user)
        → lookup_token store.users
            (hash_token token)
            (issue_next hash_token now fresh row user store).1.tokens
          ≡ some (record row { revoked_at = some now }, user)
    unfolding issue_next
    spent_row h =
        lookup_token-append store.users (hash_token token)
          (revoke_where now (λ r. r.id == row.id) store.tokens) _
          (marked
            ∙ ap (λ b. some (if b then record row { revoked_at = some now } else row, user))
                (==_refl row.id))
      where
        marked :
            lookup_token store.users
              (hash_token token)
              (revoke_where now (λ r. r.id == row.id) store.tokens)
            ≡ some (if row.id == row.id then record row { revoked_at = some now } else row, user)
        marked =
            unfold revoke_where in
            lookup_token-map store.users (hash_token token) _ store.tokens
              (revoke_where-KeepsKey now (λ r. r.id == row.id)) h

  -- A token that was rotated is spent. The rotation that succeeded had found it neither revoked nor
  -- expired; presenting it once more is refused, and revokes every token of the family. The token
  -- that replaced it is in the store, in the same family, and is revoked with the others. A family
  -- is not the empty text.
  pub rotate_twice :
      (now now' : ℕ) (fresh fresh' : Fresh) (token : String) (store : Store) {row : RefreshToken}
      {user : User} {pair : TokenPair}
      → lookup_token store.users (hash_token token) store.tokens ≡ some (row, user)
      → (rotate hash_token now fresh token store).0 ≡ ok pair
      → row.family ≢ ""
      → let again =
          rotate hash_token now' fresh' token (rotate hash_token now fresh token store).1 in
        (is_some row.revoked_at ≡ false)
        × (now < row.expires_at)
        × (again.0 ≡ error already_used)
        × IsEnded row.family again.1.tokens
        × Some (IsReplacement row pair) again.1.tokens
  rotate_twice now now' fresh fresh' token store {row} {user} {pair} h k n =
      let (live, in_time, done) = rotated now fresh token store h k in
      let (refused, ended) =
        rotate_reused now' fresh' token (issue_next hash_token now fresh row user store).1
          (same_users ∙ spent_row now fresh token store h) refl in
      let kept =
        reused_tokens now' fresh' token (issue_next hash_token now fresh row user store).1
          (same_users ∙ spent_row now fresh token store h) refl in
      (
        live,
        in_time,
        rw done refused,
        rw done ended,
        rw done (
            subst (λ ts. Some (IsReplacement row pair) ts) (sym kept)
              (replaced now now' fresh row user store n (ap (λ r. r.0) (sym done) ∙ k))),
      )
    where
      same_users :
          lookup_token
            (issue_next hash_token now fresh row user store).1.users
            (hash_token token)
            (issue_next hash_token now fresh row user store).1.tokens
          ≡ lookup_token store.users
              (hash_token token)
              (issue_next hash_token now fresh row user store).1.tokens
      same_users = unfold issue_next issue_tokens in refl
