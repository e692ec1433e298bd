-- ===== src/Http/Attempts.antt =====
-- How a request ends.
use career_pilot_ai.Prelude.{
  ℕ, zero, suc, ◌+◌, ◌*◌, ◌≤◌, ◌<◌, ◌≡◌, refl, ap, ◌∙◌, ◌⊎◌, inl, inr, Bool, true, false, Option,
  arith, ◌==◌, ==_iff, if◌then◌else◌, Bool-cases, subst,
}
use native.Mathlib.Decide.{dec_lt}
use career_pilot_ai.Http.{
  ConditionalState, Response, Answer, transport_error, answered, Requested, returned, rate_limited,
  unavailable, Ended, is_throttled, is_server_error, throttle_sleep, slept, ended, attempt,
  attempts, request, update,
}

-- answers that end no request by themselves
abbrev pub IsTransient : Answer → Type 0
IsTransient transport_error = Unit
IsTransient (answered r) =
    (is_throttled r.status_code ≡ true) ⊎ (is_server_error r.status_code ≡ true)

module _ (server : ℕ → Answer) (max_retry_wait : Option ℕ) (conditional : ConditionalState) where
  -- why the attempts after the first `base` ended so, `left` of them being allowed
  abbrev pub Reason : ℕ → ℕ → Ended → Requested → Type 0
  Reason base left e (returned r) =
      (0 < e.calls)
      × (server (base + e.calls) ≡ answered r)
      × (is_throttled r.status_code ≡ false)
      × (is_server_error r.status_code ≡ false)
      × (e.conditional ≡ update r conditional)
  Reason base left e (rate_limited wait) =
      (0 < e.calls)
      × ((r : Response) × (server (base + e.calls) ≡ answered r)
          × (is_throttled r.status_code ≡ true)
          × (r.retry_after ≡ wait))
      × (e.conditional ≡ conditional)
  Reason base left e unavailable =
      (e.calls ≡ left)
      × ((i : ℕ) → base < i → i ≤ base + left → IsTransient (server i))
      × (e.conditional ≡ conditional)

  abbrev pub IsExplained : ℕ → ℕ → Ended → Type 0
  IsExplained base left e =
      (e.calls ≤ left)
      × ((i : ℕ) → base < i → i < base + e.calls → IsTransient (server i))
      × Reason base left e e.result

  first-IsTransient :
      (base : ℕ) (P : ℕ → Type 0)
      → IsTransient (server (suc base))
      → ((i : ℕ) → suc base < i → P i → IsTransient (server i))
      → (i : ℕ) → base < i
      → P i
      → IsTransient (server i)
  first-IsTransient base P t h i b p = elim (dec_lt (suc base) i) [
    | yes q ↦ h i q p
    | no q ↦ let e : suc base ≡ i = omega (arith, b, q) in subst (λ n. IsTransient (server n)) e t
  ]

  slept_reason :
      (base left sleep : ℕ) (e : Ended) (r : Requested)
      → IsTransient (server (suc base))
      → Reason (suc base) left e r
      → Reason base (suc left) (slept sleep e) r
  slept_reason base left sleep e (returned r) t (p, a, b, c, d) =
      (omega arith, ap server (omega arith) ∙ a, b, c, d)
  slept_reason base left sleep e (rate_limited wait) t (p, (r, a, b, c), d) =
      (omega arith, (r, ap server (omega arith) ∙ a, b, c), d)
  slept_reason base left sleep e unavailable t (p, a, d) = (
    omega (arith, p),
    first-IsTransient base (λ i. i ≤ base + suc left) t (λ i q l. a i q (omega (arith, l))),
    d,
  )

  slept-IsExplained :
      (base left sleep : ℕ) (e : Ended)
      → IsTransient (server (suc base))
      → IsExplained (suc base) left e
      → IsExplained base (suc left) (slept sleep e)
  slept-IsExplained base left sleep e t (l, a, r) = (
    omega (arith, l),
    first-IsTransient base (λ i. i < base + suc e.calls) t (λ i q k. a i q (omega (arith, k))),
    slept_reason base left sleep e e.result t r,
  )

  -- the first attempt ends the request
  ended-IsExplained :
      (base left : ℕ) (result : Requested) (after : ConditionalState)
      → Reason base (suc left) (ended result after) result
      → IsExplained base (suc left) (ended result after)
  ended-IsExplained base left result after r =
      (omega arith, (λ i b k. absurd (omega (arith, b, k))), r)

  module _ (base left sleep : ℕ) (rest : Ended) (r : Response) (e : server (suc base) ≡ answered r)
      (h : IsExplained (suc base) left rest) where
    at_first : server (base + 1) ≡ answered r
    at_first = ap server (omega arith) ∙ e

    throttled_case :
        (b c : Bool)
        → is_throttled r.status_code ≡ true
        → IsExplained base (suc left) (
            if b
            then ended (rate_limited r.retry_after) conditional
            else if c
            then ended (rate_limited r.retry_after) conditional
            else slept sleep rest)
    throttled_case true c t =
        ended-IsExplained base left (rate_limited r.retry_after) conditional
          (omega arith, (r, at_first, t, refl), refl)
    throttled_case false true t =
        ended-IsExplained base left (rate_limited r.retry_after) conditional
          (omega arith, (r, at_first, t, refl), refl)
    throttled_case false false t = slept-IsExplained base left sleep rest (rw e (inl t)) h

    error_case :
        (last : Bool)
        → (left == 0) ≡ last
        → is_server_error r.status_code ≡ true
        → IsExplained base
            (suc left)
            (if last then ended unavailable conditional else slept sleep rest)
    error_case true l t =
        let none_left : left ≡ 0 = (==_iff left 0).0 l in
        ended-IsExplained base left unavailable conditional
          (omega (arith, none_left), only_one none_left, refl)
      where
        only_one : left ≡ 0 → (i : ℕ) → base < i → i ≤ base + suc left → IsTransient (server i)
        only_one z i b k =
            let same : suc base ≡ i = omega (arith, b, k, z) in
            subst (λ n. IsTransient (server n)) same (rw e (inr t))
    error_case false l t = slept-IsExplained base left sleep rest (rw e (inr t)) h

  attempt-IsExplained :
      (base left backoff : ℕ) (rest : Ended) (a : Answer)
      → server (suc base) ≡ a
      → IsExplained (suc base) left rest
      → IsExplained base (suc left) (attempt max_retry_wait (left == 0) backoff conditional a rest)
  unfolding attempt
  attempt-IsExplained base left backoff rest transport_error e h =
      slept-IsExplained base left backoff rest (rw e tt) h
  attempt-IsExplained base left backoff rest (answered r) e h =
      elim (Bool-cases (is_throttled r.status_code)) [
        | inl t ↦
            rw t (throttled_case base left (throttle_sleep r.retry_after backoff) rest r e h _ _ t)
        | inr t ↦ elim (Bool-cases (is_server_error r.status_code)) [
          | inl s ↦ rw (t, s) (error_case base left backoff rest r e h _ refl s)
          | inr s ↦
              rw (t, s)
                (ended-IsExplained base left (returned r) (update r conditional)
                  (omega arith, ap server (omega arith) ∙ e, t, s, refl))
        ]
      ]

  attempts-IsExplained :
      (left base backoff : ℕ)
      → IsExplained base left (attempts server max_retry_wait left (suc base) backoff conditional)
  unfolding attempts
  attempts-IsExplained zero base backoff = (
    omega arith,
    (λ i b k. absurd (omega (arith, b, k))),
    (refl, (λ i b k. absurd (omega (arith, b, k))), refl),
  )
  attempts-IsExplained (suc left) base backoff =
      attempt-IsExplained base left backoff _ (server (suc base)) refl
        (attempts-IsExplained left (suc base) (backoff * 5))

  -- A request makes no more attempts than it may, and all before the last were transient: a failure
  -- of the transport, a 429 or 503, or another server error. It returns the answer of the last
  -- attempt, which is none of these, and takes over its conditional state; or it reports the wait of
  -- a last answer that was a 429 or 503; or it gives up after all the attempts, the last of them
  -- transient too. Only a returned answer changes the conditional state.
  pub request-IsExplained :
      (max_retries : ℕ)
      → IsExplained 0 max_retries (request server max_retries max_retry_wait conditional)
  unfolding request
  request-IsExplained max_retries = attempts-IsExplained max_retries 0 1000
