-- ===== src/Http/Robots.antt =====
-- backend/app/adapters/http.py, `RobotsCache`: robots rules, kept for a day. What the standard
-- library's parser says of a link under some lines is an argument.
use career_pilot_ai.Prelude.{
  ℕ, ◌+◌, ◌≤◌, ◌<◌, ◌≡◌, refl, ◌∙◌, String, Bool, true, false, Option, none, some, List, [], ◌∷◌,
  arith, ltb, leb, ◌==◌, if◌then◌else◌, str_eq, eq_iff,
}
use career_pilot_ai.Http.{Requested, returned, rate_limited, unavailable}

-- `None`, and the lines that a parser was given
abbrev pub Rules : Type 0
Rules = Option (List String)

abbrev pub disallow_all : List String
disallow_all = "User-agent: *" ∷ "Disallow: /" ∷ []

unfoldable pub fetch : Requested → Rules
fetch (rate_limited wait) = some disallow_all
fetch unavailable = some disallow_all
fetch (returned r) =
    if r.status_code == 404
    then none
    else if leb 500 r.status_code
    then some disallow_all
    else some r.lines

-- origin, time and rules
pub record Cached : Type 0 where
  pub origin : String
  pub fetched_at : ℕ
  pub rules : Rules

unfoldable pub cached : String → List Cached → Option Cached
cached origin [] = none
cached origin (c ∷ cs) = if str_eq c.origin origin then some c else cached origin cs

unfoldable pub store : Cached → List Cached → List Cached
store new [] = new ∷ []
store new (c ∷ cs) =
    let rest = store new cs in if str_eq c.origin new.origin then new ∷ cs else c ∷ rest

abbrev pub is_fresh : ℕ → ℕ → Option Cached → Bool
is_fresh ttl now none = false
is_fresh ttl now (some c) = ltb now (c.fetched_at + ttl)

abbrev pub rules_of : Option Cached → Rules
rules_of none = none
rules_of (some c) = c.rules

module _ (can_fetch : List String → String → Bool) where
  abbrev pub permits : Rules → String → Bool
  permits none url = true
  permits (some lines) url = can_fetch lines url

  -- A link with its origin, if it has a host; `answer` is what a request for the rules would get.
  unfoldable pub allowed :
      ℕ → ℕ → Option String → String → Requested → List Cached → Bool × List Cached
  unfolding fetch cached store
  allowed ttl now none url answer cache = (false, cache)
  allowed ttl now (some origin) url answer cache =
      let known = cached origin cache in
      let rules = fetch answer in
      if is_fresh ttl now known then (permits (rules_of known) url, cache) else (
        permits rules url,
        store (record { origin = origin; fetched_at = now; rules = rules }) cache,
      )

cached-store :
    (new : Cached) (origin : String) (cache : List Cached)
    → cached origin (store new cache)
      ≡ (if str_eq new.origin origin then some new else cached origin cache)
unfolding cached store
cached-store new origin [] = refl
cached-store new origin (c ∷ cs) = ground (
  arith,
  cached-store new origin cs,
  eq_iff c.origin new.origin,
  eq_iff c.origin origin,
  eq_iff new.origin origin,
)

-- The rules could not be had: the site throttled or failed, or could not be reached.
abbrev pub IsRefused : Requested → Type 0
IsRefused (rate_limited wait) = Unit
IsRefused unavailable = Unit
IsRefused (returned r) = 500 ≤ r.status_code

fetch-IsRefused : (answer : Requested) → IsRefused answer → fetch answer ≡ some disallow_all
unfolding fetch
fetch-IsRefused (rate_limited wait) h = refl
fetch-IsRefused unavailable h = refl
fetch-IsRefused (returned r) h = ground (arith, h)

module _ (can_fetch : List String → String → Bool) where
  -- Where the rules of a site could not be had and are not known, no link of the site may be fetched,
  -- at that time and until the cached rules expire, whatever the site answers meanwhile, if the
  -- parser permits nothing under a full disallow.
  pub allowed-refused :
      (ttl now later : ℕ) (origin url other : String) (answer answer' : Requested)
      (cache : List Cached)
      → ((link : String) → can_fetch disallow_all link ≡ false)
      → is_fresh ttl now (cached origin cache) ≡ false
      → IsRefused answer
      → later < now + ttl
      → let after = (allowed can_fetch ttl now (some origin) url answer cache).1 in
        ((allowed can_fetch ttl now (some origin) url answer cache).0 ≡ false)
        × (allowed can_fetch ttl later (some origin) other answer' after ≡ (false, after))
  allowed-refused ttl now later origin url other answer answer' cache p stale r soon =
      let lines = fetch-IsRefused answer r in
      let same : str_eq origin origin ≡ true = (eq_iff origin origin).1 refl in
      let new : Cached = record { origin = origin; fetched_at = now; rules = some disallow_all } in
      let found : cached origin (store new cache) ≡ some new =
        cached-store new origin cache ∙ rw same refl in
      let fresh : ltb later (now + ttl) ≡ true = ground (arith, soon) in
      (
        unfold allowed in rw (stale, lines) (p url),
        unfold allowed in rw (stale, lines, found, fresh, p other) refl,
      )
