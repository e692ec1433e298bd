-- ===== src/Matching/Gates.antt =====
-- What the gates report.
use mathlib.Core.List.{append_assoc, append-nil}
use mathlib.Core.Option.{some-injective}
use career_pilot_ai.Prelude.{
  ℕ, ◌≤◌, ◌≡◌, refl, sym, ap, ◌∙◌, ◌⊎◌, inl, inr, ◌↔◌, String, Bool, true, false, ◌&&◌, ◌||◌, not,
  Option, none, some, List, [], ◌∷◌, ◌++◌, arith, is_empty, In, here, there, not-In-nil, All, subst,
}
use career_pilot_ai.Matching.{
  CandidateSnapshot, PostingSnapshot, GateFailure, work_authorization, location, seniority_floor,
  language, freshness, unverified_url, GateConfig, LanguageAbility, work_authorization_ok,
  location_ok, seniority_ok, language_ok, freshness_ok, failing, evaluate_gates, live, held_level,
  is_held,
}

In-failing :
    (f g : GateFailure) (ok : Bool) (rest : List GateFailure)
    → In f (failing ok g ++ rest)
    → ((g ≡ f) × (ok ≡ false)) ⊎ In f rest
In-failing f g true rest m = inr m
In-failing f g false rest (here e) = inl (e, refl)
In-failing f g false rest (there m) = inr m

failing-here :
    (g : GateFailure) (ok : Bool) (rest : List GateFailure)
    → ok ≡ false
    → In g (failing ok g ++ rest)
failing-here g true rest e = absurd cc
failing-here g false rest e = here refl

failing-there :
    (f g : GateFailure) (ok : Bool) (rest : List GateFailure)
    → In f rest
    → In f (failing ok g ++ rest)
failing-there f g true rest m = m
failing-there f g false rest m = there m

-- the failures of some gates, by their checks
collect : (GateFailure → Bool) → List GateFailure → List GateFailure
collect check [] = []
collect check (g ∷ gs) = failing (check g) g ++ collect check gs

In-collect :
    (check : GateFailure → Bool) (f : GateFailure) (gs : List GateFailure)
    → In f (collect check gs)
    → check f ≡ false
unfolding collect
In-collect check f [] m = absurd (not-In-nil m)
In-collect check f (g ∷ gs) m = elim (In-failing f g (check g) (collect check gs) m) [
  | inl (e, h) ↦ ap check (sym e) ∙ h
  | inr n ↦ In-collect check f gs n
]

collect-In :
    (check : GateFailure → Bool) (f : GateFailure) (gs : List GateFailure)
    → check f ≡ false
    → In f gs
    → In f (collect check gs)
unfolding collect
collect-In check f [] h m = absurd (not-In-nil m)
collect-In check f (g ∷ gs) h (here e) =
    subst (λ x. In x (failing (check g) g ++ collect check gs)) e
      (failing-here g (check g) (collect check gs) (ap check e ∙ h))
collect-In check f (g ∷ gs) h (there m) =
    failing-there f g (check g) (collect check gs) (collect-In check f gs h m)

abbrev all_gates : List GateFailure
all_gates =
    work_authorization ∷ location ∷ seniority_floor ∷ language ∷ freshness ∷ unverified_url ∷ []

all_gates-In : (f : GateFailure) → In f all_gates
all_gates-In work_authorization = here refl
all_gates-In location = there (here refl)
all_gates-In seniority_floor = there (there (here refl))
all_gates-In language = there (there (there (here refl)))
all_gates-In freshness = there (there (there (there (here refl))))
all_gates-In unverified_url = there (there (there (there (there (here refl)))))

or-true : (b : Bool) → is_empty (failing (b || true) unverified_url) ≡ true
or-true true = refl
or-true false = refl

module _ (upper casefold : String → String) (candidate : CandidateSnapshot)
    (posting : PostingSnapshot) (config : GateConfig) (now : ℕ) where
  -- the check that a failure reports
  abbrev pub check_of : GateFailure → Bool
  check_of work_authorization = work_authorization_ok upper casefold candidate posting
  check_of location = location_ok upper casefold candidate posting
  check_of seniority_floor = seniority_ok candidate posting config
  check_of language = language_ok upper casefold candidate posting.required_languages
  check_of freshness = (freshness_ok posting config now).0
  check_of unverified_url = (freshness_ok posting config now).1

  evaluate_gates-collect :
      (evaluate_gates upper casefold candidate posting config now).failures
      ≡ collect check_of all_gates
  unfolding evaluate_gates collect
  evaluate_gates-collect = simp (append_assoc, append-nil) refl

  -- A gate is among the failures exactly where its check fails: all of them are reported.
  pub evaluate_gates-failures :
      (f : GateFailure)
      → In f (evaluate_gates upper casefold candidate posting config now).failures
        ↔ (check_of f ≡ false)
  evaluate_gates-failures f = (
    (λ m. In-collect check_of f all_gates (subst (In f) evaluate_gates-collect m)),
    (λ h.
        subst (In f) (sym evaluate_gates-collect)
          (collect-In check_of f all_gates h (all_gates-In f))),
  )

  -- A posting that states nothing (no authorisation, place, years, language or date), whose link was
  -- found live, passes every gate for every candidate.
  pub evaluate_gates_silent :
      posting.requires_authorization_in ≡ []
      → posting.remote_type ≡ none
      → posting.countries ≡ []
      → posting.cities ≡ []
      → posting.min_years ≡ none
      → posting.required_languages ≡ []
      → posting.posted_at ≡ none
      → posting.url_status ≡ live
      → posting.last_verified_at ≡ none
      → (evaluate_gates upper casefold candidate posting config now).passed ≡ true
  unfolding evaluate_gates
  evaluate_gates_silent a r c p y l d u v =
      rw (a, r, c, p, y, l, d, u, v, work_authorization_ok, location_ok, seniority_ok, language_ok)
        (or-true (not config.require_verified_url))

is_held_iff :
    (o : Option ℕ) (level : ℕ)
    → (is_held o level ≡ true) ↔ ((held : ℕ) × (o ≡ some held) × (level ≤ held))
is_held_iff none level = ((λ h. absurd cc), (λ h. absurd cc))
is_held_iff (some held) level = (
  (λ h. (held, refl, ground (arith, h))),
  (λ h. let le : level ≤ held = rw (some-injective _ _ h.1) h.2 in ground (arith, le)),
)

&&-left : (a b : Bool) → (a && b) ≡ true → a ≡ true
&&-left a b h = ground arith

&&-right : (a b : Bool) → (a && b) ≡ true → b ≡ true
&&-right a b h = ground arith

-- A posting's languages pass exactly where, for each, the candidate's last declaration of it has a
-- level that is at least the one asked.
pub language_ok_iff :
    (upper casefold : String → String) (candidate : CandidateSnapshot) (ls : List LanguageAbility)
    → (language_ok upper casefold candidate ls ≡ true)
      ↔ All
          (λ (r : LanguageAbility).
            (held : ℕ) × (held_level upper casefold (casefold r.language) candidate.languages
              ≡ some held)
            × (r.level ≤ held))
          ls
unfolding language_ok
language_ok_iff upper casefold candidate [] = ((λ _. tt), (λ _. refl))
language_ok_iff upper casefold candidate (r ∷ ls) =
    let (f, g) = language_ok_iff upper casefold candidate ls in
    let (hf, hg) =
      is_held_iff (held_level upper casefold (casefold r.language) candidate.languages) r.level in
    ((λ h. (hf (&&-left _ _ h), f (&&-right _ _ h))), (λ h. rw (hg h.0, g h.1) refl))
