-- ===== src/Matching.antt =====
-- backend/app/domain/matching/gates.py, with the snapshots of backend/app/domain/models.py that it
-- reads. Instants are in seconds, years of experience in one fixed unit, and `str.upper` and
-- `str.casefold`, which are Unicode tables, are arguments.
pub mod Gates
pub mod Fusion
pub mod Rerank
pub mod Shortlist
pub mod Funnel
pub mod Requirements
pub mod Extraction
use career_pilot_ai.Prelude.{
  ℕ, ◌+◌, ◌*◌, String, Bool, true, false, ◌&&◌, ◌||◌, not, Option, none, some, List, [], ◌∷◌, ◌++◌,
  map, ltb, leb, if◌then◌else◌, any, keep_if, is_none, is_empty, str_eq,
}

pub data RemoteType : Type 0 where
  on_site hybrid remote : RemoteType

pub data UrlStatus : Type 0 where
  unknown live redirected gone blocked : UrlStatus

pub data WorkStatus : Type 0 where
  citizen permanent_resident work_visa requires_sponsorship no_status : WorkStatus

pub record WorkAuthorization : Type 0 where
  pub country : String
  pub status : WorkStatus

abbrev pub is_authorized : WorkAuthorization → Bool
is_authorized auth = elim auth.status [
  | citizen ↦ true
  | permanent_resident ↦ true
  | work_visa ↦ true
  | requires_sponsorship ↦ false
  | no_status ↦ false
]

-- `level` is the place of the CEFR level in its order, and 0 where none was stated.
pub record LanguageAbility : Type 0 where
  pub language : String
  pub level : ℕ

pub record CandidateSnapshot : Type 0 where
  pub years_experience : Option ℕ
  pub locations : List String
  pub countries : List String
  pub open_to_remote : Bool
  pub work_authorization : List WorkAuthorization
  pub languages : List LanguageAbility

pub record PostingSnapshot : Type 0 where
  pub remote_type : Option RemoteType
  pub countries : List String
  pub cities : List String
  pub posted_at : Option ℕ
  pub url_status : UrlStatus
  pub last_verified_at : Option ℕ
  pub min_years : Option ℕ
  pub requires_authorization_in : List String
  pub offers_sponsorship : Option Bool
  pub required_languages : List LanguageAbility

pub data GateFailure : Type 0 where
  work_authorization location seniority_floor language freshness unverified_url : GateFailure

pub record GateConfig : Type 0 where
  pub max_years_shortfall : ℕ
  pub max_posting_age_days : ℕ
  pub require_verified_url : Bool
  pub verification_window_hours : ℕ

pub record GateResult : Type 0 where
  pub passed : Bool
  pub failures : List GateFailure

abbrev pub is_member : String → List String → Bool
is_member s = any (str_eq s)

-- `bool(a & b)` of two sets
abbrev pub intersects : List String → List String → Bool
intersects xs ys = any (λ x. is_member x ys) xs

abbrev pub is_stated : String → Bool
is_stated s = not (str_eq s "")

pub starts_with : String → String → Bool
starts_with String.[] s = true
starts_with (String.◌∷◌ c p) String.[] = false
starts_with (String.◌∷◌ c p) (String.◌∷◌ d s) =
    str_eq (String.◌∷◌ c "") (String.◌∷◌ d "") && starts_with p s

-- `p in s` of two texts
unfoldable pub contains : String → String → Bool
unfolding starts_with
contains p String.[] = starts_with p ""
contains p (String.◌∷◌ c s) = starts_with p (String.◌∷◌ c s) || contains p s

abbrev pub is_true : Option Bool → Bool
is_true none = false
is_true (some b) = b

abbrev pub is_remote : Option RemoteType → Bool
is_remote (some remote) = true
is_remote _ = false

abbrev pub is_live : UrlStatus → Bool
is_live live = true
is_live _ = false

abbrev pub is_held : Option ℕ → ℕ → Bool
is_held none level = false
is_held (some held) level = not (ltb 0 level && ltb held level)

module _ (upper casefold : String → String) where
  unfoldable pub work_authorization_ok : CandidateSnapshot → PostingSnapshot → Bool
  work_authorization_ok candidate posting =
      is_empty posting.requires_authorization_in
      || is_true posting.offers_sponsorship
      || intersects (map upper posting.requires_authorization_in) (
          map (λ (a : WorkAuthorization). upper a.country)
            (keep_if is_authorized candidate.work_authorization))

  -- no place stated on one side passes
  abbrev pub overlap_or_silent : List String → List String → Bool → Bool
  overlap_or_silent xs ys otherwise =
      if not (is_empty xs) && not (is_empty ys) then intersects xs ys else otherwise

  unfoldable pub reachable_place : List String → List String → Bool
  reachable_place places declared =
      if not (is_empty places) && not (is_empty declared)
      then any (λ place. is_member place declared || any (contains place) declared) places
      else true

  unfoldable pub location_ok : CandidateSnapshot → PostingSnapshot → Bool
  unfolding reachable_place
  location_ok candidate posting =
      let posting_countries = map upper (keep_if is_stated posting.countries) in
      let candidate_countries = map upper candidate.countries in
      if is_remote posting.remote_type
      then candidate.open_to_remote && overlap_or_silent posting_countries candidate_countries true
      else if is_none posting.remote_type && is_empty posting.countries && is_empty posting.cities
      then true
      else if is_empty candidate.countries && is_empty candidate.locations
      then true
      else overlap_or_silent posting_countries candidate_countries (
          reachable_place (map casefold (keep_if is_stated posting.cities))
            (map casefold candidate.locations))

  -- `declared.get(language)` on a dict in which a later declaration replaces an earlier one
  unfoldable pub held_level : String → List LanguageAbility → Option ℕ
  held_level l [] = none
  held_level l (a ∷ as') =
      let later = held_level l as' in
      if not (is_none later)
      then later
      else if str_eq l (casefold a.language)
      then some a.level
      else none

  unfoldable pub language_ok : CandidateSnapshot → List LanguageAbility → Bool
  unfolding held_level
  language_ok candidate [] = true
  language_ok candidate (required ∷ rest) =
      is_held (held_level (casefold required.language) candidate.languages) required.level
      && language_ok candidate rest

abbrev pub within : Option ℕ → ℕ → ℕ → Bool
within none window now = true
within (some at) window now = leb now (at + window)

unfoldable pub seniority_ok : CandidateSnapshot → PostingSnapshot → GateConfig → Bool
seniority_ok candidate posting config = elim posting.min_years [
  | none ↦ true
  | some needed ↦ elim candidate.years_experience [
    | none ↦ true
    | some held ↦ leb needed (held + config.max_years_shortfall)
  ]
]

unfoldable pub freshness_ok : PostingSnapshot → GateConfig → ℕ → Bool × Bool
freshness_ok posting config now = (
  within posting.posted_at (config.max_posting_age_days * 86400) now,
  not config.require_verified_url
      || (is_live posting.url_status
          && within posting.last_verified_at (config.verification_window_hours * 3600) now),
)

-- `if not ok: failures.append(failure)`
abbrev pub failing : Bool → GateFailure → List GateFailure
failing ok failure = if ok then [] else failure ∷ []

unfoldable pub evaluate_gates :
    (upper casefold : String → String)
    → CandidateSnapshot
    → PostingSnapshot
    → GateConfig
    → ℕ
    → GateResult
unfolding work_authorization_ok location_ok seniority_ok language_ok freshness_ok
evaluate_gates upper casefold candidate posting config now =
    let (fresh, url) = freshness_ok posting config now in
    let failures =
      failing (work_authorization_ok upper casefold candidate posting) work_authorization
      ++ failing (location_ok upper casefold candidate posting) location
      ++ failing (seniority_ok candidate posting config) seniority_floor
      ++ failing (language_ok upper casefold candidate posting.required_languages) language
      ++ failing fresh freshness
      ++ failing url unverified_url in
    record { passed = is_empty failures; failures = failures }
