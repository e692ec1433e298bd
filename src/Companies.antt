-- ===== src/Companies.antt =====
-- backend/app/domain/dedup/entities.py, `resolve_company`: whether an employer that a source names is a
-- known one. Scores are in ten-thousandths. The text functions are arguments: the normal form of a
-- name, its tokens, the registrable domain of a link, and the two ratios of the matching library.
pub mod Directory
pub mod Remembered
pub mod Justified
use career_pilot_ai.Prelude.{
  ℕ, ◌+◌, ◌*◌, min, String, Bool, true, false, ◌&&◌, ◌||◌, not, Option, none, some, List, [], ◌∷◌,
  ◌++◌, map, ltb, leb, ◌==◌, if◌then◌else◌, str_eq, any, all, length, is_empty, keep_if,
}

pub record CompanyRef : Type 0 where
  pub name : String
  pub domain : Option String
  pub careers_url : Option String

pub record KnownCompany : Type 0 where
  pub key : ℕ
  pub canonical_name : String
  pub domain : Option String
  pub aliases : List String

pub data Method : Type 0 where
  by_domain by_alias by_fuzzy is_new : Method

pub record CompanyResolution : Type 0 where
  pub company_key : Option ℕ
  pub confidence : ℕ
  pub method : Method
  pub needs_review : Bool
  pub matched_alias : Option String

-- What is said of texts elsewhere.
pub record Texts : Type 0 where
  pub normalize : String → String
  pub tokens : String → List String
  pub registrable_domain : String → Option String
  pub ats_hosts : List String
  pub token_set_ratio : String → String → ℕ
  pub token_sort_ratio : String → String → ℕ

abbrev pub has_token : List String → String → Bool
has_token ts t = any (λ s. str_eq s t) ts

-- `set(name.split())`
pub token_set : List String → List String
token_set [] = []
token_set (t ∷ ts) = let rest = token_set ts in if has_token rest t then rest else t ∷ rest

abbrev pub same_domain : String → Option String → Bool
same_domain domain none = false
same_domain domain (some d) = str_eq d domain

-- one known name of a company, with the company
abbrev pub Named : Type 0
Named = KnownCompany × String

pub names_of : List KnownCompany → List Named
names_of [] = []
names_of (c ∷ cs) = map (λ (a : String). (c, a)) (c.canonical_name ∷ c.aliases) ++ names_of cs

-- share of the tokens: a numerator and a denominator
abbrev pub Share : Type 0
Share = ℕ × ℕ

abbrev pub is_larger : Share → Share → Bool
is_larger a b = ltb (b.0 * a.1) (a.0 * b.1)

module _ (texts : Texts) where
  abbrev pub employer_domain : Option String → Option String
  employer_domain none = none
  employer_domain (some d) = if str_eq d "" || has_token texts.ats_hosts d then none else some d

  -- `company_domain`: the first candidate that yields a domain that is no shared host
  pub company_domain : List (Option String) → Option String
  company_domain [] = none
  company_domain (none ∷ cs) = company_domain cs
  company_domain (some c ∷ cs) =
      let rest = company_domain cs in
      if str_eq c ""
      then rest
      else elim (employer_domain (texts.registrable_domain c)) [ none ↦ rest | some d ↦ some d ]

  pub by_company_domain : String → List KnownCompany → Option KnownCompany
  unfolding company_domain
  by_company_domain domain [] = none
  by_company_domain domain (c ∷ cs) =
      let rest = by_company_domain domain cs in
      if same_domain domain (company_domain (c.domain ∷ [])) then some c else rest

  pub by_name : String → List Named → Option Named
  by_name normalized [] = none
  by_name normalized (n ∷ ns) =
      let rest = by_name normalized ns in
      if str_eq (texts.normalize n.1) normalized then some n else rest

  unfoldable pub name_similarity : String → String → ℕ
  name_similarity a b =
      if str_eq a "" || str_eq b ""
      then 0
      else min (texts.token_set_ratio a b) (texts.token_sort_ratio a b)

  unfoldable pub containment : String → String → Share
  unfolding token_set
  containment a b =
      let ta = token_set (texts.tokens a) in
      let tb = token_set (texts.tokens b) in
      if is_empty ta || is_empty tb
      then (0, 1)
      else (length (keep_if (has_token tb) ta), min (length ta) (length tb))

  unfoldable pub is_strict_subset : String → String → Bool
  unfolding token_set
  is_strict_subset a b =
      let ta = token_set (texts.tokens a) in
      let tb = token_set (texts.tokens b) in
      not (is_empty ta)
      && not (is_empty tb)
      && ((all (has_token tb) ta && ltb (length ta) (length tb))
          || (all (has_token ta) tb && ltb (length tb) (length ta)))

  -- a name of the shape of a subsidiary
  abbrev pub is_subset_hit : String → Named → Bool
  is_subset_hit normalized n =
      is_strict_subset normalized (texts.normalize n.1)
      && leb 9500 (texts.token_set_ratio normalized (texts.normalize n.1))

  abbrev pub better : String → Named → Option (ℕ × Named) → Option (ℕ × Named)
  better normalized n none = some (name_similarity normalized (texts.normalize n.1), n)
  better normalized n (some (score, m)) =
      let new = name_similarity normalized (texts.normalize n.1) in
      if ltb score new then some (new, n) else some (score, m)

  abbrev pub wider : String → Named → Option (Share × Named) → Option (Share × Named)
  wider normalized n none = some (containment normalized (texts.normalize n.1), n)
  wider normalized n (some (share, m)) =
      let new = containment normalized (texts.normalize n.1) in
      if is_larger new share then some (new, n) else some (share, m)

  pub best_of : String → List Named → Option (ℕ × Named) → Option (ℕ × Named)
  best_of normalized [] best = best
  best_of normalized (n ∷ ns) best = best_of normalized ns (better normalized n best)

  pub subset_of : String → List Named → Option (Share × Named) → Option (Share × Named)
  subset_of normalized [] hit = hit
  subset_of normalized (n ∷ ns) hit =
      subset_of normalized ns (if is_subset_hit normalized n then wider normalized n hit else hit)

  -- a resolution to no known company
  abbrev pub unresolved : ℕ → Bool → Option String → CompanyResolution
  unresolved confidence needs_review alias = record {
    company_key = none;
    confidence = confidence;
    method = is_new;
    needs_review = needs_review;
    matched_alias = alias;
  }

  -- the end of the fuzzy stage
  pub decide : ℕ → ℕ → String → Option (ℕ × Named) → Option (Share × Named) → CompanyResolution
  decide fuzzy review normalized best (some (share, n)) =
      unresolved (name_similarity normalized (texts.normalize n.1)) true (some n.1)
  decide fuzzy review normalized none none = unresolved 0 false none
  decide fuzzy review normalized (some (score, n)) none =
      if leb fuzzy score
      then record {
        company_key = some n.0.key;
        confidence = score;
        method = by_fuzzy;
        needs_review = false;
        matched_alias = some n.1;
      }
      else if leb review score
      then unresolved score true (some n.1)
      else unresolved 0 false none

  abbrev pub by_names : ℕ → ℕ → String → List Named → Option Named → CompanyResolution
  unfolding decide best_of subset_of
  by_names fuzzy review normalized names (some n) = record {
    company_key = some n.0.key;
    confidence = 10000;
    method = by_alias;
    needs_review = false;
    matched_alias = some n.1;
  }
  by_names fuzzy review normalized names none =
      decide fuzzy review normalized (best_of normalized names none)
        (subset_of normalized names none)

  abbrev pub known_by_domain : Option String → List KnownCompany → Option KnownCompany
  unfolding by_company_domain
  known_by_domain none known = none
  known_by_domain (some domain) known = by_company_domain domain known

  abbrev pub unless_domain :
      ℕ → ℕ → String → List KnownCompany → Option KnownCompany → CompanyResolution
  unfolding by_name names_of by_names
  unless_domain fuzzy review normalized known (some c) = record {
    company_key = some c.key;
    confidence = 9900;
    method = by_domain;
    needs_review = false;
    matched_alias = none;
  }
  unless_domain fuzzy review normalized known none =
      if str_eq normalized ""
      then unresolved 0 true none
      else by_names fuzzy review normalized (names_of known) (by_name normalized (names_of known))

  unfoldable pub resolve_company : ℕ → ℕ → CompanyRef → List KnownCompany → CompanyResolution
  unfolding company_domain unless_domain known_by_domain
  resolve_company fuzzy review ref known =
      unless_domain fuzzy review (texts.normalize ref.name) known
        (known_by_domain (company_domain (ref.domain ∷ ref.careers_url ∷ [])) known)
