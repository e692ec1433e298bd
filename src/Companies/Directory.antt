-- ===== src/Companies/Directory.antt =====
-- backend/app/services/companies.py: the employers of one run, the rows of new ones and the review
-- queue. The generated key of a row is a function of its table; keys of companies are the ids.
use career_pilot_ai.Prelude.{
  ℕ, ◌+◌, ◌*◌, ◌/◌, String, Bool, true, false, ◌&&◌, ◌||◌, not, Option, none, some, List, [], ◌∷◌,
  ◌++◌, if◌then◌else◌, str_eq, strip, any, map,
}
use Prim.Native.String.{◌++◌ as concat}
use career_pilot_ai.Companies.{
  CompanyRef, KnownCompany, CompanyResolution, Texts, company_domain, resolve_company,
}

pub record Company : Type 0 where
  pub id : ℕ
  pub canonical_name : String
  pub domain : Option String
  pub careers_url : Option String

pub record Review : Type 0 where
  pub observed_name : String
  pub observed_domain : Option String
  pub source_id : String
  pub suggested_company_id : Option ℕ
  pub confidence : ℕ
  pub matched_alias : Option String
  pub occurrences : ℕ

-- a resolution of this run, by the normal form of the name and the domain
pub record Cached : Type 0 where
  pub cache_key : String
  pub company_id : ℕ
  pub resolution : CompanyResolution

-- The directory of a run, with the two tables it writes.
pub record CompanyDirectory : Type 0 where
  pub companies : List KnownCompany
  pub cache : List Cached
  pub rows : List Company
  pub reviews : List Review

-- `CompanyDirectory.load`; the aliases of a company are those of another table
unfoldable pub load : (ℕ → List String) → List Company → List Review → CompanyDirectory
load aliases rows reviews = record {
  companies =
      map
        (λ (c : Company). record {
          key = c.id;
          canonical_name = c.canonical_name;
          domain = c.domain;
          aliases = aliases c.id;
        })
        rows;
  cache = [];
  rows = rows;
  reviews = reviews;
}

abbrev pub text_or_empty : Option String → String
text_or_empty none = ""
text_or_empty (some t) = t

unfoldable pub lookup : String → List Cached → Option Cached
lookup key [] = none
lookup key (c ∷ cs) = let rest = lookup key cs in if str_eq c.cache_key key then some c else rest

abbrev pub same_text : Option String → Option String → Bool
same_text (some a) (some b) = str_eq a b
same_text _ _ = false

unfoldable pub row_of : Option String → List Company → Option Company
row_of domain [] = none
row_of domain (c ∷ cs) =
    let rest = row_of domain cs in if same_text domain c.domain then some c else rest

-- `round(confidence, 3)`
abbrev pub rounded : ℕ → ℕ
rounded c = (c + 5) / 10 * 10

abbrev pub same_review : Review → Review → Bool
same_review a b = str_eq a.observed_name b.observed_name && str_eq a.source_id b.source_id

-- `ON CONFLICT (observed_name, source_id) DO UPDATE SET occurrences = occurrences + 1`
unfoldable pub add_review : Review → List Review → List Review
add_review r [] = r ∷ []
add_review r (q ∷ qs) =
    let rest = add_review r qs in
    if same_review q r then record q { occurrences = q.occurrences + 1 } ∷ qs else q ∷ rest

module _ (texts : Texts) (is_ats_host : Option String → Bool) (fresh : List Company → ℕ) where
  abbrev pub cache_key : CompanyRef → String
  cache_key ref = concat (texts.normalize ref.name) (concat "|" (text_or_empty ref.domain))

  abbrev pub known_as : ℕ → CompanyRef → KnownCompany
  known_as id ref = record {
    key = id;
    canonical_name = strip ref.name;
    domain = company_domain texts (ref.domain ∷ ref.careers_url ∷ []);
    aliases = [];
  }

  -- where a row holds the domain it is returned
  abbrev pub insert_company :
      CompanyRef → Option Company → CompanyDirectory → (ℕ × Bool) × CompanyDirectory
  insert_company ref (some row) d =
      ((row.id, false), record d { companies = d.companies ++ known_as row.id ref ∷ [] })
  insert_company ref none d =
      let id = fresh d.rows in
      (
        (id, true),
        record d {
          companies = d.companies ++ known_as id ref ∷ [];
          rows =
              d.rows
              ++ record {
                id = id;
                canonical_name = strip ref.name;
                domain = company_domain texts (ref.domain ∷ ref.careers_url ∷ []);
                careers_url = if is_ats_host ref.careers_url then none else ref.careers_url;
              }
                ∷ [];
        },
      )

  unfoldable pub create : CompanyRef → CompanyDirectory → (ℕ × Bool) × CompanyDirectory
  unfolding row_of
  create ref d =
      insert_company ref (row_of (company_domain texts (ref.domain ∷ ref.careers_url ∷ [])) d.rows)
        d

  -- `_lookup_by_alias`
  unfoldable pub lookup_by_alias : String → List KnownCompany → Option ℕ
  lookup_by_alias alias [] = none
  lookup_by_alias alias (c ∷ cs) =
      let rest = lookup_by_alias alias cs in
      if any (λ a. str_eq (texts.normalize a) (texts.normalize alias))
        (c.canonical_name ∷ c.aliases)
      then some c.key
      else rest

  abbrev pub suggested_for : CompanyResolution → List KnownCompany → Option ℕ
  suggested_for resolution known = elim resolution.company_key [
    | some key ↦ some key
    | none ↦ elim resolution.matched_alias [
      | none ↦ none
      | some alias ↦ if str_eq alias "" then none else lookup_by_alias alias known
    ]
  ]

  unfoldable pub queue_review :
      CompanyRef → CompanyResolution → String → CompanyDirectory → CompanyDirectory
  unfolding add_review
  queue_review ref resolution source_id d = record d {
    reviews =
        add_review
          (record {
            observed_name = strip ref.name;
            observed_domain = ref.domain;
            source_id = source_id;
            suggested_company_id = suggested_for resolution d.companies;
            confidence = rounded resolution.confidence;
            matched_alias = resolution.matched_alias;
            occurrences = 1;
          })
          d.reviews;
  }

  abbrev pub remember : CompanyRef → ℕ → CompanyResolution → CompanyDirectory → CompanyDirectory
  remember ref id resolution d = record d {
    cache =
        record { cache_key = cache_key ref; company_id = id; resolution = resolution } ∷ d.cache;
  }

  abbrev pub create_for :
      String
      → CompanyRef
      → CompanyResolution
      → CompanyDirectory
      → (ℕ × CompanyResolution) × CompanyDirectory
  create_for source_id ref resolution d =
      let ((id, created), d') = create ref d in
      let kept = remember ref id resolution d' in
      (
        (id, resolution),
        if resolution.needs_review || not created
            then queue_review ref resolution source_id kept
            else kept,
      )

  abbrev pub by_resolution :
      String
      → CompanyRef
      → CompanyResolution
      → Option ℕ
      → CompanyDirectory
      → (ℕ × CompanyResolution) × CompanyDirectory
  by_resolution source_id ref resolution (some key) d =
      ((key, resolution), remember ref key resolution d)
  by_resolution source_id ref resolution none d = create_for source_id ref resolution d

  abbrev pub unless_cached :
      ℕ
      → ℕ
      → String
      → CompanyRef
      → Option Cached
      → CompanyDirectory
      → (ℕ × CompanyResolution) × CompanyDirectory
  unless_cached fuzzy review source_id ref (some c) d = ((c.company_id, c.resolution), d)
  unless_cached fuzzy review source_id ref none d =
      let resolution = resolve_company texts fuzzy review ref d.companies in
      by_resolution source_id ref resolution resolution.company_key d

  -- The id and the resolution of an employer, and the directory that is left.
  unfoldable pub resolve_or_create :
      ℕ → ℕ → String → CompanyRef → CompanyDirectory → (ℕ × CompanyResolution) × CompanyDirectory
  unfolding lookup
  resolve_or_create fuzzy review source_id ref d =
      unless_cached fuzzy review source_id ref (lookup (cache_key ref) d.cache) d
