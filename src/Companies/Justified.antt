-- ===== src/Companies/Justified.antt =====
-- What a resolution to a known employer rests on.
use career_pilot_ai.Prelude.{
  ℕ, ◌≤◌, ◌≡◌, refl, sym, ap, ◌⊎◌, inl, inr, String, Bool, true, false, Option, none, some, List,
  [], ◌∷◌, if◌then◌else◌, str_eq, ltb, leb, leb→le, Bool-cases, In, here, there, All, subst,
}
use career_pilot_ai.Companies.{
  CompanyRef, KnownCompany, Texts, Named, Share, names_of, same_domain, company_domain,
  by_company_domain, by_name, name_similarity, is_subset_hit, better, wider, best_of, subset_of,
  is_larger, containment, decide, unresolved, by_names, known_by_domain, unless_domain,
  resolve_company,
}

some-injective : {A : Type 0} {a b : A} → some a ≡ some b → a ≡ b
some-injective {A} {a} {b} e = ap (value_of a) e
  where
    value_of : A → Option A → A
    value_of d none = d
    value_of d (some x) = x

none-some : {A : Type 0} {a : A} → ¬ (none ≡ some a)
none-some e = cc

module _ (texts : Texts) where
  by_company_domain-some :
      (domain : String) (known : List KnownCompany) (c : KnownCompany)
      → by_company_domain texts domain known ≡ some c
      → In c known × (same_domain domain (company_domain texts (c.domain ∷ [])) ≡ true)
  unfolding by_company_domain
  by_company_domain-some domain [] c e = absurd (none-some e)
  by_company_domain-some domain (k ∷ ks) c e =
      elim (Bool-cases (same_domain domain (company_domain texts (k.domain ∷ [])))) [
        | inl h ↦
            let same : k ≡ c = some-injective (rw h at e) in
            (
              here same,
              subst
                  (λ (x : KnownCompany).
                    same_domain domain (company_domain texts (x.domain ∷ [])) ≡ true)
                  same h,
            )
        | inr h ↦ let (m, q) = by_company_domain-some domain ks c (rw h at e) in (there m, q)
      ]

  by_name-some :
      (normalized : String) (ns : List Named) (n : Named)
      → by_name texts normalized ns ≡ some n
      → In n ns × (str_eq (texts.normalize n.1) normalized ≡ true)
  unfolding by_name
  by_name-some normalized [] n e = absurd (none-some e)
  by_name-some normalized (m ∷ ms) n e =
      elim (Bool-cases (str_eq (texts.normalize m.1) normalized)) [
        | inl h ↦
            let same : m ≡ n = some-injective (rw h at e) in
            (
              here same,
              subst (λ (x : Named). str_eq (texts.normalize x.1) normalized ≡ true) same h,
            )
        | inr h ↦ let (q, r) = by_name-some normalized ms n (rw h at e) in (there q, r)
      ]

  module _ (normalized : String) where
    -- a best name among some, with its own score
    abbrev IsScored : List Named → Option (ℕ × Named) → Type 0
    IsScored ns none = Unit
    IsScored ns (some (score, n)) =
        In n ns × (name_similarity texts normalized (texts.normalize n.1) ≡ score)

    better-IsScored :
        (ns : List Named) (n : Named) (best : Option (ℕ × Named))
        → In n ns
        → IsScored ns best
        → IsScored ns (better texts normalized n best)
    better-IsScored ns n none m h = (m, refl)
    better-IsScored ns n (some (score, b)) m h =
        elim (Bool-cases (ltb score (name_similarity texts normalized (texts.normalize n.1)))) [
          | inl e ↦ rw e (m, refl)
          | inr e ↦ rw e h
        ]

    best_of-IsScored :
        (all ns : List Named) (best : Option (ℕ × Named))
        → ((n : Named) → In n ns → In n all)
        → IsScored all best
        → IsScored all (best_of texts normalized ns best)
    unfolding best_of
    best_of-IsScored all [] best f h = h
    best_of-IsScored all (n ∷ ns) best f h =
        best_of-IsScored all ns (better texts normalized n best) (λ m k. f m (there k))
          (better-IsScored all n best (f n (here refl)) h)

    abbrev pub IsNoSubset : Named → Type 0
    IsNoSubset n = is_subset_hit texts normalized n ≡ false

    wider-some :
        (n : Named) (hit : Option (Share × Named))
        → (h : Share × Named) × (wider texts normalized n hit ≡ some h)
    wider-some n none = (_, refl)
    wider-some n (some (share, m)) =
        either (is_larger (containment texts normalized (texts.normalize n.1)) share)
      where
        either :
            (b : Bool)
            → (h : Share × Named) × ((if b
                  then some (containment texts normalized (texts.normalize n.1), n)
                  else some (share, m))
                ≡ some h)
        either true = (_, refl)
        either false = (_, refl)

    subset_of-some :
        (ns : List Named) (h : Share × Named) → ¬ (subset_of texts normalized ns (some h) ≡ none)
    unfolding subset_of
    subset_of-some [] h e = none-some (sym e)
    subset_of-some (n ∷ ns) h e = elim (Bool-cases (is_subset_hit texts normalized n)) [
      | inl q ↦ let (k, w) = wider-some n (some h) in subset_of-some ns k (rw w at (rw q at e))
      | inr q ↦ subset_of-some ns h (rw q at e)
    ]

    subset_of-none :
        (ns : List Named) → subset_of texts normalized ns none ≡ none → All IsNoSubset ns
    unfolding subset_of
    subset_of-none [] e = tt
    subset_of-none (n ∷ ns) e = elim (Bool-cases (is_subset_hit texts normalized n)) [
      | inl q ↦ absurd (subset_of-some ns _ (rw q at e))
      | inr q ↦ (q, subset_of-none ns (rw q at e))
    ]

  -- why a resolution may name a known company
  abbrev pub ByDomain : CompanyRef → List KnownCompany → ℕ → Type 0
  ByDomain ref known k =
      (c : KnownCompany) × (d : String) × In c known
      × (c.key ≡ k)
      × (company_domain texts (ref.domain ∷ ref.careers_url ∷ []) ≡ some d)
      × (same_domain d (company_domain texts (c.domain ∷ [])) ≡ true)

  abbrev pub ByName : ℕ → String → List Named → ℕ → Type 0
  ByName fuzzy normalized names k =
      (n : Named) × In n names
      × (n.0.key ≡ k)
      × ((str_eq (texts.normalize n.1) normalized ≡ true)
          ⊎ ((fuzzy ≤ name_similarity texts normalized (texts.normalize n.1))
              × All (IsNoSubset normalized) names))

  decide-ByName :
      (fuzzy review : ℕ) (normalized : String) (names : List Named) (k : ℕ)
      (best : Option (ℕ × Named)) (hit : Option (Share × Named))
      → IsScored normalized names best
      → (hit ≡ none → All (IsNoSubset normalized) names)
      → (decide texts fuzzy review normalized best hit).company_key ≡ some k
      → ByName fuzzy normalized names k
  unfolding decide
  decide-ByName fuzzy review normalized names k best (some h) s a e = absurd (none-some e)
  decide-ByName fuzzy review normalized names k none none s a e = absurd (none-some e)
  decide-ByName fuzzy review normalized names k (some (score, n)) none (m, q) a e =
      elim (Bool-cases (leb fuzzy score)) [
        | inl h ↦ (
          n,
          m,
          some-injective (rw h at e),
          inr (subst (λ x. fuzzy ≤ x) (sym q) (leb→le fuzzy score h), a refl),
        )
        | inr h ↦ absurd (unresolved-none (leb review score) (rw h at e))
      ]
    where
      unresolved-none :
          (b : Bool)
          → ¬ (
              (if b
                then unresolved texts score true (some n.1)
                else unresolved texts 0 false none).company_key
              ≡ some k)
      unresolved-none true q = none-some q
      unresolved-none false q = none-some q

  by_names-ByName :
      (fuzzy review : ℕ) (normalized : String) (names : List Named) (k : ℕ) (o : Option Named)
      → by_name texts normalized names ≡ o
      → (by_names texts fuzzy review normalized names o).company_key ≡ some k
      → ByName fuzzy normalized names k
  unfolding by_names
  by_names-ByName fuzzy review normalized names k (some n) h e =
      let (m, q) = by_name-some normalized names n h in (n, m, some-injective e, inl q)
  by_names-ByName fuzzy review normalized names k none h e =
      decide-ByName fuzzy review normalized names k _ _
        (best_of-IsScored normalized names names none (λ n m. m) tt)
        (subset_of-none normalized names) e

  unless_domain-justified :
      (fuzzy review : ℕ) (ref : CompanyRef) (known : List KnownCompany) (k : ℕ)
      (o : Option KnownCompany) (domain : Option String)
      → company_domain texts (ref.domain ∷ ref.careers_url ∷ []) ≡ domain
      → known_by_domain texts domain known ≡ o
      → (unless_domain texts fuzzy review (texts.normalize ref.name) known o).company_key ≡ some k
      → ByDomain ref known k ⊎ ByName fuzzy (texts.normalize ref.name) (names_of known) k
  unfolding unless_domain known_by_domain
  unless_domain-justified fuzzy review ref known k (some c) none d h e = absurd (none-some h)
  unless_domain-justified fuzzy review ref known k (some c) (some domain) d h e =
      let (m, q) = by_company_domain-some domain known c h in
      inl (c, domain, m, some-injective e, d, q)
  unless_domain-justified fuzzy review ref known k none domain d h e =
      elim (Bool-cases (str_eq (texts.normalize ref.name) "")) [
        | inl b ↦ absurd (none-some (rw b at e))
        | inr b ↦ inr (
            by_names-ByName fuzzy review (texts.normalize ref.name) (names_of known) k _ refl
              (rw b at e))
      ]

  -- An employer is resolved to a known company only on evidence: the company has the registrable
  -- domain of the employer, or one of its names has the normal form of the employer's, or one is at
  -- least as similar as the threshold; and then there is no known name, of any company, such that the
  -- tokens of one of the two are a strict part of the other's and their set ratio is 95 or more.
  pub resolve_company_justified :
      (fuzzy review : ℕ) (ref : CompanyRef) (known : List KnownCompany) (k : ℕ)
      → (resolve_company texts fuzzy review ref known).company_key ≡ some k
      → ByDomain ref known k ⊎ ByName fuzzy (texts.normalize ref.name) (names_of known) k
  unfolding resolve_company
  resolve_company_justified fuzzy review ref known k e =
      unless_domain-justified fuzzy review ref known k _ _ refl refl e
