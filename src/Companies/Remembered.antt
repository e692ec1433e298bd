-- ===== src/Companies/Remembered.antt =====
-- One run resolves an employer once: what `resolve_or_create` found it finds again.
use career_pilot_ai.Prelude.{
  ℕ, ◌≡◌, refl, sym, ap, ◌∙◌, ◌⊎◌, inl, inr, String, Bool, ◌||◌, not, Option, none, some, List, [],
  ◌∷◌, str_eq, eq_iff, Bool-cases, Option-cases, subst,
}
use career_pilot_ai.Companies.{CompanyRef, CompanyResolution, Texts, resolve_company}
use career_pilot_ai.Companies.Directory.{
  Company, Cached, CompanyDirectory, lookup, cache_key, insert_company, create, queue_review,
  create_for, by_resolution, resolve_or_create,
}

module _ (texts : Texts) (is_ats_host : Option String → Bool) (fresh : List Company → ℕ)
    (fuzzy review : ℕ) (source_id : String) where
  abbrev Resolved : Type 0
  Resolved = (ℕ × CompanyResolution) × CompanyDirectory

  -- a new answer is put in the cache
  abbrev IsRemembered : CompanyRef → CompanyDirectory → Resolved → Type 0
  IsRemembered ref d a =
      a.1.cache
      ≡ record {
        cache_key = cache_key texts is_ats_host fresh ref;
        company_id = a.0.0;
        resolution = a.0.1;
      }
        ∷ d.cache

  insert-cache :
      (ref : CompanyRef) (o : Option Company) (d : CompanyDirectory)
      → (insert_company texts is_ats_host fresh ref o d).1.cache ≡ d.cache
  insert-cache ref (some row) d = refl
  insert-cache ref none d = refl

  create-cache :
      (ref : CompanyRef) (d : CompanyDirectory)
      → (create texts is_ats_host fresh ref d).1.cache ≡ d.cache
  unfolding create
  create-cache ref d = insert-cache ref _ d

  create_for-IsRemembered :
      (ref : CompanyRef) (resolution : CompanyResolution) (d : CompanyDirectory)
      → IsRemembered ref d (create_for texts is_ats_host fresh source_id ref resolution d)
  unfolding queue_review
  create_for-IsRemembered ref resolution d =
      elim (Bool-cases
        (resolution.needs_review || not (create texts is_ats_host fresh ref d).0.1)) [
          | inl e ↦ rw (e, create-cache ref d) refl
          | inr e ↦ rw (e, create-cache ref d) refl
        ]

  by_resolution-IsRemembered :
      (ref : CompanyRef) (resolution : CompanyResolution) (key : Option ℕ) (d : CompanyDirectory)
      → IsRemembered ref d (by_resolution texts is_ats_host fresh source_id ref resolution key d)
  by_resolution-IsRemembered ref resolution (some key) d = refl
  by_resolution-IsRemembered ref resolution none d = create_for-IsRemembered ref resolution d

  abbrev run : CompanyRef → CompanyDirectory → Resolved
  run ref d = resolve_or_create texts is_ats_host fresh fuzzy review source_id ref d

  -- the directory after some more employers were resolved
  abbrev pub after : List CompanyRef → CompanyDirectory → CompanyDirectory
  after [] d = d
  after (ref ∷ refs) d =
      after refs (resolve_or_create texts is_ats_host fresh fuzzy review source_id ref d).1

  -- a resolution, or the cached one
  run-cases :
      (ref : CompanyRef) (d : CompanyDirectory)
      → ((c : Cached) × (lookup (cache_key texts is_ats_host fresh ref) d.cache ≡ some c)
          × (run ref d ≡ ((c.company_id, c.resolution), d)))
        ⊎ ((lookup (cache_key texts is_ats_host fresh ref) d.cache ≡ none)
            × IsRemembered ref d (run ref d))
  unfolding resolve_or_create
  run-cases ref d = elim (Option-cases (lookup (cache_key texts is_ats_host fresh ref) d.cache)) [
    | inl e ↦ inr (
      e,
      rw e (
          by_resolution-IsRemembered ref (resolve_company texts fuzzy review ref d.companies)
            (resolve_company texts fuzzy review ref d.companies).company_key d),
    )
    | inr (c, e) ↦ inl (c, e, rw e refl)
  ]

  lookup-kept :
      (key : String) (c : Cached) (ref : CompanyRef) (d : CompanyDirectory)
      → lookup key d.cache ≡ some c
      → lookup key (run ref d).1.cache ≡ some c
  unfolding lookup
  lookup-kept key c ref d h = elim (run-cases ref d) [
    | inl (b, e, q) ↦ subst (λ a. lookup key a.1.cache ≡ some c) (sym q) h
    | inr (e, q) ↦
        subst (λ l. lookup key l ≡ some c) (sym q)
          (elim (Bool-cases (str_eq (cache_key texts is_ats_host fresh ref) key)) [
            | inl s ↦
                let same : cache_key texts is_ats_host fresh ref ≡ key = (eq_iff _ key).0 s in
                absurd (none-some (sym (subst (λ k. lookup k d.cache ≡ none) same e) ∙ h))
            | inr s ↦ rw s h
          ])
  ]
    where
      none-some : ¬ (none ≡ some c)
      none-some q = cc

  abbrev Answers : CompanyRef → Resolved → CompanyDirectory → Type 0
  Answers ref a d =
      (c : Cached) × (lookup (cache_key texts is_ats_host fresh ref) d.cache ≡ some c)
      × (a.0 ≡ (c.company_id, c.resolution))

  lookup-run : (ref : CompanyRef) (d : CompanyDirectory) → Answers ref (run ref d) (run ref d).1
  unfolding lookup
  lookup-run ref d = elim (run-cases ref d) [
    | inl (c, e, q) ↦ subst (λ a. Answers ref a a.1) (sym q) (c, e, refl)
    | inr (e, q) ↦
        let k = cache_key texts is_ats_host fresh ref in
        let new : Cached = record {
          cache_key = k;
          company_id = (run ref d).0.0;
          resolution = (run ref d).0.1;
        } in
        (new, subst (λ l. lookup k l ≡ some new) (sym q) (rw ((eq_iff k k).1 refl) refl), refl)
  ]

  after-kept :
      (key : String) (c : Cached) (refs : List CompanyRef) (d : CompanyDirectory)
      → lookup key d.cache ≡ some c
      → lookup key (after refs d).cache ≡ some c
  after-kept key c [] d h = h
  after-kept key c (ref ∷ refs) d h =
      after-kept key c refs (run ref d).1 (lookup-kept key c ref d h)

  -- An employer that a run has resolved is resolved to the same company again, whatever employers were
  -- resolved in between, and the second resolution writes nothing.
  pub resolve_or_create_again :
      (ref : CompanyRef) (refs : List CompanyRef) (d : CompanyDirectory)
      → let first = resolve_or_create texts is_ats_host fresh fuzzy review source_id ref d in
        resolve_or_create texts is_ats_host fresh fuzzy review source_id ref (after refs first.1)
        ≡ (first.0, after refs first.1)
  unfolding resolve_or_create
  resolve_or_create_again ref refs d =
      let (c, e, q) = lookup-run ref d in
      rw (after-kept (cache_key texts is_ats_host fresh ref) c refs (run ref d).1 e)
        (ap (λ a. (a, after refs (run ref d).1)) (sym q))
