-- ===== src/Scoring/Subscores/Coverage/Met.antt =====
-- When `satisfied_by` of backend/app/domain/models.py or the fuzzy match counts a requirement as met.
use mathlib.Core.Bool.{true≢false}
use career_pilot_ai.Prelude.{
  ◌≡◌, ◌≢◌, refl, sym, ap, ◌∙◌, inl, inr, ◌⊎◌, String, true, false, Option, none, some, In, Some,
  here, there, str_eq, eq_iff, is_some, not, List, [], ◌∷◌, any, Bool-cases, arith,
}
use career_pilot_ai.Scoring.Subscores.{
  FuzzyMatch, PostingRequirement, RequirementKind, finds, named, skill, experience, education, auth,
  language, holds, is_hit, is_skill, name_or_blank, satisfied_by,
}

-- a requirement that names a skill
abbrev pub IsSkill : PostingRequirement → Type 0
IsSkill r =
    (r.kind ≡ RequirementKind.skill) × (name : String) × (r.skill_name ≡ some name) × (name ≢ "")

-- what the fuzzy match finds, where there is one
abbrev pub IsFound : Option FuzzyMatch → List String → String → Type 0
IsFound none held name = ⊥
IsFound (some fuzzy_match) held name = (found : String) × (fuzzy_match name held ≡ some found)

-- A requirement is met by its skill, by an alternative, or by the fuzzy match of its skill.
abbrev pub IsMet : Option FuzzyMatch → List String → PostingRequirement → Type 0
IsMet fuzzy held r =
    In (name_or_blank r.skill_name) held
    ⊎ (Some (λ alternative. In alternative held) r.alternatives
        ⊎ IsFound fuzzy held (name_or_blank r.skill_name))

holds-In :
    (held : List String) (name : String)
    → (holds held name ≡ true → In name held) × (In name held → holds held name ≡ true)
holds-In [] name = ((λ h. absurd cc), λ m. elim m [ ])
holds-In (s ∷ held) name =
    let (a, b) = holds-In held name in
    elim (Bool-cases (str_eq name s)) [
      | inl e ↦ ((λ h. here (sym ((eq_iff name s).0 e))), λ m. rw e refl)
      | inr e ↦ ((λ h. there (a (rw e at h))), λ m. rw e (later m e b))
    ]
  where
    later :
        In name (s ∷ held)
        → str_eq name s ≡ false
        → (In name held → holds held name ≡ true)
        → holds held name ≡ true
    later (here p) e b = absurd (true≢false (sym ((eq_iff name s).1 (sym p)) ∙ e))
    later (there m) e b = b m

any-Some :
    (held : List String) (xs : List String)
    → (any (holds held) xs ≡ true → Some (λ x. In x held) xs)
      × (Some (λ x. In x held) xs → any (holds held) xs ≡ true)
any-Some held [] = ((λ h. absurd cc), λ m. elim m [ ])
any-Some held (x ∷ xs) =
    let (a, b) = any-Some held xs in
    elim (Bool-cases (holds held x)) [
      | inl e ↦ ((λ h. here ((holds-In held x).0 e)), λ m. rw e refl)
      | inr e ↦ ((λ h. there (a (rw e at h))), λ m. rw e (later m e b))
    ]
  where
    later :
        Some (λ y. In y held) (x ∷ xs)
        → holds held x ≡ false
        → (Some (λ y. In y held) xs → any (holds held) xs ≡ true)
        → any (holds held) xs ≡ true
    later (here p) e b = absurd (true≢false (sym ((holds-In held x).1 p) ∙ e))
    later (there m) e b = b m

finds-IsFound :
    (fuzzy : Option FuzzyMatch) (held : List String) (name : String)
    → (finds fuzzy name held ≡ true → IsFound fuzzy held name)
      × (IsFound fuzzy held name → finds fuzzy name held ≡ true)
finds-IsFound none held name = ((λ h. absurd cc), λ m. elim m [ ])
finds-IsFound (some fuzzy_match) held name =
    ((λ h. found (fuzzy_match name held) refl h), λ m. rw m.1 refl)
  where
    found :
        (o : Option String)
        → fuzzy_match name held ≡ o
        → is_some (fuzzy_match name held) ≡ true
        → (s : String) × (fuzzy_match name held ≡ some s)
    found none e h = absurd (true≢false (sym h ∙ ap is_some e))
    found (some s) e h = (s, e)

pub is_skill-IsSkill :
    (r : PostingRequirement) → (is_skill r ≡ true → IsSkill r) × (IsSkill r → is_skill r ≡ true)
is_skill-IsSkill r =
    (go r.kind r.skill_name refl refl, λ (k, name, q, n). rw (k, q) (not_blank name n))
  where
    not_blank : (name : String) → name ≢ "" → not (str_eq name "") ≡ true
    not_blank name n = elim (Bool-cases (str_eq name "")) [
      | inl e ↦ absurd (n ((eq_iff name "").0 e))
      | inr e ↦ rw e refl
    ]

    go :
        (k : RequirementKind) (n : Option String)
        → r.kind ≡ k
        → r.skill_name ≡ n
        → is_skill r ≡ true
        → IsSkill r
    go skill (some name) p q h =
        (p, name, q, λ e. true≢false (sym (rw (p, q) at h) ∙ ap not ((eq_iff name "").1 e)))
    go skill none p q h = absurd (true≢false (sym (rw (p, q) at h)))
    go experience n p q h = absurd (true≢false (sym (rw p at h)))
    go education n p q h = absurd (true≢false (sym (rw p at h)))
    go auth n p q h = absurd (true≢false (sym (rw p at h)))
    go language n p q h = absurd (true≢false (sym (rw p at h)))

pub is_hit-IsMet :
    (fuzzy : Option FuzzyMatch) (held : List String) (r : PostingRequirement)
    → IsSkill r
    → (is_hit fuzzy held r ≡ true → IsMet fuzzy held r)
      × (IsMet fuzzy held r → is_hit fuzzy held r ≡ true)
unfolding is_hit satisfied_by
is_hit-IsMet fuzzy held r k = (
  λ h. elim (Bool-cases (holds held (name_or_blank r.skill_name))) [
    | inl e ↦ inl ((holds-In held _).0 e)
    | inr e ↦ elim (Bool-cases (any (holds held) r.alternatives)) [
      | inl f ↦ inr (inl ((any-Some held _).0 f))
      | inr f ↦ inr (inr ((finds-IsFound fuzzy held _).0 (ground (arith, h, e, f))))
    ]
  ],
  λ m. elim m [
    | inl e ↦
        let h = (holds-In held _).1 e in
        let n : named r.skill_name ≡ true = has_name in ground (arith, h, n)
    | inr (inl e) ↦ let h = (any-Some held _).1 e in ground (arith, h)
    | inr (inr e) ↦ let h = (finds-IsFound fuzzy held _).1 e in ground (arith, h)
  ],
)
  where
    has_name : named r.skill_name ≡ true
    has_name = let (p, name, q, n) = k in let h = (is_skill-IsSkill r).1 k in rw p at h
