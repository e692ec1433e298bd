-- ===== src/Matching/Requirements/Expanded.antt =====
-- One requirement for each named skill: `expand_skill_requirements`.
use career_pilot_ai.Prelude.{
  ◌≡◌, refl, sym, subst, inl, inr, ◌⊎◌, String, Bool, true, false, ◌||◌, List, [], ◌∷◌, ◌++◌, any,
  Bool-cases, str_eq, eq_refl, All, AllPairs, Some, here, there,
}
use career_pilot_ai.Scoring.Subscores.{PostingRequirement, is_skill, name_or_blank}
use career_pilot_ai.Matching.Requirements.{
  has_key, add_group, add_groups, expand_from, expand_skill_requirements, same_flag, names_skill,
  groups_for,
}

-- Two requirements of different keys.
abbrev pub Apart : PostingRequirement → PostingRequirement → Type 0
Apart a b = has_key (name_or_blank b.skill_name) b.is_must_have a ≡ false

-- a requirement for a skill that is wanted, as a must-have or not
abbrev pub Wants : String → Bool → PostingRequirement → Type 0
Wants primary must e = has_key primary must e ≡ true

append-All :
    (P : PostingRequirement → Type 0) (xs : List PostingRequirement) (y : PostingRequirement)
    → All P xs
    → P y
    → All P (xs ++ y ∷ [])
append-All P [] y p q = (q, tt)
append-All P (x ∷ xs) y (p, ps) q = (p, append-All P xs y ps q)

append-AllPairs :
    (xs : List PostingRequirement) (y : PostingRequirement)
    → AllPairs Apart xs
    → All (λ x. Apart x y) xs
    → AllPairs Apart (xs ++ y ∷ [])
append-AllPairs [] y d h = (tt, tt)
append-AllPairs (x ∷ xs) y (a, d) (h, hs) =
    (append-All (Apart x) xs y a h, append-AllPairs xs y d hs)

append-Some :
    (P : PostingRequirement → Type 0) (xs : List PostingRequirement) (y : PostingRequirement)
    → Some P xs
    → Some P (xs ++ y ∷ [])
append-Some P [] y s = elim s [ ]
append-Some P (x ∷ xs) y (here p) = here p
append-Some P (x ∷ xs) y (there s) = there (append-Some P xs y s)

append-here :
    (P : PostingRequirement → Type 0) (xs : List PostingRequirement) (y : PostingRequirement)
    → P y
    → Some P (xs ++ y ∷ [])
append-here P [] y p = here p
append-here P (x ∷ xs) y p = there (append-here P xs y p)

any-none :
    (p : PostingRequirement → Bool) (xs : List PostingRequirement)
    → any p xs ≡ false
    → All (λ x. p x ≡ false) xs
any-none p [] h = tt
any-none p (x ∷ xs) h = elim (Bool-cases (p x)) [
  | inl e ↦ absurd (cc)
  | inr e ↦ (e, any-none p xs (rw e at h))
]

any-some :
    (p : PostingRequirement → Bool) (xs : List PostingRequirement)
    → any p xs ≡ true
    → Some (λ x. p x ≡ true) xs
any-some p [] h = absurd cc
any-some p (x ∷ xs) h = elim (Bool-cases (p x)) [
  | inl e ↦ here e
  | inr e ↦ there (any-some p xs (rw e at h))
]

-- Different keys, each a skill requirement by its kind and its name.
abbrev pub IsKeyed : List PostingRequirement → Type 0
IsKeyed es = AllPairs Apart es × All (λ e. is_skill e ≡ true) es

same_flag_refl : (b : Bool) → same_flag b b ≡ true
same_flag_refl true = refl
same_flag_refl false = refl

add_group-IsKeyed :
    (r : PostingRequirement) (g : List String) (es : List PostingRequirement)
    → IsKeyed es
    → IsKeyed (add_group r g es)
unfolding add_group
add_group-IsKeyed r [] es h = h
add_group-IsKeyed r (p ∷ ps) es (d, k) = elim (Bool-cases (str_eq p "")) [
  | inl e ↦ rw e (d, k)
  | inr e ↦ elim (Bool-cases (any (has_key p r.is_must_have) es)) [
    | inl f ↦ rw (e, f) (d, k)
    | inr f ↦
        rw (e, f)
          (
            append-AllPairs es _ d (any-none (has_key p r.is_must_have) es f),
            append-All (λ e. is_skill e ≡ true) es _ k (rw e refl),
          )
  ]
]

add_group-Some :
    (P : PostingRequirement → Type 0) (r : PostingRequirement) (g : List String)
    (es : List PostingRequirement)
    → Some P es
    → Some P (add_group r g es)
unfolding add_group
add_group-Some P r [] es s = s
add_group-Some P r (p ∷ ps) es s =
    elim (Bool-cases (str_eq p "" || any (has_key p r.is_must_have) es)) [
      | inl e ↦ rw e s
      | inr e ↦ rw e (append-Some P es _ s)
    ]

add_group-here :
    (r : PostingRequirement) (p : String) (ps : List String) (es : List PostingRequirement)
    → str_eq p "" ≡ false
    → Some (Wants p r.is_must_have) (add_group r (p ∷ ps) es)
unfolding add_group
add_group-here r p ps es e = elim (Bool-cases (any (has_key p r.is_must_have) es)) [
  | inl f ↦ rw (e, f) (any-some (has_key p r.is_must_have) es f)
  | inr f ↦
      rw (e, f)
        (append-here (Wants p r.is_must_have) es _
          (rw (eq_refl p, same_flag_refl r.is_must_have) refl))
]

true-false : {b : Bool} → b ≡ true → b ≡ false → ⊥
true-false t f = cc

module _ (P : PostingRequirement → Type 0) where
  add_groups-Some :
      (r : PostingRequirement) (gs : List (List String)) (es : List PostingRequirement)
      → Some P es
      → Some P (add_groups r gs es)
  unfolding add_groups
  add_groups-Some r [] es s = s
  add_groups-Some r (g ∷ gs) es s =
      add_groups-Some r gs (add_group r g es) (add_group-Some P r g es s)

add_groups-IsKeyed :
    (r : PostingRequirement) (gs : List (List String)) (es : List PostingRequirement)
    → IsKeyed es
    → IsKeyed (add_groups r gs es)
unfolding add_groups
add_groups-IsKeyed r [] es h = h
add_groups-IsKeyed r (g ∷ gs) es h =
    add_groups-IsKeyed r gs (add_group r g es) (add_group-IsKeyed r g es h)

-- a group's first name, when it is one, is wanted by some requirement
abbrev pub IsCovered : List PostingRequirement → PostingRequirement → List String → Type 0
IsCovered es r [] = Unit
IsCovered es r (p ∷ ps) = str_eq p "" ≡ false → Some (Wants p r.is_must_have) es

add_groups-IsCovered :
    (r : PostingRequirement) (gs : List (List String)) (es : List PostingRequirement)
    → All (IsCovered (add_groups r gs es) r) gs
unfolding add_groups
add_groups-IsCovered r [] es = tt
add_groups-IsCovered r ([] ∷ gs) es = (tt, add_groups-IsCovered r gs (add_group r [] es))
add_groups-IsCovered r ((p ∷ ps) ∷ gs) es = (
  (λ e.
      add_groups-Some (Wants p r.is_must_have) r gs (add_group r (p ∷ ps) es)
        (add_group-here r p ps es e)),
  add_groups-IsCovered r gs (add_group r (p ∷ ps) es),
)

module _ (split_conjunctions : String → List String) (has_alternation : String → Bool)
    (find_skills : String → List String) where
  -- the groups of a requirement that can name a skill are covered
  abbrev pub AreCovered : List PostingRequirement → PostingRequirement → Type 0
  AreCovered es r =
      names_skill split_conjunctions has_alternation find_skills r ≡ true
      → All (IsCovered es r)
          (groups_for split_conjunctions has_alternation find_skills r r.skill_name)

  IsCovered-mono :
      (r : PostingRequirement) (es fs : List PostingRequirement) (gs : List (List String))
      → ((P : PostingRequirement → Type 0) → Some P es → Some P fs)
      → All (IsCovered es r) gs
      → All (IsCovered fs r) gs
  IsCovered-mono r es fs [] h c = tt
  IsCovered-mono r es fs ([] ∷ gs) h (c, cs) = (tt, IsCovered-mono r es fs gs h cs)
  IsCovered-mono r es fs ((p ∷ ps) ∷ gs) h (c, cs) =
      ((λ e. h (Wants p r.is_must_have) (c e)), IsCovered-mono r es fs gs h cs)

  expand_from-Some :
      (P : PostingRequirement → Type 0) (rs es : List PostingRequirement)
      → Some P es
      → Some P (expand_from split_conjunctions has_alternation find_skills rs es)
  unfolding expand_from
  expand_from-Some P [] es s = s
  expand_from-Some P (r ∷ rs) es s =
      elim (Bool-cases (names_skill split_conjunctions has_alternation find_skills r)) [
        | inl e ↦ rw e (
            expand_from-Some P rs
              (add_groups r
                (groups_for split_conjunctions has_alternation find_skills r r.skill_name) es)
              (add_groups-Some P r
                (groups_for split_conjunctions has_alternation find_skills r r.skill_name) es s))
        | inr e ↦ rw e (expand_from-Some P rs es s)
      ]

  expand_from-cons :
      (r : PostingRequirement) (rs es : List PostingRequirement)
      → let wanted = names_skill split_conjunctions has_alternation find_skills r in
        let groups = groups_for split_conjunctions has_alternation find_skills r r.skill_name in
        let expand = expand_from split_conjunctions has_alternation find_skills in
        ((wanted ≡ true) × (expand (r ∷ rs) es ≡ expand rs (add_groups r groups es)))
        ⊎ ((wanted ≡ false) × (expand (r ∷ rs) es ≡ expand rs es))
  unfolding expand_from
  expand_from-cons r rs es =
      elim (Bool-cases (names_skill split_conjunctions has_alternation find_skills r)) [
        | inl e ↦ inl (e, rw e refl)
        | inr e ↦ inr (e, rw e refl)
      ]

  expand_from-IsExpanded :
      (rs es : List PostingRequirement)
      → IsKeyed es
      → let fs = expand_from split_conjunctions has_alternation find_skills rs es in
        IsKeyed fs × All (AreCovered fs) rs
  expand_from-IsExpanded [] es h = unfold expand_from in (h, tt)
  expand_from-IsExpanded (r ∷ rs) es h = elim (expand_from-cons r rs es) [
    | inl (e, q) ↦
        let gs = groups_for split_conjunctions has_alternation find_skills r r.skill_name in
        let (k, c) =
          expand_from-IsExpanded rs (add_groups r gs es) (add_groups-IsKeyed r gs es h) in
        subst (λ fs. IsKeyed fs × All (AreCovered fs) (r ∷ rs)) (sym q)
          (
            k,
            (
              (λ _.
                  IsCovered-mono r (add_groups r gs es) _ gs
                    (λ P s. expand_from-Some P rs (add_groups r gs es) s)
                    (add_groups-IsCovered r gs es)),
              c,
            ),
          )
    | inr (e, q) ↦
        let (k, c) = expand_from-IsExpanded rs es h in
        subst (λ fs. IsKeyed fs × All (AreCovered fs) (r ∷ rs)) (sym q)
          (k, ((λ t. absurd (true-false t e)), c))
  ]

  -- Requirements are expanded into skill requirements that each name a skill, no two of the same
  -- skill and the same must-have flag, and each group of skills that a requirement for a skill or
  -- experience names is wanted by one of them, by its first name and as a must-have where the
  -- requirement is one.
  pub expand_skill_requirements-IsExpanded :
      (requirements : List PostingRequirement)
      → let es =
          expand_skill_requirements split_conjunctions has_alternation find_skills requirements in
        IsKeyed es × All (AreCovered es) requirements
  unfolding expand_skill_requirements
  expand_skill_requirements-IsExpanded requirements =
      expand_from-IsExpanded requirements [] (tt, tt)
