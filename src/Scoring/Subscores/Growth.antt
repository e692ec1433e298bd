-- ===== src/Scoring/Subscores/Growth.antt =====
-- `skill_coverage` of backend/app/domain/scoring/subscores.py grows with the skills that are held.
use career_pilot_ai.Prelude.{
  ℕ, ◌*◌, ◌≤◌, ◌≡◌, refl, ap, inl, inr, String, true, none, List, [], ◌∷◌, any, keep_if, Bool-cases,
  arith,
}
use career_pilot_ai.Scoring.{round_div}
use career_pilot_ai.Scoring.Rounding.{round_div_mono}
use career_pilot_ai.Scoring.Subscores.{
  PostingRequirement, add_requirement, holds, is_hit, is_skill, name_or_blank, satisfied_by,
  skill_coverage, tally,
}
use career_pilot_ai.Scoring.Subscores.Coverage.{List-cases, skill_coverage-some}

any_mono :
    (held more : List String) (xs : List String)
    → ((s : String) → holds held s ≡ true → holds more s ≡ true)
    → any (holds held) xs ≡ true
    → any (holds more) xs ≡ true
any_mono held more [] h k = k
any_mono held more (x ∷ xs) h k = elim (Bool-cases (holds held x)) [
  | inl e ↦ rw (h x e) refl
  | inr e ↦ elim (Bool-cases (holds more x)) [
    | inl f ↦ rw f refl
    | inr f ↦ rw f (any_mono held more xs h (rw e at k))
  ]
]

is_hit_mono :
    (held more : List String) (r : PostingRequirement)
    → ((s : String) → holds held s ≡ true → holds more s ≡ true)
    → is_hit none held r ≡ true
    → is_hit none more r ≡ true
unfolding is_hit satisfied_by
is_hit_mono held more r h k =
    ground (arith, k, h (name_or_blank r.skill_name), any_mono held more r.alternatives h)

tally_mono :
    (held more : List String) (rs : List PostingRequirement)
    → ((s : String) → holds held s ≡ true → holds more s ≡ true)
    → ((tally none held rs).available ≡ (tally none more rs).available)
      × ((tally none held rs).earned ≤ (tally none more rs).earned)
unfolding tally add_requirement
tally_mono held more [] h = (refl, omega arith)
tally_mono held more (r ∷ rs) h =
    let (a, b) = tally_mono held more rs h in
    elim (Bool-cases (is_hit none held r)) [
      | inl e ↦ rw (e, is_hit_mono held more r h e) (omega (arith, a), omega (arith, b))
      | inr e ↦ elim (Bool-cases (is_hit none more r)) [
        | inl f ↦ rw (e, f) (omega (arith, a), omega (arith, b))
        | inr f ↦ rw (e, f) (omega (arith, a), b)
      ]
    ]

-- A candidate who holds more skills is covered no less.
pub skill_coverage_mono :
    (held more : List String) (requirements : List PostingRequirement)
    → ((s : String) → holds held s ≡ true → holds more s ≡ true)
    → (skill_coverage held requirements none).score ≤ (skill_coverage more requirements none).score
unfolding skill_coverage
skill_coverage_mono held more requirements h = elim (List-cases (keep_if is_skill requirements)) [
  | inl e ↦ rw e (omega arith)
  | inr (r, rs, e) ↦
      let (z, score, _, _, _, _, _) = skill_coverage-some none held requirements r rs e in
      let (y, score', _, _, _, _, _) = skill_coverage-some none more requirements r rs e in
      let (a, b) = tally_mono held more (keep_if is_skill requirements) h in
      let le =
        round_div_mono (10000 * (tally none held (keep_if is_skill requirements)).earned)
          (10000 * (tally none more (keep_if is_skill requirements)).earned) _ y
          (omega (arith, b)) in
      omega (
        arith,
        score,
        score',
        le,
        ap
            (λ (n : ℕ).
              round_div (10000 * (tally none held (keep_if is_skill requirements)).earned) n)
            a,
      )
]
