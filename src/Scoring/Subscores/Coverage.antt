-- ===== src/Scoring/Subscores/Coverage.antt =====
-- `skill_coverage` of backend/app/domain/scoring/subscores.py: what it counts.
pub mod Met
use mathlib.Core.Bool.{true≢false}
use career_pilot_ai.Prelude.{
  ℕ, ◌+◌, ◌*◌, ◌≤◌, ◌<◌, ◌≡◌, ◌≢◌, refl, sym, ap, ◌∙◌, inl, inr, ◌⊎◌, subst, String, true, false,
  Option, none, some, In, Some, here, there, str_eq, eq_iff, is_some, not, List, [], ◌∷◌, ltb, any,
  keep_if, Bool-cases, length, arith,
}
use career_pilot_ai.Scoring.{round_div}
use career_pilot_ai.Scoring.Rounding.{round_div-le_bound, round_div-ge_bound, round_div_mono}
use career_pilot_ai.Scoring.Subscores.{
  FuzzyMatch, PostingRequirement, RequirementKind, SkillCoverage, finds, label_of, named, skill,
  experience, education, auth, language, add_requirement, holds, is_hit, is_skill, name_or_blank,
  satisfied_by, skill_coverage, tally, weight_of,
}
use career_pilot_ai.Scoring.Subscores.Coverage.Met.{IsSkill, IsMet, is_skill-IsSkill, is_hit-IsMet}

cons-ne-nil : {x : String} {xs : List String} → ¬ (x ∷ xs ≡ [])
cons-ne-nil e = cc

-- The tally counts each requirement once.
tally-Counts :
    (fuzzy : Option FuzzyMatch) (held : List String) (rs : List PostingRequirement)
    → let t = tally fuzzy held rs in
      (length t.matched + length t.missing ≡ length rs)
      × (t.earned ≤ t.available)
      × (length rs ≤ t.available)
      × (length t.missing_must_haves ≤ length t.missing)
      × (t.missing ≡ [] → t.earned ≡ t.available)
unfolding tally add_requirement
tally-Counts fuzzy held [] = (refl, omega arith, omega arith, omega arith, λ _. refl)
tally-Counts fuzzy held (r ∷ rs) =
    let (a, b, c, d, e) = tally-Counts fuzzy held rs in
    elim (Bool-cases (is_hit fuzzy held r)) [
      | inl h ↦ rw h (
        omega (arith, a),
        omega (arith, b),
        ground (arith, c),
        d,
        λ k. ap (λ (n : ℕ). weight_of r + n) (e k),
      )
      | inr h ↦ elim (Bool-cases r.is_must_have) [
        | inl m ↦
            rw (h, m)
              (
                omega (arith, a),
                omega (arith, b),
                omega (arith, c),
                omega (arith, d),
                λ k. absurd (cons-ne-nil k),
              )
        | inr m ↦
            rw (h, m)
              (
                omega (arith, a),
                omega (arith, b),
                omega (arith, c),
                omega (arith, d),
                λ k. absurd (cons-ne-nil k),
              )
      ]
    ]

pub skill_coverage-some :
    (fuzzy : Option FuzzyMatch) (held : List String) (requirements : List PostingRequirement)
    (r : PostingRequirement) (rs : List PostingRequirement)
    → keep_if is_skill requirements ≡ r ∷ rs
    → let c = skill_coverage held requirements fuzzy in
      let t = tally fuzzy held (keep_if is_skill requirements) in
      (0 < t.available)
      × (c.score ≡ round_div (10000 * t.earned) t.available)
      × (c.matched_count ≡ length t.matched)
      × (c.missing ≡ t.missing)
      × (c.missing_must_haves ≡ t.missing_must_haves)
      × (c.total_count ≡ length (keep_if is_skill requirements))
      × (c.matched ≡ t.matched)
unfolding skill_coverage
skill_coverage-some fuzzy held requirements r rs e =
    let (_, _, n, _, _) = tally-Counts fuzzy held (r ∷ rs) in
    let z : 0 < (tally fuzzy held (r ∷ rs)).available = omega (arith, n) in
    let y : ltb 0 (tally fuzzy held (r ∷ rs)).available ≡ true = ground (arith, z) in
    rw (e, y) (z, refl, refl, refl, refl, refl, refl)

pub List-cases :
    (xs : List PostingRequirement)
    → (xs ≡ []) ⊎ ((r : PostingRequirement) × (rs : List PostingRequirement) × (xs ≡ r ∷ rs))
List-cases [] = inl refl
List-cases (r ∷ rs) = inr (r, rs, refl)

full :
    (earned available : ℕ)
    → 0 < available
    → earned ≡ available
    → round_div (10000 * earned) available ≡ 10000
full earned available z e =
    let le : round_div (10000 * earned) available ≤ 10000 =
      round_div-le_bound _ _ 10000 z (omega (arith, e)) in
    let ge : 10000 ≤ round_div (10000 * earned) available =
      round_div-ge_bound _ _ 10000 z (omega (arith, e)) in
    omega (arith, le, ge)

-- The requirements' sums and lists, as the relation that they stand in. A skill that is met counts
-- with its name, one that is not with its label; a must-have weighs 3, any other skill 1; what is no
-- skill does not count.
pub data Tallied (fuzzy : Option FuzzyMatch) (held : List String)
    : List PostingRequirement → List String → List String → List String → ℕ → ℕ → Type 0 where
  nothing : Tallied fuzzy held [] [] [] [] 0 0
  no_skill :
      {r : PostingRequirement} {rs : List PostingRequirement} {matched missing must : List String}
      {earned available : ℕ}
      → ¬ IsSkill r
      → Tallied fuzzy held rs matched missing must earned available
      → Tallied fuzzy held (r ∷ rs) matched missing must earned available
  must_met :
      {r : PostingRequirement} {rs : List PostingRequirement} {matched missing must : List String}
      {earned available : ℕ}
      → IsSkill r
      → IsMet fuzzy held r
      → r.is_must_have ≡ true
      → Tallied fuzzy held rs matched missing must earned available
      → Tallied fuzzy held
          (r ∷ rs)
          (name_or_blank r.skill_name ∷ matched)
          missing
          must
          (3 + earned)
          (3 + available)
  other_met :
      {r : PostingRequirement} {rs : List PostingRequirement} {matched missing must : List String}
      {earned available : ℕ}
      → IsSkill r
      → IsMet fuzzy held r
      → r.is_must_have ≡ false
      → Tallied fuzzy held rs matched missing must earned available
      → Tallied fuzzy held
          (r ∷ rs)
          (name_or_blank r.skill_name ∷ matched)
          missing
          must
          (1 + earned)
          (1 + available)
  must_missing :
      {r : PostingRequirement} {rs : List PostingRequirement} {matched missing must : List String}
      {earned available : ℕ}
      → IsSkill r
      → ¬ IsMet fuzzy held r
      → r.is_must_have ≡ true
      → Tallied fuzzy held rs matched missing must earned available
      → Tallied fuzzy held
          (r ∷ rs)
          matched
          (label_of r ∷ missing)
          (label_of r ∷ must)
          earned
          (3 + available)
  other_missing :
      {r : PostingRequirement} {rs : List PostingRequirement} {matched missing must : List String}
      {earned available : ℕ}
      → IsSkill r
      → ¬ IsMet fuzzy held r
      → r.is_must_have ≡ false
      → Tallied fuzzy held rs matched missing must earned available
      → Tallied fuzzy held (r ∷ rs) matched (label_of r ∷ missing) must earned (1 + available)

tally-Tallied :
    (fuzzy : Option FuzzyMatch) (held : List String) (rs : List PostingRequirement)
    → let t = tally fuzzy held (keep_if is_skill rs) in
      Tallied fuzzy held rs t.matched t.missing t.missing_must_haves t.earned t.available
unfolding tally add_requirement
tally-Tallied fuzzy held [] = nothing
tally-Tallied fuzzy held (r ∷ rs) = elim (Bool-cases (is_skill r)) [
  | inr e ↦ rw e (
      no_skill (λ k. absurd (true≢false (sym ((is_skill-IsSkill r).1 k) ∙ e)))
        (tally-Tallied fuzzy held rs))
  | inl e ↦
      let k = (is_skill-IsSkill r).0 e in
      elim (Bool-cases (is_hit fuzzy held r)) [
        | inl h ↦ elim (Bool-cases r.is_must_have) [
          | inl m ↦
              rw (e, h)
                (simp m
                  (must_met k ((is_hit-IsMet fuzzy held r k).0 h) m (tally-Tallied fuzzy held rs)))
          | inr m ↦
              rw (e, h)
                (simp m
                  (other_met k ((is_hit-IsMet fuzzy held r k).0 h) m (tally-Tallied fuzzy held rs)))
        ]
        | inr h ↦
            let n : ¬ IsMet fuzzy held r =
              λ q. true≢false (sym ((is_hit-IsMet fuzzy held r k).1 q) ∙ h) in
            elim (Bool-cases r.is_must_have) [
              | inl m ↦ rw (e, h) (simp m (must_missing k n m (tally-Tallied fuzzy held rs)))
              | inr m ↦ rw (e, h) (simp m (other_missing k n m (tally-Tallied fuzzy held rs)))
            ]
      ]
]

-- what a coverage is, by the sums of its posting's requirements
pub record IsCoverage (fuzzy : Option FuzzyMatch) (held : List String)
    (requirements : List PostingRequirement) (c : SkillCoverage) : Type 0 where
  pub earned : ℕ
  pub available : ℕ
  pub tallied :
      Tallied fuzzy held requirements c.matched c.missing c.missing_must_haves earned available
  pub score :
      ((available ≡ 0) × (c.score ≡ 10000))
      ⊎ ((0 < available) × (c.score ≡ round_div (10000 * earned) available))
  pub matched_count : c.matched_count ≡ length c.matched
  pub total_count : c.total_count ≡ length c.matched + length c.missing
  pub bound : c.score ≤ 10000
  pub full : c.missing ≡ [] → c.score ≡ 10000

-- The coverage of a posting's skills is the rounded share, by weight, of the skill requirements that
-- the candidate meets: those whose skill or one of whose alternatives is held, or for whose skill
-- the fuzzy match, where there is one, finds a held skill. A must-have weighs three times as much as
-- another skill. Met skills are listed by name and the others by label, must-haves also apart, all
-- in the order of the requirements, and the counts are those of these lists. The score is at most
-- 10000 ten-thousandths, which it is where nothing is missing or no skill is required.
pub skill_coverage-Counts :
    (held : List String) (requirements : List PostingRequirement) (fuzzy : Option FuzzyMatch)
    → IsCoverage fuzzy held requirements (skill_coverage held requirements fuzzy)
unfolding skill_coverage
skill_coverage-Counts held requirements fuzzy =
    let tallied = tally-Tallied fuzzy held requirements in
    elim (List-cases (keep_if is_skill requirements)) [
      | inl e ↦ rw e record {
        earned = 0;
        available = 0;
        tallied = unfold tally in rw e at tallied;
        score = inl (refl, refl);
        matched_count = refl;
        total_count = refl;
        bound = omega arith;
        full = λ _. refl;
      }
      | inr (r, rs, e) ↦
          let (z, score, count, missing, must, total, matched) =
            skill_coverage-some fuzzy held requirements r rs e in
          let (a, b, _, _, f) = tally-Counts fuzzy held (keep_if is_skill requirements) in
          record {
            earned = (tally fuzzy held (keep_if is_skill requirements)).earned;
            available = (tally fuzzy held (keep_if is_skill requirements)).available;
            tallied = rw (matched, missing, must) tallied;
            score = inr (z, score);
            matched_count = count ∙ ap length (sym matched);
            total_count = omega (arith, total, a, ap length matched, ap length missing);
            bound =
                subst (λ x. x ≤ 10000) (sym score)
                  (round_div-le_bound _ _ 10000 z (omega (arith, b)));
            full = λ k. score ∙ full _ _ z (f (sym missing ∙ k));
          }
    ]
