-- ===== src/Scoring/Subscores/Alignment.antt =====
-- `requirement_alignment` of backend/app/domain/scoring/subscores.py: the evidence that it cites.
use career_pilot_ai.Prelude.{
  ℕ, ◌*◌, ◌≤◌, ◌<◌, ◌≡◌, ◌↔◌, refl, sym, ap, inl, inr, ◌⊎◌, subst, String, true, false, Option,
  none, some, List, [], ◌∷◌, ltb, leb, Bool-cases, length, arith, In, Some, here, there, All,
  All-mono,
}
use career_pilot_ai.Scoring.{round_div}
use career_pilot_ai.Scoring.Rounding.{round_div-le_bound}
use career_pilot_ai.Scoring.Subscores.{
  met_threshold, partial_threshold, EvidenceStatus, PostingRequirement, RequirementEvidence,
  Similarity, align, best_bullet_of, best_of, evidence_for, requirement_alignment, without_bullets,
}

-- The best so far, or a bullet with its score.
abbrev IsBestFrom : (String → ℕ) → ℕ × Option String → List String → ℕ × Option String → Type 0
IsBestFrom score_of start bullets best =
    (start.0 ≤ best.0)
    × All (λ b. score_of b ≤ best.0) bullets
    × ((best ≡ start) ⊎ ((b : String) × In b bullets × (best ≡ (score_of b, some b))))

best_of-cons :
    (score_of : String → ℕ) (start : ℕ × Option String) (b : String) (bs : List String)
    → ((ltb start.0 (score_of b) ≡ true)
        × (best_of score_of start (b ∷ bs) ≡ best_of score_of (score_of b, some b) bs))
      ⊎ ((ltb start.0 (score_of b) ≡ false)
          × (best_of score_of start (b ∷ bs) ≡ best_of score_of start bs))
unfolding best_of
best_of-cons score_of start b bs = elim (Bool-cases (ltb start.0 (score_of b))) [
  | inl e ↦ inl (e, rw e refl)
  | inr e ↦ inr (e, rw e refl)
]

best_of-IsBestFrom :
    (score_of : String → ℕ) (start : ℕ × Option String) (bullets : List String)
    → IsBestFrom score_of start bullets (best_of score_of start bullets)
best_of-IsBestFrom score_of start [] = unfold best_of in (omega arith, tt, inl refl)
best_of-IsBestFrom score_of start (b ∷ bs) = elim (best_of-cons score_of start b bs) [
  | inl (e, q) ↦
      let (le, all, from) = best_of-IsBestFrom score_of (score_of b, some b) bs in
      subst (IsBestFrom score_of start (b ∷ bs)) (sym q) (
        ground (arith, le, e),
        (le, all),
        elim from [ inl f ↦ inr (b, here refl, f) | inr (c, m, f) ↦ inr (c, there m, f) ],
      )
  | inr (e, q) ↦
      let (le, all, from) = best_of-IsBestFrom score_of start bs in
      subst (IsBestFrom score_of start (b ∷ bs)) (sym q) (
        le,
        (ground (arith, le, e), all),
        elim from [ inl f ↦ inl f | inr (c, m, f) ↦ inr (c, there m, f) ],
      )
]

-- A citation of the bullets for a requirement: its status is by the best similarity, and a bullet is
-- cited where that is at least partial, one that no bullet is more similar than.
pub record IsJustified (similarity : Similarity) (bullets : List String) (r : PostingRequirement)
    (e : RequirementEvidence) : Type 0 where
  pub about : e.requirement ≡ r.text
  pub cited :
      (b : String)
      → e.best_bullet ≡ some b
      → In b bullets
        × (partial_threshold ≤ similarity r.text b)
        × All (λ c. similarity r.text c ≤ similarity r.text b) bullets
  pub uncited :
      e.best_bullet ≡ none
      → (e.status ≡ EvidenceStatus.missing)
        × All (λ c. similarity r.text c < partial_threshold) bullets
  pub is_met :
      (e.status ≡ EvidenceStatus.met) ↔ Some (λ c. met_threshold ≤ similarity r.text c) bullets

Some-mono_In :
    (p : String → ℕ) (n : ℕ) (b : String) (xs : List String)
    → In b xs
    → n ≤ p b
    → Some (λ c. n ≤ p c) xs
Some-mono_In p n b [] m h = elim m [ ]
Some-mono_In p n b (x ∷ xs) (here q) h = here (subst (λ c. n ≤ p c) (sym q) h)
Some-mono_In p n b (x ∷ xs) (there m) h = there (Some-mono_In p n b xs m h)

All-Some_bound :
    (p : String → ℕ) (m n : ℕ) (xs : List String)
    → All (λ c. p c ≤ m) xs
    → Some (λ c. n ≤ p c) xs
    → n ≤ m
All-Some_bound p m n [] h k = elim k [ ]
All-Some_bound p m n (x ∷ xs) (h, hs) (here k) = omega (arith, h, k)
All-Some_bound p m n (x ∷ xs) (h, hs) (there k) = All-Some_bound p m n xs hs k

partial-ne-met : ¬ (EvidenceStatus.partial ≡ EvidenceStatus.met)
partial-ne-met e = cc

missing-ne-met : ¬ (EvidenceStatus.missing ≡ EvidenceStatus.met)
missing-ne-met e = cc

some-ne-none : {b : String} → ¬ (some b ≡ none)
some-ne-none e = cc

some-inj : {a b : String} → some a ≡ some b → a ≡ b
some-inj e = cc

module _ (similarity : Similarity) (bullets : List String) (r : PostingRequirement) where
  IsJustified-none :
      All (λ c. similarity r.text c ≤ 0) bullets
      → IsJustified similarity bullets r (evidence_for r.text (0, none))
  unfolding evidence_for
  IsJustified-none all = record {
    about = refl;
    cited = λ b e. absurd (some-ne-none (sym e));
    uncited = λ e. (refl, All-mono bullets (λ c h. omega (arith, h)) all);
    is_met = (
      λ e. absurd (missing-ne-met e),
      λ s. absurd (omega (arith, All-Some_bound (similarity r.text) 0 720000 bullets all s)),
    );
  }

  IsJustified-some :
      (b : String)
      → In b bullets
      → All (λ c. similarity r.text c ≤ similarity r.text b) bullets
      → IsJustified similarity bullets r (evidence_for r.text (similarity r.text b, some b))
  unfolding evidence_for
  IsJustified-some b m all =
      let x = similarity r.text b in
      elim (Bool-cases (leb 550000 x)) [
        | inl e ↦
            let cite : (c : String)
                → some b ≡ some c
                → In c bullets
                  × (550000 ≤ similarity r.text c)
                  × All (λ d. similarity r.text d ≤ similarity r.text c) bullets =
              λ c k.
                subst
                  (λ c.
                    In c bullets
                    × (550000 ≤ similarity r.text c)
                    × All (λ d. similarity r.text d ≤ similarity r.text c) bullets)
                  (some-inj k) (m, ground (arith, e), all) in
            elim (Bool-cases (leb 720000 x)) [
              | inl f ↦
                  rw (e, f)
                    (record {
                      about = refl;
                      cited = cite;
                      uncited = λ k. absurd (some-ne-none k);
                      is_met = (
                        λ _.
                            Some-mono_In (similarity r.text) 720000 b bullets m (ground (arith, f)),
                        λ _. refl,
                      );
                    })
              | inr f ↦
                  rw (e, f)
                    (record {
                      about = refl;
                      cited = cite;
                      uncited = λ k. absurd (some-ne-none k);
                      is_met = (
                        λ k. absurd (partial-ne-met k),
                        λ s. absurd (
                            ground (
                              arith,
                              f,
                              All-Some_bound (similarity r.text) x 720000 bullets all s,
                            )),
                      );
                    })
            ]
        | inr e ↦
            let f : leb 720000 x ≡ false = ground (arith, e) in
            rw (e, f)
              (record {
                about = refl;
                cited = λ c k. absurd (some-ne-none (sym k));
                uncited = λ _. (refl, All-mono bullets (λ c h. ground (arith, e, h)) all);
                is_met = (
                  λ k. absurd (missing-ne-met k),
                  λ s. absurd (
                      ground (arith, f, All-Some_bound (similarity r.text) x 720000 bullets all s)),
                );
              })
      ]

  justified :
      IsJustified similarity bullets r (evidence_for r.text (best_bullet_of similarity bullets r))
  unfolding best_bullet_of
  justified =
      let (_, all, from) = best_of-IsBestFrom (similarity r.text) (0, none) bullets in
      elim from [
        | inl q ↦
            subst (λ p. IsJustified similarity bullets r (evidence_for r.text p)) (sym q)
              (IsJustified-none (
                subst (λ (p : ℕ × Option String). All (λ c. similarity r.text c ≤ p.0) bullets) q
                  all))
        | inr (b, m, q) ↦
            subst (λ p. IsJustified similarity bullets r (evidence_for r.text p)) (sym q)
              (IsJustified-some b m (
                subst (λ (p : ℕ × Option String). All (λ c. similarity r.text c ≤ p.0) bullets) q
                  all))
      ]

-- The evidence stands beside its requirements, in their order.
abbrev pub Beside :
    Similarity → List String → List PostingRequirement → List RequirementEvidence → Type 0
Beside similarity bullets [] [] = Unit
Beside similarity bullets [] (e ∷ es) = ⊥
Beside similarity bullets (r ∷ rs) [] = ⊥
Beside similarity bullets (r ∷ rs) (e ∷ es) =
    IsJustified similarity bullets r e × Beside similarity bullets rs es

align-Beside :
    (similarity : Similarity) (bullets : List String) (rs : List PostingRequirement)
    → Beside similarity bullets rs (align similarity bullets rs).1
unfolding align
align-Beside similarity bullets [] = tt
align-Beside similarity bullets (r ∷ rs) =
    (justified similarity bullets r, align-Beside similarity bullets rs)

without_bullets-Beside :
    (similarity : Similarity) (rs : List PostingRequirement)
    → Beside similarity [] rs (without_bullets rs)
unfolding evidence_for round_div
without_bullets-Beside similarity [] = tt
without_bullets-Beside similarity (r ∷ rs) =
    (IsJustified-none similarity [] r tt, without_bullets-Beside similarity rs)

align_bound :
    (similarity : Similarity) (bullets : List String) (rs : List PostingRequirement)
    → ((r b : String) → similarity r b ≤ 1000000)
    → (align similarity bullets rs).0 ≤ 1000000 * length rs
unfolding align best_bullet_of
align_bound similarity bullets [] h = omega arith
align_bound similarity bullets (r ∷ rs) h =
    let (_, _, from) = best_of-IsBestFrom (similarity r.text) (0, none) bullets in
    let best : (best_of (similarity r.text) (0, none) bullets).0 ≤ 1000000 = elim from [
      | inl q ↦ omega (arith, ap (λ (p : ℕ × Option String). p.0) q)
      | inr (b, m, q) ↦ omega (arith, ap (λ (p : ℕ × Option String). p.0) q, h r.text b)
    ] in
    omega (arith, best, align_bound similarity bullets rs h)

-- The alignment of requirements with bullets, by a similarity of at most 1, has a score of at most
-- 1, and one piece of evidence beside each requirement: it is met where some bullet is similar
-- enough, it cites a bullet that none is more similar than, where one is partially similar, and it
-- is missing with no citation where none is.
pub requirement_alignment-Beside :
    (requirements : List PostingRequirement) (bullets : List String) (similarity : Similarity)
    → ((r b : String) → similarity r b ≤ 1000000)
    → let a = requirement_alignment requirements bullets similarity in
      (a.score ≤ 10000) × Beside similarity bullets requirements a.evidence
unfolding requirement_alignment
requirement_alignment-Beside [] bullets similarity h = (omega arith, tt)
requirement_alignment-Beside (r ∷ rs) [] similarity h =
    (omega arith, without_bullets-Beside similarity (r ∷ rs))
requirement_alignment-Beside (r ∷ rs) (b ∷ bs) similarity h = (
  round_div-le_bound _ _ 10000 (omega arith)
      (omega (arith, align_bound similarity (b ∷ bs) (r ∷ rs) h)),
  align-Beside similarity (b ∷ bs) (r ∷ rs),
)
