-- ===== src/Matching/Funnel/Scanned.antt =====
-- What stage 2 makes of the postings that it scans: `_stage2_gates` of
-- backend/app/services/matching.py.
use mathlib.Core.List.{append_assoc, append-nil}
use career_pilot_ai.Prelude.{
  ℕ, ◌+◌, ◌≡◌, refl, sym, ap, ◌∙◌, inl, inr, ◌⊎◌, String, Bool, true, false, not, Option, List, [],
  ◌∷◌, ◌++◌, map, keep_if, length, Bool-cases, arith, In,
}
use career_pilot_ai.Matching.{
  CandidateSnapshot, GateFailure, PostingSnapshot, language_ok, work_authorization_ok,
}
use career_pilot_ai.Matching.Gates.{evaluate_gates-failures}
use career_pilot_ai.Matching.Shortlist.{Withheld}
use career_pilot_ai.Matching.Funnel.{
  FunnelConfig, Gated, PipelineSettings, PostingRow, count_failures, gate_all, gate_result,
  posting_snapshot, scan, stage2_gates,
}

module _ (upper casefold : String → String) (stated_min_years : String → Option ℕ)
    (sponsorship_stance : String → Option Bool) (settings : PipelineSettings)
    (config : FunnelConfig) (candidate : CandidateSnapshot) (now : ℕ) where
  abbrev pub passes : PostingRow → Bool
  passes row =
      (gate_result upper casefold stated_min_years sponsorship_stance settings config candidate now
        row).passed

  abbrev pub fails : PostingRow → Bool
  fails row = not (passes row)

  abbrev pub entry : PostingRow → ℕ × PostingSnapshot
  entry row = (row.id, posting_snapshot stated_min_years sponsorship_stance row)

  abbrev pub withheld_of : PostingRow → Withheld
  withheld_of row = record {
    posting_id = row.id;
    result =
        gate_result upper casefold stated_min_years sponsorship_stance settings config candidate now
          row;
  }

  abbrev gated_all : List PostingRow → Gated → Gated
  gated_all rows gated =
      gate_all upper casefold stated_min_years sponsorship_stance settings config candidate now rows
        gated

  abbrev let_in : PostingRow → Gated → Gated
  let_in row gated = record gated { eligible = gated.eligible ++ entry row ∷ [] }

  abbrev keep_out : PostingRow → Gated → Gated
  keep_out row gated = record gated {
    withheld = gated.withheld ++ withheld_of row ∷ [];
    gate_failures = count_failures (withheld_of row).result.failures gated.gate_failures;
  }

  gate_all-cons :
      (row : PostingRow) (rows : List PostingRow) (gated : Gated)
      → ((passes row ≡ true) × (gated_all (row ∷ rows) gated ≡ gated_all rows (let_in row gated)))
        ⊎ ((passes row ≡ false)
            × (gated_all (row ∷ rows) gated ≡ gated_all rows (keep_out row gated)))
  unfolding gate_all
  gate_all-cons row rows gated = elim (Bool-cases (passes row)) [
    | inl e ↦ inl (e, rw e refl)
    | inr e ↦ inr (e, rw e refl)
  ]

  gate_all-split :
      (rows : List PostingRow) (gated : Gated)
      → ((gated_all rows gated).eligible ≡ gated.eligible ++ map entry (keep_if passes rows))
        × ((gated_all rows gated).withheld ≡ gated.withheld ++ map withheld_of (keep_if fails rows))
  gate_all-split [] gated =
      unfold gate_all in (sym (append-nil gated.eligible), sym (append-nil gated.withheld))
  gate_all-split (row ∷ rows) gated = elim (gate_all-cons row rows gated) [
    | inl (e, t) ↦
        let (p, q) = gate_all-split rows (let_in row gated) in
        rw e (
          ap (λ (g : Gated). g.eligible) t
              ∙ p
              ∙ append_assoc gated.eligible (entry row ∷ []) (map entry (keep_if passes rows)),
          ap (λ (g : Gated). g.withheld) t ∙ q,
        )
    | inr (e, t) ↦
        let (p, q) = gate_all-split rows (keep_out row gated) in
        rw e (
          ap (λ (g : Gated). g.eligible) t ∙ p,
          ap (λ (g : Gated). g.withheld) t
              ∙ q
              ∙ append_assoc gated.withheld (withheld_of row ∷ [])
                  (map withheld_of (keep_if fails rows)),
        )
  ]

  split-length :
      (rows : List PostingRow)
      → length (map entry (keep_if passes rows)) + length (map withheld_of (keep_if fails rows))
        ≡ length rows
  split-length [] = refl
  split-length (row ∷ rows) = elim (Bool-cases (passes row)) [
    | inl e ↦ rw e (omega (arith, split-length rows))
    | inr e ↦ rw e (omega (arith, split-length rows))
  ]

  -- Stage 2 splits the scanned postings in two: those that pass the gates are eligible, in the order
  -- of the scan with what the gates read of them, and the others are withheld with their failures;
  -- together they are as many as were scanned.
  pub stage2_gates-split :
      (postings : List PostingRow)
      → let rows = scan config now postings in
        let (scanned, gated) =
          stage2_gates upper casefold stated_min_years sponsorship_stance settings config candidate
            now postings in
        (gated.eligible ≡ map entry (keep_if passes rows))
        × (gated.withheld ≡ map withheld_of (keep_if fails rows))
        × (length gated.eligible + length gated.withheld ≡ scanned)
  unfolding stage2_gates
  stage2_gates-split postings =
      let rows = scan config now postings in
      let (p, q) =
        gate_all-split rows (record { eligible = []; withheld = []; gate_failures = [] }) in
      (p, q, omega (arith, ap length p, ap length q, split-length rows))

true-false : {b : Bool} → b ≡ true → ¬ (b ≡ false)
true-false t f = cc

pass-In : {f : GateFailure} → ¬ In f []
pass-In m = elim m [ ]

-- No posting is withheld for its work authorisation or its languages, whatever the candidate has:
-- what the gates read of a posting states neither.
pub gate_result-silent :
    (upper casefold : String → String) (stated_min_years : String → Option ℕ)
    (sponsorship_stance : String → Option Bool) (settings : PipelineSettings)
    (config : FunnelConfig) (candidate : CandidateSnapshot) (now : ℕ) (row : PostingRow)
    → let failures =
        (gate_result upper casefold stated_min_years sponsorship_stance settings config candidate
          now row).failures in
      (¬ In GateFailure.work_authorization failures) × (¬ In GateFailure.language failures)
unfolding gate_result
gate_result-silent upper casefold stated_min_years sponsorship_stance settings config candidate now
      row =
    let snapshot = posting_snapshot stated_min_years sponsorship_stance row in
    let authorized : work_authorization_ok upper casefold candidate snapshot ≡ true =
      unfold work_authorization_ok posting_snapshot in refl in
    let spoken : language_ok upper casefold candidate snapshot.required_languages ≡ true =
      unfold language_ok posting_snapshot in refl in
    let reported = evaluate_gates-failures upper casefold candidate snapshot config.gates now in
    elim (Bool-cases settings.use_gates) [
      | inl e ↦ rw e (
        (λ m. true-false authorized ((reported GateFailure.work_authorization).0 m)),
        (λ m. true-false spoken ((reported GateFailure.language).0 m)),
      )
      | inr e ↦ rw e (pass-In, pass-In)
    ]
