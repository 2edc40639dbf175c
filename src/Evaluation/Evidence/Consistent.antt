-- ===== src/Evaluation/Evidence/Consistent.antt =====
-- What the verdict, the fault, the reasons and the objective of an envelope say together.
use evo_harness_preview.Prelude.{
  String, ◌≡◌, ◌↔◌, refl, Bool, true, false, Bool-cases, ◌⊎◌, inl, inr, Option, none, some, List,
  [], is_empty, arith,
}
use evo_harness_preview.Evaluation.Blank.{is_blank}
use evo_harness_preview.Evaluation.Faults.{FaultKind, invalid_candidate, is_no_verdict_fault, ok}
use evo_harness_preview.Evaluation.Values.{Float}
use evo_harness_preview.Evaluation.Namespace.{is_complete}
use evo_harness_preview.Evaluation.Evidence.{
  Draft, EvidenceEnvelope, of_text, check_verdict, read_verifier, check_objective,
  normalize_and_validate_evidence, in_no_verdict, is_invalid_candidate, is_yes,
}
use evo_harness_preview.Evaluation.Evidence.Sound.{Checks, normalize-Checks}

-- A verdict: a judgement of admissibility, a fitness, and no reason for a lack of them.
abbrev IsVerdict : EvidenceEnvelope → Type 0
IsVerdict e =
    (admissible : Bool) × (fitness : Float) × (e.admissible ≡ some admissible)
    × (e.fitness ≡ some fitness)
    × (in_no_verdict e.fault_kind ≡ false)
    × ((admissible ≡ false) ↔ (e.fault_kind ≡ some invalid_candidate))
    × (e.missing_reasons ≡ [])

-- No verdict: a fault and reasons, and nothing judged.
abbrev IsNoVerdict : EvidenceEnvelope → Type 0
IsNoVerdict e =
    (kind : FaultKind) × (e.fault_kind ≡ some kind)
    × (is_no_verdict_fault kind ≡ true)
    × (e.admissible ≡ none)
    × (e.fitness ≡ none)
    × (e.objective_met ≡ none)
    × (is_empty e.missing_reasons ≡ false)

-- Who assessed the objective is named exactly where it was assessed, and it is called met only by a
-- complete verdict on an admissible candidate that met no fault.
abbrev pub IsAssessed : EvidenceEnvelope → Type 0
IsAssessed e =
    ((e.objective_met ≡ none) × (e.objective_verifier_hash ≡ none)
      ⊎ (met : Bool) × (hash : String) × (e.objective_met ≡ some met)
        × (e.objective_verifier_hash ≡ some hash)
        × (is_blank hash ≡ false))
    × ((is_yes e.objective_met ≡ false)
        ⊎ (e.evaluation_valid ≡ true)
          × (e.admissible ≡ some true)
          × (e.fault_kind ≡ none)
          × (is_complete e.coverage ≡ true))

abbrev pub IsConsistent : EvidenceEnvelope → Type 0
IsConsistent e =
    ((e.evaluation_valid ≡ true) × IsVerdict e ⊎ (e.evaluation_valid ≡ false) × IsNoVerdict e)
    × IsAssessed e

verdict_of_check :
    (admissible : Option Bool) (fitness : Option Float) (fault : Option FaultKind)
    (reasons : List String) (objective : Option Bool)
    → check_verdict true admissible fitness fault reasons objective ≡ ok tt
    → (b : Bool) × (x : Float) × (admissible ≡ some b)
      × (fitness ≡ some x)
      × (in_no_verdict fault ≡ false)
      × ((b ≡ false) ↔ (fault ≡ some invalid_candidate))
      × (reasons ≡ [])
unfolding check_verdict is_invalid_candidate
verdict_of_check none x f r o h = absurd (ground arith)
verdict_of_check (some b) none f r o h = absurd (ground arith)
verdict_of_check (some b) (some x) f r o h =
    (b, x, refl, refl, ground arith, ground arith, ground arith)

no_verdict_of_check :
    (admissible : Option Bool) (fitness : Option Float) (fault : Option FaultKind)
    (reasons : List String) (objective : Option Bool)
    → check_verdict false admissible fitness fault reasons objective ≡ ok tt
    → (kind : FaultKind) × (fault ≡ some kind)
      × (is_no_verdict_fault kind ≡ true)
      × (admissible ≡ none)
      × (fitness ≡ none)
      × (objective ≡ none)
      × (is_empty reasons ≡ false)
unfolding check_verdict in_no_verdict
no_verdict_of_check a x none r o h = absurd (ground arith)
no_verdict_of_check a x (some kind) r o h =
    (kind, refl, ground arith, ground arith, ground arith, ground arith, ground arith)

spoken :
    (e : EvidenceEnvelope)
    → Checks e
    → (e.evaluation_valid ≡ true) × IsVerdict e ⊎ (e.evaluation_valid ≡ false) × IsNoVerdict e
spoken e c = elim (Bool-cases e.evaluation_valid) [
  | inl v ↦ inl (
    v,
    verdict_of_check e.admissible e.fitness e.fault_kind e.missing_reasons e.objective_met
        (rw v at c.verdict),
  )
  | inr v ↦ inr (
    v,
    no_verdict_of_check e.admissible e.fitness e.fault_kind e.missing_reasons e.objective_met
        (rw v at c.verdict),
  )
]

named_verifier :
    (objective : Option Bool) (hash : Option String)
    → read_verifier objective (of_text hash) ≡ ok hash
    → (objective ≡ none) × (hash ≡ none)
      ⊎ (met : Bool) × (t : String) × (objective ≡ some met)
        × (hash ≡ some t)
        × (is_blank t ≡ false)
unfolding read_verifier
named_verifier none none h = inl (refl, refl)
named_verifier none (some t) h = absurd (ground arith)
named_verifier (some b) none h = absurd (ground arith)
named_verifier (some b) (some t) h = inr (b, t, refl, refl, ground arith)

assessed : (e : EvidenceEnvelope) → Checks e → IsAssessed e
unfolding check_objective
assessed e c = (
  named_verifier e.objective_met e.objective_verifier_hash c.verifier,
  ground (arith, c.objective),
)

-- An envelope that was built is consistent.
pub normalize-IsConsistent :
    (d : Draft) {e : EvidenceEnvelope} → normalize_and_validate_evidence d ≡ ok e → IsConsistent e
normalize-IsConsistent d {e} h = let (c, r) = normalize-Checks d h in (spoken e c, assessed e c)
