-- ===== src/Evaluation/Evidence/Given.antt =====
-- The fields of an envelope are what its draft gave.
use evo_harness_preview.Prelude.{String, ◌≡◌, refl, Option, subst, sym}
use evo_harness_preview.Evaluation.Faults.{ok, >>=-eq-ok, Ensures, Ensures-bind, ensured}
use evo_harness_preview.Evaluation.Values.{
  Value, strict_bool, optional_bool, optional_finite_float, freeze_json,
}
use evo_harness_preview.Evaluation.Namespace.{strict_text}
use evo_harness_preview.Evaluation.Evidence.{
  Draft, EvidenceEnvelope, read_budget, read_artifacts_ref, read_reasons, check_verdict,
  read_verifier, check_objective, read_fields, check_fields, normalize_and_validate_evidence,
}
use evo_harness_preview.Evaluation.Codec.{
  new_evidence, assign_or_validate_evidence_id, evidence_content_payload,
}
use evo_harness_preview.Evaluation.Codec.RoundTrip.{assign-eq-digest}

pub record IsFrom (d : Draft) (e : EvidenceEnvelope) : Type 0 where
  pub candidate_id : strict_text d.candidate_id ≡ ok e.candidate_id
  pub evaluation_valid : strict_bool d.evaluation_valid ≡ ok e.evaluation_valid
  pub fitness : optional_finite_float d.fitness ≡ ok e.fitness
  pub fault_kind : e.fault_kind ≡ d.fault_kind
  pub namespace : e.namespace ≡ d.namespace
  pub coverage : e.coverage ≡ d.coverage

read_fields-IsFrom : (d : Draft) → Ensures (IsFrom d) (read_fields d)
unfolding read_fields
read_fields-IsFrom d = Ensures-bind (IsFrom d) (strict_text d.candidate_id) _ λ candidate_id p0.
    Ensures-bind (IsFrom d) (strict_bool d.evaluation_valid) _ λ evaluation_valid p1.
      Ensures-bind (IsFrom d) (optional_bool d.admissible) _ λ admissible _.
        Ensures-bind (IsFrom d) (optional_bool d.objective_met) _ λ objective_met _.
          Ensures-bind (IsFrom d) (optional_finite_float d.fitness) _ λ fitness p4.
            Ensures-bind (IsFrom d) (read_budget d.budget_used_usd) _ λ budget _.
              Ensures-bind (IsFrom d) (read_artifacts_ref d.artifacts_ref) _ λ artifacts_ref _.
                Ensures-bind (IsFrom d) (read_reasons d.missing_reasons) _ λ reasons _.
                  Ensures-bind (IsFrom d) (freeze_json d.observations) _ λ observations _.
                    Ensures-bind (IsFrom d) (freeze_json d.provenance) _ λ provenance _. record {
                      candidate_id = p0;
                      evaluation_valid = p1;
                      fitness = p4;
                      fault_kind = refl;
                      namespace = refl;
                      coverage = refl;
                    }

IsFrom-with :
    (d : Draft) (e : EvidenceEnvelope) (id : String) (verifier : Option String)
    → IsFrom d e
    → IsFrom d (record e { evidence_id = id; objective_verifier_hash = verifier })
IsFrom-with d e id verifier r = record {
  candidate_id = r.candidate_id;
  evaluation_valid = r.evaluation_valid;
  fitness = r.fitness;
  fault_kind = r.fault_kind;
  namespace = r.namespace;
  coverage = r.coverage;
}

check_fields-IsFrom :
    (d : Draft) (v : Value) (e : EvidenceEnvelope)
    → IsFrom d e
    → Ensures (IsFrom d) (check_fields v e)
unfolding check_fields
check_fields-IsFrom d v e r =
    Ensures-bind (IsFrom d)
      (check_verdict e.evaluation_valid e.admissible e.fitness e.fault_kind e.missing_reasons
        e.objective_met)
      _
      λ _ _. Ensures-bind (IsFrom d) (read_verifier e.objective_met v) _ λ verifier _.
        Ensures-bind (IsFrom d)
          (check_objective e.evaluation_valid e.admissible e.fault_kind e.coverage e.objective_met)
          _ λ _ _. IsFrom-with d e e.evidence_id verifier r

-- An envelope that was built has its draft's fields.
pub new_evidence-IsFrom :
    (digest : Value → String) (d : Draft) (e : EvidenceEnvelope)
    → new_evidence digest d ≡ ok e
    → IsFrom d e
unfolding new_evidence normalize_and_validate_evidence
new_evidence-IsFrom digest d e built =
    let (e1, p, q) =
      >>=-eq-ok (normalize_and_validate_evidence d)
        (assign_or_validate_evidence_id digest d.evidence_id) built in
    let (e0, p', q') = >>=-eq-ok (read_fields d) (check_fields d.objective_verifier_hash) p in
    let read = ensured (IsFrom d) (read_fields d) (read_fields-IsFrom d) p' in
    let checked =
      ensured (IsFrom d) (check_fields d.objective_verifier_hash e0)
        (check_fields-IsFrom d d.objective_verifier_hash e0 read) q' in
    subst (IsFrom d) (sym (assign-eq-digest digest d.evidence_id e1 e q))
      (IsFrom-with d e1 (digest (evidence_content_payload e1)) e1.objective_verifier_hash checked)
