-- ===== src/Evaluation/Codec/Identity.antt =====
-- What an envelope that was built or decoded is known to be.
use evo_harness_preview.Prelude.{
  String, ◌≡◌, ◌≢◌, refl, true, false, not, Bool-cases, arith, inl, inr, subst, sym, if◌then◌else◌,
}
use evo_harness_preview.Evaluation.Blank.{is_blank}
use evo_harness_preview.Evaluation.Faults.{
  value_error, ok, raise, >>=-eq-ok, Ensures, Ensures-bind, Ensures-refuse, ensured, behind,
}
use evo_harness_preview.Evaluation.Values.{
  Value, Fields, null, int, str, dict, strict_int, strict_bool, optional_bool,
  optional_finite_float,
}
use evo_harness_preview.Evaluation.Namespace.{
  ScoreNamespace, Coverage, get_field, has_exactly, strict_text, new_namespace, namespace_from_json,
  new_coverage, decode_coverage, is_namespace, is_coverage, strict_units, namespace_fields,
  coverage_fields,
}
use evo_harness_preview.Evaluation.Evidence.{
  Draft, EvidenceEnvelope, normalize_and_validate_evidence,
}
use evo_harness_preview.Evaluation.Evidence.Consistent.{IsConsistent, normalize-IsConsistent}
use evo_harness_preview.Evaluation.Codec.{
  evidence_content_payload, encode_evidence, assign_or_validate_evidence_id, new_evidence,
  decode_id, decode_fault_text, decode_fault, decode_reasons, decode_draft, decode_evidence,
  content_fields, is_one, required,
}
use evo_harness_preview.Evaluation.Codec.RoundTrip.{
  assign-eq-digest, decode_evidence-encode_evidence,
}

-- Texts that a field lets pass are not blank.
strict_text_lem : (v : Value) {t : String} → strict_text v ≡ ok t → is_blank t ≡ false
unfolding strict_text
strict_text_lem (str t) h = ground arith
strict_text_lem null h = cc
strict_text_lem _ h = cc

new_namespace_lem : (c m e u : Value) → Ensures (λ n. is_namespace n ≡ true) (new_namespace c m e u)
unfolding new_namespace
new_namespace_lem c m e u =
    let P : ScoreNamespace → Type 0 = λ n. is_namespace n ≡ true in
    Ensures-bind P (strict_text c) _ λ c' p. Ensures-bind P (strict_text m) _ λ m' q.
      Ensures-bind P (strict_text e) _ λ e' r. Ensures-bind P (strict_text u) _ λ u' s.
        ground (
          arith,
          strict_text_lem c p,
          strict_text_lem m q,
          strict_text_lem e r,
          strict_text_lem u s,
        )

namespace_from_json_lem : (v : Value) → Ensures (λ n. is_namespace n ≡ true) (namespace_from_json v)
unfolding namespace_from_json
namespace_from_json_lem (dict fs) =
    Ensures-refuse (λ n. is_namespace n ≡ true) (not (has_exactly namespace_fields fs)) value_error
      (new_namespace (get_field "criterion_hash" fs) (get_field "measurement_hash" fs)
        (get_field "evaluator_hash" fs) (get_field "universe_hash" fs))
      (new_namespace_lem (get_field "criterion_hash" fs) (get_field "measurement_hash" fs)
        (get_field "evaluator_hash" fs) (get_field "universe_hash" fs))
namespace_from_json_lem null = tt
namespace_from_json_lem _ = tt

checked :
    (c : Coverage)
    → Ensures (λ c. is_coverage c ≡ true) (if is_coverage c then ok c else raise value_error)
checked c = elim (Bool-cases (is_coverage c)) [ inl e ↦ rw e e | inr e ↦ rw e tt ]

new_coverage_lem : (p e t : Value) → Ensures (λ c. is_coverage c ≡ true) (new_coverage p e t)
unfolding new_coverage
new_coverage_lem p e t =
    let P : Coverage → Type 0 = λ c. is_coverage c ≡ true in
    Ensures-bind P (strict_units p) _ λ p' _. Ensures-bind P (strict_units e) _ λ e' _.
      Ensures-bind P (strict_units t) _
        λ t' _. checked (record { planned_units = p'; executed_units = e'; trustworthy_units = t' })

decode_coverage_lem : (v : Value) → Ensures (λ c. is_coverage c ≡ true) (decode_coverage v)
unfolding decode_coverage
decode_coverage_lem (dict fs) =
    let P : Coverage → Type 0 = λ c. is_coverage c ≡ true in
    Ensures-refuse P (not (has_exactly coverage_fields fs)) value_error _ (
      Ensures-bind P (strict_int (get_field "planned_units" fs)) _ λ p _.
        Ensures-bind P (strict_int (get_field "executed_units" fs)) _ λ e _.
          Ensures-bind P (strict_int (get_field "trustworthy_units" fs)) _
            λ t _. new_coverage_lem (int p) (int e) (int t))
decode_coverage_lem null = tt
decode_coverage_lem _ = tt

abbrev IsGiven : Draft → Type 0
IsGiven d = (is_namespace d.namespace ≡ true) × (is_coverage d.coverage ≡ true)

decode_draft_lem : (fs : Fields) → Ensures IsGiven (decode_draft fs)
unfolding decode_draft
decode_draft_lem fs = Ensures-bind IsGiven (decode_id (get_field "evidence_id" fs)) _ λ id p0.
    Ensures-bind IsGiven (decode_fault_text (get_field "fault_kind" fs)) _ λ fault_raw p1.
      Ensures-bind IsGiven (decode_reasons (get_field "missing_reasons" fs)) _ λ reasons p2.
        Ensures-bind IsGiven (namespace_from_json (get_field "namespace" fs)) _ λ namespace p3.
          Ensures-bind IsGiven (strict_bool (get_field "evaluation_valid" fs)) _ λ valid p4.
            Ensures-bind IsGiven (optional_bool (get_field "admissible" fs)) _ λ admissible p5.
              Ensures-bind IsGiven (optional_finite_float (get_field "fitness" fs)) _ λ fitness p6.
                Ensures-bind IsGiven (decode_fault fault_raw) _ λ fault_kind p7.
                  Ensures-bind IsGiven (decode_coverage (get_field "coverage" fs)) _ λ coverage p8.
                    Ensures-bind IsGiven (optional_bool (get_field "objective_met" fs)) _
                      λ objective p9.
                        Ensures-bind IsGiven
                          (optional_finite_float (get_field "budget_used_usd" fs)) _
                          λ budget p10. (
                            ensured (λ n. is_namespace n ≡ true) _
                                (namespace_from_json_lem (get_field "namespace" fs)) p3,
                            ensured (λ c. is_coverage c ≡ true) _
                                (decode_coverage_lem (get_field "coverage" fs)) p8,
                          )

abbrev pub IsBuilt : (Value → String) → EvidenceEnvelope → Type 0
IsBuilt digest e = IsConsistent e × (e.evidence_id ≡ digest (evidence_content_payload e))

with_digest :
    (digest : Value → String) (e : EvidenceEnvelope)
    → IsConsistent e
    → IsBuilt digest (record e { evidence_id = digest (evidence_content_payload e) })
unfolding evidence_content_payload content_fields
with_digest digest e h = (h, refl)

-- An envelope that was built has the digest of its content for its identity and is a verdict or
-- none. A verdict has a fitness, no reasons, no fault that stands for the lack of a verdict, and
-- is inadmissible exactly if its fault is invalid_candidate; an envelope without a verdict has a
-- fault that stands for that, reasons, and neither a judgement nor an assessment. An assessment
-- of the objective comes with the name of its verifier, which is not blank, and no other envelope
-- has one; the objective is not called met but by a complete, admissible verdict without a fault.
pub new_evidence-IsBuilt :
    (digest : Value → String) (d : Draft) (e : EvidenceEnvelope)
    → new_evidence digest d ≡ ok e
    → IsBuilt digest e
unfolding new_evidence
new_evidence-IsBuilt digest d e built =
    let (e0, p, q) =
      >>=-eq-ok (normalize_and_validate_evidence d)
        (assign_or_validate_evidence_id digest d.evidence_id) built in
    subst (IsBuilt digest) (sym (assign-eq-digest digest d.evidence_id e0 e q))
      (with_digest digest e0 (normalize-IsConsistent d p))

-- If the digest is never the empty text, an envelope that decoding returns passes the tests of an
-- envelope, has the digest of its content for its identity, and decodes from its own JSON form to
-- itself.
pub decode_evidence-IsBuilt :
    (digest : Value → String)
    → ((v : Value) → digest v ≢ "")
    → (v : Value) (e : EvidenceEnvelope) → decode_evidence digest v ≡ ok e
    → IsBuilt digest e × (decode_evidence digest (encode_evidence e) ≡ ok e)
unfolding decode_evidence
decode_evidence-IsBuilt digest never_empty (dict fs) e h =
    let (d, p, q) = >>=-eq-ok (decode_draft fs) (new_evidence digest) (
      behind (not (has_exactly required fs)) value_error _
        (behind (not (is_one (get_field "schema_version" fs))) value_error _ h)) in
    let (named, covered) = ensured IsGiven _ (decode_draft_lem fs) p in
    (
      new_evidence-IsBuilt digest d e q,
      decode_evidence-encode_evidence digest never_empty d e named covered q,
    )
decode_evidence-IsBuilt digest never_empty null e h = cc
decode_evidence-IsBuilt digest never_empty _ e h = cc
