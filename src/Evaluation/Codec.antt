-- ===== src/Evaluation/Codec.antt =====
-- evoharness/evaluation/evidence.py: the JSON form of an envelope, and its identity by content.
--
-- `digest` is SHA-256 over the canonical JSON text of a value: hexadecimal digits, never empty.
pub mod RoundTrip
pub mod Identity
use Prim.Native.Nat.{◌^◌}
use evo_harness_preview.Prelude.{
  ℕ, String, Bool, true, false, not, ◌||◌, Option, none, some, List, [], ◌∷◌, ◌==◌, str_eq,
  if◌then◌else◌,
}
use evo_harness_preview.Evaluation.Faults.{
  FaultKind, protocol_error, value, wire_vocab, Result, ok, raise, ◌>>=◌, refuse_if, type_error,
  value_error, evidence_protocol_error,
}
use evo_harness_preview.Evaluation.Values.{
  Value, Items, Fields, Float, ℤ, pos, finite, null, bool, int, float, str, list, tuple, dict,
  no_items, item, no_fields, strict_bool, optional_bool, optional_finite_float, thaw_json,
}
use evo_harness_preview.Evaluation.Namespace.{
  entry, get_field, has_exactly, namespace_to_json, namespace_from_json, coverage_to_json,
  decode_coverage,
}
use evo_harness_preview.Evaluation.Evidence.{
  Draft, EvidenceEnvelope, of_bool, of_float, of_text, of_texts, normalize_and_validate_evidence,
}

abbrev pub of_fault : Option FaultKind → Value
of_fault none = null
of_fault (some kind) = str (value kind)

unfoldable pub content_fields : EvidenceEnvelope → Fields
content_fields e = entry "schema_version" (int (pos 1)) (
    entry "candidate_id" (str e.candidate_id) (
      entry "namespace" (namespace_to_json e.namespace) (
        entry "evaluation_valid" (bool e.evaluation_valid) (
          entry "admissible" (of_bool e.admissible) (
            entry "fitness" (of_float e.fitness) (
              entry "fault_kind" (of_fault e.fault_kind) (
                entry "coverage" (coverage_to_json e.coverage) (
                  entry "objective_met" (of_bool e.objective_met) (
                    entry "objective_verifier_hash" (of_text e.objective_verifier_hash) (
                      entry "observations" (thaw_json e.observations) (
                        entry "missing_reasons" (list (of_texts e.missing_reasons)) (
                          entry "budget_used_usd" (float e.budget_used_usd) (
                            entry "provenance" (thaw_json e.provenance) (
                              entry "artifacts_ref" (of_text e.artifacts_ref)
                                no_fields))))))))))))))

unfoldable pub evidence_content_payload : EvidenceEnvelope → Value
unfolding content_fields
evidence_content_payload e = dict (content_fields e)

unfoldable pub encode_evidence : EvidenceEnvelope → Value
unfolding content_fields
encode_evidence e = dict (entry "evidence_id" (str e.evidence_id) (content_fields e))

module _ (digest : Value → String) where
  unfoldable pub assign_or_validate_evidence_id : Value → EvidenceEnvelope → Result EvidenceEnvelope
  assign_or_validate_evidence_id (str id) e =
      let expected_id = digest (evidence_content_payload e) in
      if str_eq id "" || str_eq id "auto"
      then ok (record e { evidence_id = expected_id })
      else if not (str_eq id expected_id)
      then raise (evidence_protocol_error protocol_error)
      else ok (record e { evidence_id = id })
  assign_or_validate_evidence_id _ e = raise type_error

  -- `EvidenceEnvelope(…)` with `__post_init__`.
  unfoldable pub new_evidence : Draft → Result EvidenceEnvelope
  new_evidence d =
      normalize_and_validate_evidence d >>= assign_or_validate_evidence_id d.evidence_id

-- What equals the int 1 in Python.
abbrev pub is_one : Value → Bool
is_one (int (pos n)) = n == 1
is_one (bool b) = b
is_one (float (finite false n)) = n == 2 ^ 1074
is_one _ = false

abbrev pub required : List String
required =
    "evidence_id" ∷ "candidate_id" ∷ "namespace" ∷ "evaluation_valid" ∷ "admissible" ∷ "fitness"
    ∷ "fault_kind" ∷ "coverage" ∷ "objective_met" ∷ "objective_verifier_hash" ∷ "observations"
    ∷ "missing_reasons" ∷ "budget_used_usd" ∷ "provenance" ∷ "artifacts_ref" ∷ "schema_version" ∷ []

-- The fields that `decode_evidence` reads before it builds the envelope.
unfoldable pub decode_id : Value → Result String
decode_id (str t) = refuse_if (str_eq t "") type_error (ok t)
decode_id _ = raise type_error

unfoldable pub decode_fault_text : Value → Result (Option String)
decode_fault_text null = ok none
decode_fault_text (str t) = ok (some t)
decode_fault_text _ = raise type_error

-- `FaultKind(fault_raw) if fault_raw is not None else None`
unfoldable pub decode_fault : Option String → Result (Option FaultKind)
decode_fault none = ok none
decode_fault (some t) = elim (wire_vocab t) [
  | none ↦ raise value_error
  | some kind ↦ ok (some kind)
]

unfoldable pub decode_reasons : Value → Result Items
decode_reasons (list vs) = ok vs
decode_reasons _ = raise type_error

-- The arguments of the constructor, in their order.
unfoldable pub decode_draft : Fields → Result Draft
unfolding decode_id decode_fault_text decode_fault decode_reasons
decode_draft fs = decode_id (get_field "evidence_id" fs) >>= λ id.
    decode_fault_text (get_field "fault_kind" fs) >>= λ fault_raw.
    decode_reasons (get_field "missing_reasons" fs) >>= λ reasons.
    namespace_from_json (get_field "namespace" fs) >>= λ namespace.
    strict_bool (get_field "evaluation_valid" fs) >>= λ evaluation_valid.
    optional_bool (get_field "admissible" fs) >>= λ admissible.
    optional_finite_float (get_field "fitness" fs) >>= λ fitness.
    decode_fault fault_raw >>= λ fault_kind.
    decode_coverage (get_field "coverage" fs) >>= λ coverage.
    optional_bool (get_field "objective_met" fs) >>= λ objective_met.
    optional_finite_float (get_field "budget_used_usd" fs) >>= λ budget. ok (record {
      evidence_id = str id;
      candidate_id = get_field "candidate_id" fs;
      namespace = namespace;
      evaluation_valid = bool evaluation_valid;
      admissible = of_bool admissible;
      fitness = of_float fitness;
      fault_kind = fault_kind;
      coverage = coverage;
      objective_met = of_bool objective_met;
      objective_verifier_hash = get_field "objective_verifier_hash" fs;
      observations = get_field "observations" fs;
      missing_reasons = reasons;
      budget_used_usd = of_float budget;
      provenance = get_field "provenance" fs;
      artifacts_ref = get_field "artifacts_ref" fs;
    })

unfoldable pub decode_evidence : (Value → String) → Value → Result EvidenceEnvelope
unfolding decode_draft has_exactly
decode_evidence digest (dict fs) =
    refuse_if (not (is_one (get_field "schema_version" fs))) value_error (
      refuse_if (not (has_exactly required fs)) value_error
        (decode_draft fs >>= new_evidence digest))
decode_evidence digest _ = raise type_error
