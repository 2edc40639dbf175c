-- ===== src/Evaluation/Tests.antt =====
-- Two envelopes, and the parameters of the codec and the sink as small functions.
pub mod CodecCases
pub mod SinkCases
use evo_harness_preview.Prelude.{
  String, ◌≡◌, ◌≢◌, refl, Bool, true, false, Bool-cases, inl, inr, Option, none, some, List, [],
  ◌∷◌, str_eq, str_eq_iff, if◌then◌else◌,
}
use evo_harness_preview.Evaluation.Faults.{timeout, Result, ok}
use evo_harness_preview.Evaluation.Values.{
  Value, Fields, ℤ, pos, Float, finite, null, bool, int, float, str, list, dict, proxy, tuple,
  no_items, item, no_fields, field, strict_bool, optional_bool, optional_finite_float, freeze_json,
}
use evo_harness_preview.Evaluation.Namespace.{
  ScoreNamespace, Coverage, entry, is_namespace, is_coverage,
}
use evo_harness_preview.Evaluation.Blank.{is_blank}
use evo_harness_preview.Evaluation.Evidence.{
  Draft, EvidenceEnvelope, normalize_and_validate_evidence,
}
use evo_harness_preview.Evaluation.Codec.{
  new_evidence, assign_or_validate_evidence_id, evidence_content_payload, encode_evidence,
  decode_evidence,
}
use evo_harness_preview.Evaluation.Codec.RoundTrip.{decode_evidence-encode_evidence}

-- The second field of a payload is the candidate.
abbrev second_text : Value → String
second_text (dict (field _ _ (field _ (str t) _))) = t
second_text _ = ""

abbrev pub digest : Value → String
digest v = if str_eq (second_text v) "c1" then "sha-1" else "sha-2"

never : (t : String) → str_eq t "" ≡ false → t ≢ ""
never t h e = cc (h, (str_eq_iff t "").1 e)

pub digest_full : (v : Value) → digest v ≢ ""
digest_full v = elim (Bool-cases (str_eq (second_text v) "c1")) [
  | inl e ↦ rw e (never "sha-1" refl)
  | inr e ↦ rw e (never "sha-2" refl)
]

-- The first field of an envelope is its identity, which stands for its text.
abbrev pub canonical : Value → String
canonical (dict (field _ (str t) _)) = t
canonical _ = "?"

abbrev pub namespace : ScoreNamespace
namespace = record {
  criterion_hash = "c";
  measurement_hash = "m";
  evaluator_hash = "e";
  universe_hash = "u";
}

abbrev pub met_draft : Draft
met_draft = record {
  evidence_id = str "auto";
  candidate_id = str "c1";
  namespace = namespace;
  evaluation_valid = bool true;
  admissible = bool true;
  fitness = float (finite false 5);
  fault_kind = none;
  coverage = record { planned_units = 3; executed_units = 3; trustworthy_units = 3 };
  objective_met = bool true;
  objective_verifier_hash = str "v";
  observations = dict (entry "seen" (list (item (int (pos 1)) (item null no_items))) no_fields);
  missing_reasons = no_items;
  budget_used_usd = float (finite false 0);
  provenance = dict no_fields;
  artifacts_ref = null;
}

abbrev pub met : EvidenceEnvelope
met = record {
  evidence_id = "sha-1";
  candidate_id = "c1";
  namespace = namespace;
  evaluation_valid = true;
  admissible = some true;
  fitness = some (finite false 5);
  fault_kind = none;
  coverage = record { planned_units = 3; executed_units = 3; trustworthy_units = 3 };
  objective_met = some true;
  objective_verifier_hash = some "v";
  observations = proxy (entry "seen" (tuple (item (int (pos 1)) (item null no_items))) no_fields);
  missing_reasons = [];
  budget_used_usd = finite false 0;
  provenance = proxy no_fields;
  artifacts_ref = none;
}

abbrev pub late_draft : Draft
late_draft = record met_draft {
  candidate_id = str "c2";
  fault_kind = some timeout;
  objective_met = null;
  objective_verifier_hash = null;
}

abbrev pub late : EvidenceEnvelope
late = record met {
  evidence_id = "sha-2";
  candidate_id = "c2";
  fault_kind = some timeout;
  objective_met = none;
  objective_verifier_hash = none;
}

pub met_built : new_evidence digest met_draft ≡ ok met
unfolding new_evidence normalize_and_validate_evidence is_blank strict_bool optional_bool
    optional_finite_float freeze_json assign_or_validate_evidence_id evidence_content_payload
met_built = refl

pub late_built : new_evidence digest late_draft ≡ ok late
unfolding new_evidence normalize_and_validate_evidence is_blank strict_bool optional_bool
    optional_finite_float freeze_json assign_or_validate_evidence_id evidence_content_payload
late_built = refl

pub named : is_namespace namespace ≡ true
unfolding is_blank
named = refl

pub covered : is_coverage met.coverage ≡ true
unfolding is_coverage
covered = refl

pub met_decodes : decode_evidence digest (encode_evidence met) ≡ ok met
met_decodes =
    decode_evidence-encode_evidence digest digest_full met_draft met named covered met_built

pub late_decodes : decode_evidence digest (encode_evidence late) ≡ ok late
late_decodes =
    decode_evidence-encode_evidence digest digest_full late_draft late named covered late_built
