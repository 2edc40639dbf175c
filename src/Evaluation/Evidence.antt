-- ===== src/Evaluation/Evidence.antt =====
-- evoharness/evaluation/evidence.py: the envelope of a verdict, the tests that its construction
-- makes, and its identity by content.
--
-- A `Draft` holds what a caller passes to `EvidenceEnvelope`; a namespace and a coverage are
-- checked by their own types. `digest` is SHA-256 over the canonical JSON text of a value.
use evo_harness_preview.Prelude.{
  ℕ, zero, suc, String, Bool, true, false, not, ◌&&◌, ◌||◌, Option, none, some, List, [], ◌∷◌,
  is_empty, ltb, str_eq, if◌then◌else◌,
}
use evo_harness_preview.Evaluation.Blank.{is_blank}
use evo_harness_preview.Evaluation.Faults.{
  FaultKind, protocol_error, invalid_candidate, is_no_verdict_fault, Result, ok, raise, ◌>>=◌,
  refuse_if, type_error, value_error, evidence_protocol_error,
}
use evo_harness_preview.Evaluation.Values.{
  Value, Items, Float, ℤ, pos, negsuc, finite, null, bool, int, float, str, no_items, item,
  float_of_int, strict_bool, optional_bool, optional_finite_float, freeze_json,
}
use evo_harness_preview.Evaluation.Namespace.{ScoreNamespace, Coverage, strict_text, is_complete}
pub mod Sound
pub mod Consistent
pub mod Given

pub record Draft : Type 0 where
  pub evidence_id : Value
  pub candidate_id : Value
  pub namespace : ScoreNamespace
  pub evaluation_valid : Value
  pub admissible : Value
  pub fitness : Value
  pub fault_kind : Option FaultKind
  pub coverage : Coverage
  pub objective_met : Value
  pub objective_verifier_hash : Value
  pub observations : Value
  pub missing_reasons : Items
  pub budget_used_usd : Value
  pub provenance : Value
  pub artifacts_ref : Value

pub record EvidenceEnvelope : Type 0 where
  pub evidence_id : String
  pub candidate_id : String
  pub namespace : ScoreNamespace
  pub evaluation_valid : Bool
  pub admissible : Option Bool
  pub fitness : Option Float
  pub fault_kind : Option FaultKind
  pub coverage : Coverage
  pub objective_met : Option Bool
  pub objective_verifier_hash : Option String
  pub observations : Value
  pub missing_reasons : List String
  pub budget_used_usd : Float
  pub provenance : Value
  pub artifacts_ref : Option String

-- The fields as the values that they are written as.
abbrev pub of_bool : Option Bool → Value
of_bool none = null
of_bool (some b) = bool b

abbrev pub of_float : Option Float → Value
of_float none = null
of_float (some x) = float x

abbrev pub of_text : Option String → Value
of_text none = null
of_text (some t) = str t

abbrev pub of_texts : List String → Items
of_texts [] = no_items
of_texts (t ∷ ts) = item (str t) (of_texts ts)

abbrev is_negative_magnitude : Bool → ℕ → Bool
is_negative_magnitude is_negative n = is_negative && ltb 0 n

-- A budget is a finite number that is not below 0, and None is none.
unfoldable pub read_budget : Value → Result Float
read_budget (int (pos n)) = float_of_int (pos n)
read_budget (int (negsuc n)) = float_of_int (negsuc n) >>= λ _. raise value_error
read_budget (float (finite b n)) =
    refuse_if (is_negative_magnitude b n) value_error (ok (finite b n))
read_budget _ = raise value_error

unfoldable pub read_artifacts_ref : Value → Result (Option String)
unfolding strict_text
read_artifacts_ref null = ok none
read_artifacts_ref v = strict_text v >>= λ t. ok (some t)

unfoldable pub read_reasons : Items → Result (List String)
read_reasons no_items = ok []
read_reasons (item v vs) = strict_text v >>= λ t. read_reasons vs >>= λ ts. ok (t ∷ ts)

abbrev pub is_missing {ℓ} : {A : Type ℓ} → Option A → Bool
is_missing none = true
is_missing (some _) = false

-- `kind in NO_VERDICT_FAULTS` and `kind is FaultKind.INVALID_CANDIDATE` of a kind or None.
unfoldable pub in_no_verdict : Option FaultKind → Bool
unfolding is_no_verdict_fault
in_no_verdict none = false
in_no_verdict (some kind) = is_no_verdict_fault kind

unfoldable pub is_invalid_candidate : Option FaultKind → Bool
is_invalid_candidate (some invalid_candidate) = true
is_invalid_candidate _ = false

-- `option is True`
abbrev pub is_yes : Option Bool → Bool
is_yes none = false
is_yes (some b) = b

abbrev pub same_bool : Bool → Bool → Bool
same_bool true b = b
same_bool false b = not b

abbrev contradiction {ℓ} : {A : Type ℓ} → Bool → Result A → Result A
contradiction b r = refuse_if b (evidence_protocol_error protocol_error) r

-- The tests that tie the verdict, the fault and the reasons together.
unfoldable pub check_verdict :
    Bool
    → Option Bool
    → Option Float
    → Option FaultKind
    → List String
    → Option Bool
    → Result (Unit {0})
unfolding in_no_verdict is_invalid_candidate
check_verdict true admissible fitness fault reasons objective =
    contradiction (is_missing admissible || is_missing fitness) (
      contradiction (in_no_verdict fault) (
        contradiction (not (same_bool (is_yes admissible) (not (is_invalid_candidate fault))))
          (contradiction (not (is_empty reasons)) (ok tt))))
check_verdict false admissible fitness fault reasons objective =
    contradiction (not (is_missing admissible) || not (is_missing fitness)) (
      contradiction (not (in_no_verdict fault))
        (contradiction (is_empty reasons) (contradiction (not (is_missing objective)) (ok tt))))

-- An assessment of the objective names its verifier, and nothing else does.
unfoldable pub read_verifier : Option Bool → Value → Result (Option String)
read_verifier none null = ok none
read_verifier none _ = raise (evidence_protocol_error protocol_error)
read_verifier (some _) (str t) = contradiction (is_blank t) (ok (some t))
read_verifier (some _) _ = raise (evidence_protocol_error protocol_error)

unfoldable pub check_objective :
    Bool → Option Bool → Option FaultKind → Coverage → Option Bool → Result (Unit {0})
unfolding is_complete
check_objective valid admissible fault coverage objective =
    contradiction
      (is_yes objective
        && (not valid
            || not (is_yes admissible)
            || not (is_missing fault)
            || not (is_complete coverage)))
      (ok tt)

-- The fields one by one, without the verifier.
unfoldable pub read_fields : Draft → Result EvidenceEnvelope
unfolding read_budget read_artifacts_ref read_reasons
read_fields d = strict_text d.candidate_id >>= λ candidate_id.
    strict_bool d.evaluation_valid >>= λ evaluation_valid.
    optional_bool d.admissible >>= λ admissible. optional_bool d.objective_met >>= λ objective_met.
    optional_finite_float d.fitness >>= λ fitness. read_budget d.budget_used_usd >>= λ budget.
    read_artifacts_ref d.artifacts_ref >>= λ artifacts_ref.
    read_reasons d.missing_reasons >>= λ reasons. freeze_json d.observations >>= λ observations.
    freeze_json d.provenance >>= λ provenance. ok (record {
      evidence_id = "";
      candidate_id = candidate_id;
      namespace = d.namespace;
      evaluation_valid = evaluation_valid;
      admissible = admissible;
      fitness = fitness;
      fault_kind = d.fault_kind;
      coverage = d.coverage;
      objective_met = objective_met;
      objective_verifier_hash = none;
      observations = observations;
      missing_reasons = reasons;
      budget_used_usd = budget;
      provenance = provenance;
      artifacts_ref = artifacts_ref;
    })

-- The tests across the fields, which read the verifier on their way.
unfoldable pub check_fields : Value → EvidenceEnvelope → Result EvidenceEnvelope
unfolding check_verdict read_verifier check_objective
check_fields verifier e =
    check_verdict e.evaluation_valid e.admissible e.fitness e.fault_kind e.missing_reasons
      e.objective_met
    >>= λ _. read_verifier e.objective_met verifier >>= λ hash.
        check_objective e.evaluation_valid e.admissible e.fault_kind e.coverage e.objective_met
        >>= λ _. ok (record e { objective_verifier_hash = hash })

unfoldable pub normalize_and_validate_evidence : Draft → Result EvidenceEnvelope
unfolding read_fields check_fields
normalize_and_validate_evidence d = read_fields d >>= check_fields d.objective_verifier_hash
