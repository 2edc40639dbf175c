-- ===== src/Evaluation/Producer/Envelopes.antt =====
-- What the envelope of a fault says, and that it can always be built.
use evo_harness_preview.Prelude.{
  ℕ, String, [], ◌∷◌, ◌≡◌, refl, true, false, none, some, arith, str_eq, if◌then◌else◌,
}
use evo_harness_preview.Evaluation.Blank.{is_space, is_blank, strip, is_blank-strip}
use evo_harness_preview.Evaluation.Faults.{
  FaultKind, missing, infra_error, protocol_error, task_failure, timeout, invalid_candidate,
  unknown, value, is_no_verdict_fault, ok,
}
use evo_harness_preview.Evaluation.Values.{
  Value, bool, float, str, dict, proxy, null, finite, item, no_items, no_fields, freeze_fields,
  strict_int, strict_bool, optional_bool, optional_finite_float, freeze_json,
}
use evo_harness_preview.Evaluation.Namespace.{
  ScoreNamespace, strict_text, strict_units, is_coverage, new_coverage,
}
use evo_harness_preview.Evaluation.Evidence.{
  EvidenceEnvelope, Draft, normalize_and_validate_evidence, read_fields, check_fields, read_budget,
  read_artifacts_ref, read_reasons, check_verdict, read_verifier, check_objective, in_no_verdict,
}
use evo_harness_preview.Evaluation.Codec.{
  new_evidence, assign_or_validate_evidence_id, evidence_content_payload,
}
use evo_harness_preview.Evaluation.Producer.{no_verdict_envelope}

is_blank-value : (kind : FaultKind) → is_blank (value kind) ≡ false
unfolding is_blank value is_space
is_blank-value missing = refl
is_blank-value infra_error = refl
is_blank-value protocol_error = refl
is_blank-value task_failure = refl
is_blank-value timeout = refl
is_blank-value invalid_candidate = refl
is_blank-value unknown = refl

-- What an envelope of a candidate says of the call that it is made by.
abbrev pub IsOf : EvidenceEnvelope → String → ScoreNamespace → ℕ → Type 0
IsOf e candidate_id namespace planned_units =
    (e.candidate_id ≡ candidate_id)
    × (e.namespace ≡ namespace)
    × (e.coverage.planned_units ≡ planned_units)

-- The reason that an envelope of a fault gives.
abbrev reason_of : FaultKind → String → String
reason_of kind reason = let t = strip reason in if str_eq t "" then value kind else t

is_blank-reason_of : (kind : FaultKind) (reason : String) → is_blank (reason_of kind reason) ≡ false
is_blank-reason_of kind reason = ground (arith, is_blank-strip reason, is_blank-value kind)

module _ (digest : Value → String) (candidate_id : String) (namespace : ScoreNamespace)
    (planned_units : ℕ) where
  -- The envelope of a fault, but for its identity.
  abbrev silent : FaultKind → String → EvidenceEnvelope
  silent kind text = record {
    evidence_id = "";
    candidate_id = candidate_id;
    namespace = namespace;
    evaluation_valid = false;
    admissible = none;
    fitness = none;
    fault_kind = some kind;
    coverage = record { planned_units = planned_units; executed_units = 0; trustworthy_units = 0 };
    objective_met = none;
    objective_verifier_hash = none;
    observations = proxy no_fields;
    missing_reasons = text ∷ [];
    budget_used_usd = finite false 0;
    provenance = proxy no_fields;
    artifacts_ref = none;
  }

  abbrev no_verdict_draft : FaultKind → String → Draft
  no_verdict_draft kind text = record {
    evidence_id = str "auto";
    candidate_id = str candidate_id;
    namespace = namespace;
    evaluation_valid = bool false;
    admissible = null;
    fitness = null;
    fault_kind = some kind;
    coverage = record { planned_units = planned_units; executed_units = 0; trustworthy_units = 0 };
    objective_met = null;
    objective_verifier_hash = null;
    observations = dict no_fields;
    missing_reasons = item (str text) no_items;
    budget_used_usd = float (finite false 0);
    provenance = dict no_fields;
    artifacts_ref = null;
  }

  normalize-no_verdict_draft :
      (kind : FaultKind) (text : String)
      → is_blank candidate_id ≡ false
      → is_blank text ≡ false
      → is_no_verdict_fault kind ≡ true
      → normalize_and_validate_evidence (no_verdict_draft kind text) ≡ ok (silent kind text)
  unfolding normalize_and_validate_evidence read_fields check_fields strict_text strict_bool
      optional_bool optional_finite_float read_budget read_artifacts_ref read_reasons freeze_json
      freeze_fields check_verdict read_verifier check_objective in_no_verdict
  normalize-no_verdict_draft kind text named full refused = rw named (rw full (rw refused refl))

  covers :
      is_coverage
        (record { planned_units = planned_units; executed_units = 0; trustworthy_units = 0 })
      ≡ true
  unfolding is_coverage
  covers = ground arith

  -- An envelope of a fault can be built of any reason.
  pub no_verdict_envelope_total :
      (kind : FaultKind) (reason : String)
      → is_blank candidate_id ≡ false
      → is_no_verdict_fault kind ≡ true
      → (e : EvidenceEnvelope) × (no_verdict_envelope digest candidate_id namespace planned_units
            kind reason
          ≡ ok e)
        × (e.evaluation_valid ≡ false)
        × (e.fault_kind ≡ some kind)
        × IsOf e candidate_id namespace planned_units
  unfolding no_verdict_envelope new_coverage strict_units strict_int new_evidence
      assign_or_validate_evidence_id
  no_verdict_envelope_total kind reason named refused =
      let e0 = silent kind (reason_of kind reason) in
      (
        record e0 { evidence_id = digest (evidence_content_payload e0) },
        rw
            (
              refused,
              covers,
              normalize-no_verdict_draft kind (reason_of kind reason) named
                  (is_blank-reason_of kind reason) refused,
            )
            refl,
        refl,
        refl,
        (refl, refl, refl),
      )
