-- ===== src/Evaluation/Producer/Caught.antt =====
-- What `envelope_from_report` raises: an error that `grade` records, or OverflowError of an int that
-- is too large for a float.
use evo_harness_preview.Prelude.{
  ℕ, String, ◌≡◌, inl, refl, sym, subst, Bool, true, false, Option, none, some, List, ◌∷◌, arith,
}
use evo_harness_preview.Evaluation.Faults.{
  FaultKind, classify_fault, Raised, ok, raise, Fails, Fails-bind, Fails-refuse, failed,
}
use evo_harness_preview.Evaluation.Values.{
  Value, Items, Fields, opaque, ℤ, pos, Float, finite, infinite, nan, int, float, str, list, tuple,
  dict, proxy, no_items, item, no_fields, field, text, opaque_key, strict_int, strict_bool,
  optional_bool, optional_finite_float, freeze_json, freeze_items, freeze_fields,
}
use evo_harness_preview.Evaluation.Namespace.{
  ScoreNamespace, Coverage, strict_text, strict_units, new_coverage,
}
use evo_harness_preview.Evaluation.Evidence.{
  Draft, in_no_verdict, read_reasons, EvidenceEnvelope, of_text, read_artifacts_ref, read_budget,
  check_verdict, read_verifier, check_objective, read_fields, check_fields,
  normalize_and_validate_evidence,
}
use evo_harness_preview.Evaluation.Report.{EvalReport, Number, real, of_number}
use evo_harness_preview.Evaluation.Strict.{strict_report, is_type_or_value_error}
use evo_harness_preview.Evaluation.Producer.{trusted_units, report_provenance, envelope_from_report}
use evo_harness_preview.Evaluation.Codec.{new_evidence, assign_or_validate_evidence_id}
use evo_harness_preview.Evaluation.Producer.Reports.{strict_report-Judges}
use evo_harness_preview.Evaluation.Producer.Escapes.{
  Caught, Escapes, Escapes-behind, Escapes-Caught, strict_report-Escapes,
}

-- Freezing raises TypeError and ValueError alone.
abbrev FreezesCaught : Value → Type 0
FreezesCaught v = Fails Caught (freeze_json v)

abbrev ItemsCaught : Items → Type 0
ItemsCaught vs = Fails Caught (freeze_items vs)

abbrev FieldsCaught : Fields → Type 0
FieldsCaught fs = Fails Caught (freeze_fields fs)

freeze_json-Caught : (v : Value) → Fails Caught (freeze_json v)
unfolding freeze_json freeze_items freeze_fields is_type_or_value_error
freeze_json-Caught v = elim v as FreezesCaught ItemsCaught FieldsCaught [
  | list (vs → ih) ↦ Fails-bind Caught (freeze_items vs) (λ ws. ok (tuple ws)) ih (λ ws _. tt)
  | tuple (vs → ih) ↦ Fails-bind Caught (freeze_items vs) (λ ws. ok (tuple ws)) ih (λ ws _. tt)
  | dict (fs → ih) ↦ Fails-bind Caught (freeze_fields fs) (λ gs. ok (proxy gs)) ih (λ gs _. tt)
  | proxy (fs → ih) ↦ Fails-bind Caught (freeze_fields fs) (λ gs. ok (proxy gs)) ih (λ gs _. tt)
  | no_items ↦ tt
  | item (v → ih) (vs → ihs) ↦
      Fails-bind Caught (freeze_json v) _ ih
        (λ w _. Fails-bind Caught (freeze_items vs) (λ ws. ok (item w ws)) ihs (λ ws _. tt))
  | no_fields ↦ tt
  | field opaque_key (v → ih) (fs → ihs) ↦ refl
  | field (text k) (v → ih) (fs → ihs) ↦ Fails-bind Caught (freeze_json v) _ ih (λ w _.
      Fails-bind Caught (freeze_fields fs) (λ gs. ok (field (text k) w gs)) ihs (λ gs _. tt))
  | float (finite b n) ↦ tt
  | float x ↦ refl
  | opaque ↦ refl
  | _ ↦ tt
]

-- What stands behind the strict reading.
strict_text-Caught : (v : Value) → Fails Caught (strict_text v)
unfolding strict_text is_type_or_value_error
strict_text-Caught v = ground arith

read_artifacts_ref-Caught : (t : Option String) → Fails Caught (read_artifacts_ref (of_text t))
unfolding read_artifacts_ref
read_artifacts_ref-Caught none = tt
read_artifacts_ref-Caught (some t) =
    Fails-bind Caught (strict_text (str t)) (λ t. ok (some t)) (strict_text-Caught (str t))
      (λ t _. tt)

optional_finite_float-Caught : (x : Float) → Fails Caught (optional_finite_float (float x))
unfolding optional_finite_float is_type_or_value_error
optional_finite_float-Caught (finite b n) = tt
optional_finite_float-Caught (infinite b) = refl
optional_finite_float-Caught nan = refl

read_budget-Caught : (x : Float) → Fails Caught (read_budget (float x))
unfolding read_budget is_type_or_value_error
read_budget-Caught x = ground arith

classify_fault-Caught : (b : Bool) (t : Option String) → Fails Caught (classify_fault b t)
unfolding classify_fault is_type_or_value_error
classify_fault-Caught b t = ground arith

trusted_units-Caught :
    (planned : ℕ) (fault : Option FaultKind) (r : EvalReport)
    → Fails Caught (trusted_units planned fault r)
unfolding trusted_units is_type_or_value_error
trusted_units-Caught planned fault r = ground arith

new_coverage-Caught : (p e t : ℤ) → Fails Caught (new_coverage (int p) (int e) (int t))
unfolding new_coverage strict_units strict_int is_type_or_value_error
new_coverage-Caught p e t = ground arith

report_provenance-Caught :
    (digest : Value → String) (r : EvalReport) → Fails Caught (report_provenance digest r)
unfolding report_provenance is_type_or_value_error
report_provenance-Caught digest r = ground arith

check_verdict-Caught :
    (valid : Bool) (admissible : Option Bool) (fitness : Option Float) (fault : Option FaultKind)
    (reasons : List String) (objective : Option Bool)
    → Fails Caught (check_verdict valid admissible fitness fault reasons objective)
unfolding check_verdict is_type_or_value_error
check_verdict-Caught true admissible fitness fault reasons objective = ground arith
check_verdict-Caught false admissible fitness fault reasons objective = ground arith

read_verifier-Caught : (o : Option Bool) (v : Value) → Fails Caught (read_verifier o v)
unfolding read_verifier is_type_or_value_error
read_verifier-Caught o v = ground arith

check_objective-Caught :
    (valid : Bool) (admissible : Option Bool) (fault : Option FaultKind) (c : Coverage)
    (objective : Option Bool)
    → Fails Caught (check_objective valid admissible fault c objective)
unfolding check_objective is_type_or_value_error
check_objective-Caught valid admissible fault c objective = ground arith

read_reasons-Caught : (vs : Items) → Fails Caught (read_reasons vs)
unfolding read_reasons
read_reasons-Caught no_items = tt
read_reasons-Caught (item v vs) = Fails-bind Caught (strict_text v) _ (strict_text-Caught v) λ t _.
    Fails-bind Caught (read_reasons vs) (λ ts. ok (t ∷ ts)) (read_reasons-Caught vs) λ ts _. tt

strict_bool-Caught : (v : Value) → Fails Caught (strict_bool v)
unfolding strict_bool is_type_or_value_error
strict_bool-Caught v = ground arith

optional_bool-Caught : (v : Value) → Fails Caught (optional_bool v)
unfolding optional_bool is_type_or_value_error
optional_bool-Caught v = ground arith

read_fields-Caught :
    (d : Draft)
    → Fails Caught (optional_finite_float d.fitness)
    → Fails Caught (read_budget d.budget_used_usd)
    → Fails Caught (read_artifacts_ref d.artifacts_ref)
    → Fails Caught (read_fields d)
unfolding read_fields
read_fields-Caught d fitness budget artifacts =
    Fails-bind Caught (strict_text d.candidate_id) _ (strict_text-Caught d.candidate_id) λ a _.
      Fails-bind Caught (strict_bool d.evaluation_valid) _ (strict_bool-Caught d.evaluation_valid)
        λ b _.
          Fails-bind Caught (optional_bool d.admissible) _ (optional_bool-Caught d.admissible)
            λ c _.
              Fails-bind Caught (optional_bool d.objective_met) _
                (optional_bool-Caught d.objective_met)
                λ e _. Fails-bind Caught (optional_finite_float d.fitness) _ fitness λ f _.
                  Fails-bind Caught (read_budget d.budget_used_usd) _ budget λ g _.
                    Fails-bind Caught (read_artifacts_ref d.artifacts_ref) _ artifacts λ h _.
                      Fails-bind Caught (read_reasons d.missing_reasons) _
                        (read_reasons-Caught d.missing_reasons)
                        λ i _.
                          Fails-bind Caught (freeze_json d.observations) _
                            (freeze_json-Caught d.observations)
                            λ j _.
                              Fails-bind Caught (freeze_json d.provenance) _
                                (freeze_json-Caught d.provenance) λ k _. tt

check_fields-Caught : (v : Value) (e : EvidenceEnvelope) → Fails Caught (check_fields v e)
unfolding check_fields
check_fields-Caught v e =
    Fails-bind Caught
      (check_verdict e.evaluation_valid e.admissible e.fitness e.fault_kind e.missing_reasons
        e.objective_met)
      _
      (check_verdict-Caught e.evaluation_valid e.admissible e.fitness e.fault_kind e.missing_reasons
        e.objective_met)
      λ a _.
        Fails-bind Caught (read_verifier e.objective_met v) _
          (read_verifier-Caught e.objective_met v)
          λ b _.
            Fails-bind Caught
              (check_objective e.evaluation_valid e.admissible e.fault_kind e.coverage
                e.objective_met)
              _
              (check_objective-Caught e.evaluation_valid e.admissible e.fault_kind e.coverage
                e.objective_met)
              λ c _. tt

assign-Caught :
    (digest : Value → String) (v : Value) (e : EvidenceEnvelope)
    → Fails Caught (assign_or_validate_evidence_id digest v e)
unfolding assign_or_validate_evidence_id is_type_or_value_error
assign-Caught digest v e = ground arith

new_evidence-Caught :
    (digest : Value → String) (d : Draft)
    → Fails Caught (read_fields d)
    → Fails Caught (new_evidence digest d)
unfolding new_evidence normalize_and_validate_evidence
new_evidence-Caught digest d h =
    Fails-bind Caught (normalize_and_validate_evidence d) _
      (Fails-bind Caught (read_fields d) (check_fields d.objective_verifier_hash) h
        (λ e _. check_fields-Caught d.objective_verifier_hash e))
      (λ e _. assign-Caught digest d.evidence_id e)

fitness-Caught :
    (n : Number) (x : Float) → n ≡ real x → Fails Caught (optional_finite_float (of_number n))
fitness-Caught n x is =
    subst (λ (m : Number). Fails Caught (optional_finite_float (of_number m))) (sym is)
      (optional_finite_float-Caught x)

cost-Caught : (n : Number) (x : Float) → n ≡ real x → Fails Caught (read_budget (of_number n))
cost-Caught n x is =
    subst (λ (m : Number). Fails Caught (read_budget (of_number m))) (sym is) (read_budget-Caught x)

envelope_from_report-Escapes :
    (digest : Value → String) (report : EvalReport) (candidate_id : String)
    (namespace : ScoreNamespace) (planned_units : ℕ)
    → Fails
        (Escapes report)
        (envelope_from_report digest report candidate_id namespace planned_units)
unfolding envelope_from_report is_type_or_value_error
envelope_from_report-Escapes digest report candidate_id namespace planned_units =
    let Q = Escapes report in
    Fails-bind Q (strict_report report) _ (strict_report-Escapes report) λ r p.
      let ((f, read, is_f), (c, is_c), _) = strict_report-Judges report p in
      Escapes-behind report (classify_fault r.passed r.fault_kind) _
        (classify_fault-Caught r.passed r.fault_kind)
        λ fault _. Fails-refuse Q (in_no_verdict fault) _ _ (inl refl) (
          Escapes-behind report (trusted_units planned_units fault r) _
            (trusted_units-Caught planned_units fault r)
            λ t _.
              Escapes-behind report (new_coverage (int (pos planned_units)) (int r.n_units) (int t))
                _ (new_coverage-Caught (pos planned_units) r.n_units t)
                λ coverage _.
                  Escapes-behind report (report_provenance digest r) _
                    (report_provenance-Caught digest r)
                    λ provenance _. Escapes-Caught report _ (
                      new_evidence-Caught digest _ (
                        read_fields-Caught _ (fitness-Caught r.fitness f is_f)
                          (cost-Caught r.eval_cost_usd c is_c)
                          (read_artifacts_ref-Caught r.artifacts_ref))))

pub envelope_from_report_fails :
    (digest : Value → String) (report : EvalReport) (candidate_id : String)
    (namespace : ScoreNamespace) (planned_units : ℕ) {x : Raised}
    → envelope_from_report digest report candidate_id namespace planned_units ≡ raise x
    → Escapes report x
envelope_from_report_fails digest report candidate_id namespace planned_units =
    failed (Escapes report) _
      (envelope_from_report-Escapes digest report candidate_id namespace planned_units)
