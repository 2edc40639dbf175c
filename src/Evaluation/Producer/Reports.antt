-- ===== src/Evaluation/Producer/Reports.antt =====
-- What the envelope of a report says.
use evo_harness_preview.Prelude.{
  ℕ, String, ◌≡◌, refl, sym, subst, ap, ◌∙◌, Bool, true, false, ◌&&◌, Bool-cases, inl, inr, Option,
  some, arith,
}
use evo_harness_preview.Evaluation.Faults.{
  classify_fault, ok, Result-cases, Ensures, Ensures-bind, Ensures-refuse, ensured, Ensures-each,
  value_error,
}
use evo_harness_preview.Evaluation.Values.{
  Value, Fields, Float, infinite, nan, ℤ, pos, bool, is_finite, float, int, str, dict, finite,
  no_fields, strict_int, strict_bool, optional_finite_float,
}
use evo_harness_preview.Evaluation.Namespace.{
  ScoreNamespace, Coverage, strict_text, strict_units, new_coverage, get_field,
}
use evo_harness_preview.Evaluation.Evidence.{EvidenceEnvelope, in_no_verdict, of_text}
use evo_harness_preview.Evaluation.Evidence.Sound.{float_of_int_lem}
use evo_harness_preview.Evaluation.Evidence.Given.{new_evidence-IsFrom}
use evo_harness_preview.Evaluation.Codec.Identity.{IsBuilt, new_evidence-IsBuilt}
use evo_harness_preview.Evaluation.Report.{
  EvalReport, Number, whole, real, of_number, read_number, plain_report, report_from_json,
  report_fields, wire_rest, wire_mapping, wire_optional, wire_int, wire_number, wire_string,
  wire_optional_string, wire_fault_kind, get_or, is_present,
}
use evo_harness_preview.Evaluation.Report.Wire.{wire_number_lem}
use evo_harness_preview.Evaluation.Strict.{same_number, same_report, strict_report}
use evo_harness_preview.Evaluation.Producer.{trusted_units, report_provenance, envelope_from_report}
use evo_harness_preview.Evaluation.Producer.Envelopes.{IsOf}

-- A report that its strict form lets pass keeps its verdict, and its fitness and its cost as floats.
abbrev pub Judges : EvalReport → EvalReport → Type 0
Judges r n =
    ((f : Float) × (read_number r.fitness ≡ ok f) × (n.fitness ≡ real f))
    × ((c : Float) × (n.eval_cost_usd ≡ real c))
    × (n.passed ≡ r.passed)

wire_rest-Judges :
    (r : EvalReport) (f : Float) (kind : Option String) (fs : Fields)
    → read_number r.fitness ≡ ok f
    → Ensures (Judges r) (wire_rest f r.passed kind fs)
unfolding wire_rest
wire_rest-Judges r f kind fs read =
    Ensures-bind (Judges r) (wire_mapping (get_or "visible_metrics" (dict no_fields) fs)) _ λ v _.
      Ensures-bind (Judges r) (wire_mapping (get_or "hidden_metrics" (dict no_fields) fs)) _ λ h _.
        Ensures-bind (Judges r) (wire_optional wire_mapping (get_field "structured_feedback" fs)) _
          λ s _.
            Ensures-bind (Judges r) (wire_optional wire_int (get_field "trustworthy_units" fs)) _
              λ t _. Ensures-bind (Judges r) (wire_optional_string (get_field "fault" fs)) _ λ t' _.
                Ensures-bind (Judges r) (wire_string (get_or "notes" (str "") fs)) _ λ n _.
                  Ensures-bind (Judges r) (wire_optional_string (get_field "artifacts_ref" fs)) _
                    λ a _.
                      Ensures-bind (Judges r) (wire_string (get_or "stdout_log" (str "") fs)) _
                        λ o _.
                          Ensures-bind (Judges r) (wire_string (get_or "stderr_log" (str "") fs)) _
                            λ e _.
                              Ensures-bind (Judges r)
                                (wire_int (get_or "stage_reached" (int (pos 3)) fs)) _
                                λ g _.
                                  Ensures-bind (Judges r)
                                    (wire_number true
                                      (get_or "execution_time" (float (finite false 0)) fs))
                                    _
                                    λ x _.
                                      Ensures-bind (Judges r)
                                        (wire_number true
                                          (get_or "eval_cost_usd" (float (finite false 0)) fs))
                                        _
                                        λ c _.
                                          Ensures-bind (Judges r)
                                            (wire_int (get_or "n_units" (int (pos 0)) fs)) _
                                            λ u _.
                                              Ensures-bind (Judges r)
                                                (wire_number true
                                                  (get_or "sem" (float (finite false 0)) fs))
                                                _ λ m _. ((f, read, refl), (c, refl), refl)

number_differs :
    (m : Number) (f : Float)
    → read_number m ≡ ok f
    → is_finite f ≡ false
    → same_number m (real (finite false 0)) ≡ false
unfolding same_number
number_differs (real (finite b n)) f read h = absurd (ground (arith, read, h))
number_differs (real (infinite b)) f read h = refl
number_differs (real nan) f read h = refl
number_differs (whole n) f read h =
    let (b, k, e) = float_of_int_lem n read in absurd (ground (arith, e, h))

-- A report that is not finite is read as another one.
plain_differs :
    (r : EvalReport) (f : Float) (n : EvalReport)
    → read_number r.fitness ≡ ok f
    → is_finite f ≡ false
    → n.fitness ≡ real (finite false 0)
    → ¬ (same_report r n ≡ true)
unfolding same_report
plain_differs r f n read infinite_fitness zero_fitness same =
    let differs : same_number r.fitness n.fitness ≡ false =
      rw zero_fitness (number_differs r.fitness f read infinite_fitness) in
    ground (arith, differs, same)

report_from_json-Judges :
    (r : EvalReport)
    → Ensures (λ n. same_report r n ≡ true → Judges r n) (report_from_json (dict (report_fields r)))
unfolding report_from_json report_fields strict_bool plain_report
report_from_json-Judges r =
    let P = λ (n : EvalReport). same_report r n ≡ true → Judges r n in
    rw (wire_number_lem r.fitness) (
      Ensures-bind P (read_number r.fitness) _ λ f read.
        Ensures-bind P (wire_fault_kind (of_text r.fault_kind)) _ λ kind _.
          Ensures-refuse P (r.passed && is_present kind) value_error _
            (elim (Bool-cases (is_finite f)) [
              | inl here ↦ rw here (
                  Ensures-each P _ (λ n e _.
                    ensured (Judges r) _ (wire_rest-Judges r f kind (report_fields r) read) e))
              | inr there ↦ rw there (λ same. absurd (plain_differs r f _ read there refl same))
            ]))

pub strict_report-Judges : (r : EvalReport) {n : EvalReport} → strict_report r ≡ ok n → Judges r n
unfolding strict_report
strict_report-Judges r {n} h = elim (Result-cases (report_from_json (dict (report_fields r)))) [
  | inl (x, e) ↦ absurd (ground (arith, h, e))
  | inr (m, e) ↦ elim (Bool-cases (same_report r m)) [
    | inl same ↦
        let judged = ensured _ _ (report_from_json-Judges r) e same in
        ground (arith, h, e, same, judged)
    | inr other ↦ absurd (ground (arith, h, e, other))
  ]
]

strict_text_str : (t : String) {u : String} → strict_text (str t) ≡ ok u → t ≡ u
unfolding strict_text
strict_text_str t h = ground arith

strict_bool_bool : (b : Bool) {c : Bool} → strict_bool (bool b) ≡ ok c → c ≡ b
unfolding strict_bool
strict_bool_bool b h = ground arith

optional_finite_float_float :
    (x : Float) {o : Option Float} → optional_finite_float (float x) ≡ ok o → o ≡ some x
unfolding optional_finite_float
optional_finite_float_float (finite b n) h = ground arith
optional_finite_float_float (infinite b) h = cc
optional_finite_float_float nan h = cc

fitness_of :
    (report n : EvalReport) {o : Option Float}
    → Judges report n
    → optional_finite_float (of_number n.fitness) ≡ ok o
    → (f : Float) × (read_number report.fitness ≡ ok f) × (o ≡ some f)
fitness_of report n {o} ((f, read, is), _, _) h = (
  f,
  read,
  optional_finite_float_float f
      (subst (λ (m : Number). optional_finite_float (of_number m) ≡ ok o) is h),
)

planned_lem :
    (r : EvalReport) (planned : ℕ) (trustworthy : ℤ) {c : Coverage}
    → new_coverage (int (pos planned)) (int r.n_units) (int trustworthy) ≡ ok c
    → c.planned_units ≡ planned
unfolding new_coverage strict_units strict_int
planned_lem r planned trustworthy h = ground arith

abbrev pub IsOfReport :
    (Value → String) → EvalReport → String → ScoreNamespace → ℕ → EvidenceEnvelope → Type 0
IsOfReport digest report candidate_id namespace planned_units e =
    IsBuilt digest e
    × IsOf e candidate_id namespace planned_units
    × (e.evaluation_valid ≡ true)
    × (f : Float) × (read_number report.fitness ≡ ok f)
    × (e.fitness ≡ some f)

-- An envelope of a report.
envelope_from_report-IsOfReport :
    (digest : Value → String) (report : EvalReport) (candidate_id : String)
    (namespace : ScoreNamespace) (planned_units : ℕ)
    → Ensures
        (IsOfReport digest report candidate_id namespace planned_units)
        (envelope_from_report digest report candidate_id namespace planned_units)
unfolding envelope_from_report
envelope_from_report-IsOfReport digest report candidate_id namespace planned_units =
    let P = IsOfReport digest report candidate_id namespace planned_units in
    Ensures-bind P (strict_report report) _ λ r p.
      Ensures-bind P (classify_fault r.passed r.fault_kind) _ λ fault _.
        Ensures-refuse P (in_no_verdict fault) _ _ (
          Ensures-bind P (trusted_units planned_units fault r) _ λ trustworthy _.
            Ensures-bind P
              (new_coverage (int (pos planned_units)) (int r.n_units) (int trustworthy)) _
              λ coverage q. Ensures-bind P (report_provenance digest r) _ λ provenance _.
                Ensures-each P _ λ e built.
                  let from = new_evidence-IsFrom digest _ e built in
                  let (f, read, is) =
                    fitness_of report r (strict_report-Judges report p) from.fitness in
                  (
                    new_evidence-IsBuilt digest _ e built,
                    (
                      sym (strict_text_str candidate_id from.candidate_id),
                      from.namespace,
                      ap Coverage.planned_units from.coverage
                          ∙ planned_lem r planned_units trustworthy q,
                    ),
                    strict_bool_bool true from.evaluation_valid,
                    f,
                    read,
                    is,
                  ))

pub envelope_from_report_lem :
    (digest : Value → String) (report : EvalReport) (candidate_id : String)
    (namespace : ScoreNamespace) (planned_units : ℕ) (e : EvidenceEnvelope)
    → envelope_from_report digest report candidate_id namespace planned_units ≡ ok e
    → IsOfReport digest report candidate_id namespace planned_units e
envelope_from_report_lem digest report candidate_id namespace planned_units e =
    ensured (IsOfReport digest report candidate_id namespace planned_units)
      (envelope_from_report digest report candidate_id namespace planned_units)
      (envelope_from_report-IsOfReport digest report candidate_id namespace planned_units)
