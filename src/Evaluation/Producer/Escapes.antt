-- ===== src/Evaluation/Producer/Escapes.antt =====
-- What the strict reading of a report raises: an error that `grade` records, or OverflowError of an
-- int that is too large for a float.
use evo_harness_preview.Prelude.{
  ℕ, suc, String, ◌≡◌, ◌⊎◌, inl, inr, refl, subst, Bool, true, false, ◌&&◌, Option, some, [], ◌∷◌,
  Memᴰ, arith, Bool-cases,
}
use evo_harness_preview.Evaluation.Blank.{is_blank}
use evo_harness_preview.Evaluation.Faults.{
  Raised, Result, ok, raise, ◌>>=◌, refuse_if, Result-cases, type_error, value_error,
  overflow_error, Fails, Fails-bind, Fails-refuse, Fails-each, failed,
}
use evo_harness_preview.Evaluation.Values.{
  Value, Fields, ℤ, pos, negsuc, Float, finite, null, int, float, str, dict, no_fields,
  float_of_int, float_of_magnitude, is_finite, strict_bool,
}
use evo_harness_preview.Evaluation.Namespace.{get_field}
use evo_harness_preview.Evaluation.Evidence.{of_text}
use evo_harness_preview.Evaluation.Report.{
  EvalReport, Number, whole, real, of_number, read_number, wire_number, wire_int, wire_mapping,
  wire_string, wire_optional_string, wire_optional, wire_fault_kind, wire_rest, report_fields,
  report_from_json, get_or, is_below_zero, is_present,
}
use evo_harness_preview.Evaluation.Strict.{strict_report, is_type_or_value_error}

abbrev pub Caught : Raised → Type 0
Caught e = is_type_or_value_error e ≡ true

-- A number of the report is an int that `float` raises OverflowError of.
abbrev pub IsTooLarge : EvalReport → Type 0
IsTooLarge r =
    (m : Number) × Memᴰ m (r.fitness ∷ r.execution_time ∷ r.eval_cost_usd ∷ r.sem ∷ [])
    × (read_number m ≡ raise overflow_error)

abbrev pub Escapes : EvalReport → Raised → Type 0
Escapes r e = Caught e ⊎ (e ≡ overflow_error) × IsTooLarge r

pub Escapes-Caught :
    {A : Type 0} (r : EvalReport) (call : Result A) → Fails Caught call → Fails (Escapes r) call
Escapes-Caught r (ok a) h = tt
Escapes-Caught r (raise e) h = inl h

-- Behind a call whose errors are recorded.
pub Escapes-behind :
    {A B : Type 0} (r : EvalReport) (call : Result A) (rest : A → Result B)
    → Fails Caught call
    → ((a : A) → call ≡ ok a → Fails (Escapes r) (rest a))
    → Fails (Escapes r) (call >>= rest)
Escapes-behind r call rest h k = Fails-bind (Escapes r) call rest (Escapes-Caught r call h) k

wire_mapping-Caught : (v : Value) → Fails Caught (wire_mapping v)
unfolding wire_mapping is_type_or_value_error
wire_mapping-Caught v = ground arith

wire_int-Caught : (v : Value) → Fails Caught (wire_int v)
unfolding wire_int is_type_or_value_error
wire_int-Caught v = ground arith

wire_string-Caught : (v : Value) → Fails Caught (wire_string v)
unfolding wire_string is_type_or_value_error
wire_string-Caught v = ground arith

wire_optional_string-Caught : (v : Value) → Fails Caught (wire_optional_string v)
unfolding wire_optional_string is_type_or_value_error
wire_optional_string-Caught v = ground arith

wire_fault_kind-Caught : (v : Value) → Fails Caught (wire_fault_kind v)
unfolding wire_fault_kind is_type_or_value_error
wire_fault_kind-Caught null = tt
wire_fault_kind-Caught (str t) = Fails-refuse Caught (is_blank t) type_error (ok (some t)) refl tt
wire_fault_kind-Caught _ = refl

wire_optional-Caught :
    {A : Type 0} (read : Value → Result A) (v : Value)
    → ((v : Value) → Fails Caught (read v))
    → Fails Caught (wire_optional read v)
unfolding wire_optional
wire_optional-Caught read null h = tt
wire_optional-Caught read v h = Fails-bind Caught (read v) (λ a. ok (some a)) (h v) (λ a _. tt)

refused_with :
    {A : Type 0} (b : Bool) (e : Raised) (y : A) {x : Raised}
    → refuse_if b e (ok y) ≡ raise x
    → x ≡ e
refused_with true e y h = ground arith
refused_with false e y h = cc

magnitude_fails :
    (b : Bool) (n : ℕ) {e : Raised} → float_of_magnitude b n ≡ raise e → e ≡ overflow_error
unfolding float_of_magnitude
magnitude_fails b n h = refused_with _ overflow_error (finite b _) h

-- An int is read as a float, or it is too large.
float_of_int_fails : (n : ℤ) {e : Raised} → float_of_int n ≡ raise e → e ≡ overflow_error
unfolding float_of_int
float_of_int_fails (pos n) h = magnitude_fails false n h
float_of_int_fails (negsuc n) h = magnitude_fails true (suc n) h

wire_number-Escapes :
    (r : EvalReport) (b : Bool) (m : Number)
    → Memᴰ m (r.fitness ∷ r.execution_time ∷ r.eval_cost_usd ∷ r.sem ∷ [])
    → Fails (Escapes r) (wire_number b (of_number m))
unfolding wire_number is_type_or_value_error
wire_number-Escapes r b (real x) here =
    Fails-refuse (Escapes r) (b && is_below_zero x) value_error (ok x) (inl refl) tt
wire_number-Escapes r b (whole n) here =
    Fails-bind (Escapes r) (float_of_int n) _
      (Fails-each (Escapes r) (float_of_int n) (λ e h.
        let over = float_of_int_fails n h in
        inr (over, (whole n, here, subst (λ x. float_of_int n ≡ raise x) over h))))
      (λ x _. Fails-refuse (Escapes r) (b && is_below_zero x) value_error (ok x) (inl refl) tt)

-- The strict reading of a report.
wire_rest-Escapes :
    (r : EvalReport) (f : Float) (passed : Bool) (kind : Option String) (fs : Fields)
    → Fails (Escapes r) (wire_number true (get_or "execution_time" (float (finite false 0)) fs))
    → Fails (Escapes r) (wire_number true (get_or "eval_cost_usd" (float (finite false 0)) fs))
    → Fails (Escapes r) (wire_number true (get_or "sem" (float (finite false 0)) fs))
    → Fails (Escapes r) (wire_rest f passed kind fs)
unfolding wire_rest
wire_rest-Escapes r f passed kind fs time cost sem =
    Escapes-behind r (wire_mapping (get_or "visible_metrics" (dict no_fields) fs)) _
      (wire_mapping-Caught (get_or "visible_metrics" (dict no_fields) fs))
      λ v _.
        Escapes-behind r (wire_mapping (get_or "hidden_metrics" (dict no_fields) fs)) _
          (wire_mapping-Caught (get_or "hidden_metrics" (dict no_fields) fs))
          λ h _.
            Escapes-behind r (wire_optional wire_mapping (get_field "structured_feedback" fs)) _
              (wire_optional-Caught wire_mapping (get_field "structured_feedback" fs)
                wire_mapping-Caught)
              λ s _.
                Escapes-behind r (wire_optional wire_int (get_field "trustworthy_units" fs)) _
                  (wire_optional-Caught wire_int (get_field "trustworthy_units" fs) wire_int-Caught)
                  λ t _.
                    Escapes-behind r (wire_optional_string (get_field "fault" fs)) _
                      (wire_optional_string-Caught (get_field "fault" fs))
                      λ t' _.
                        Escapes-behind r (wire_string (get_or "notes" (str "") fs)) _
                          (wire_string-Caught (get_or "notes" (str "") fs))
                          λ n _.
                            Escapes-behind r (wire_optional_string (get_field "artifacts_ref" fs)) _
                              (wire_optional_string-Caught (get_field "artifacts_ref" fs))
                              λ a _.
                                Escapes-behind r (wire_string (get_or "stdout_log" (str "") fs)) _
                                  (wire_string-Caught (get_or "stdout_log" (str "") fs))
                                  λ o _.
                                    Escapes-behind r (wire_string (get_or "stderr_log" (str "") fs))
                                      _ (wire_string-Caught (get_or "stderr_log" (str "") fs))
                                      λ e _.
                                        Escapes-behind r
                                          (wire_int (get_or "stage_reached" (int (pos 3)) fs)) _
                                          (wire_int-Caught
                                            (get_or "stage_reached" (int (pos 3)) fs))
                                          λ g _.
                                            Fails-bind (Escapes r)
                                              (wire_number true (
                                                get_or "execution_time" (float (finite false 0))
                                                  fs))
                                              _ time
                                              λ x _.
                                                Fails-bind (Escapes r)
                                                  (wire_number true (
                                                    get_or "eval_cost_usd" (float (finite false 0))
                                                      fs))
                                                  _ cost
                                                  λ c _.
                                                    Escapes-behind r
                                                      (wire_int (get_or "n_units" (int (pos 0)) fs))
                                                      _
                                                      (wire_int-Caught
                                                        (get_or "n_units" (int (pos 0)) fs))
                                                      λ u _.
                                                        Fails-bind (Escapes r)
                                                          (wire_number true (
                                                            get_or "sem" (float (finite false 0))
                                                            fs))
                                                          _ sem λ m _. tt

report_from_json-Escapes :
    (r : EvalReport) → Fails (Escapes r) (report_from_json (dict (report_fields r)))
unfolding report_from_json report_fields strict_bool is_type_or_value_error
report_from_json-Escapes r =
    Fails-bind (Escapes r) (wire_number false (of_number r.fitness)) _
      (wire_number-Escapes r false r.fitness (Memᴰ.head refl))
      λ f _.
        Escapes-behind r (wire_fault_kind (of_text r.fault_kind)) _
          (wire_fault_kind-Caught (of_text r.fault_kind))
          λ kind _.
            Fails-refuse (Escapes r) (r.passed && is_present kind) value_error _ (inl refl)
              (elim (Bool-cases (is_finite f)) [
                | inl here ↦ rw here (
                    wire_rest-Escapes r f r.passed kind (report_fields r)
                      (wire_number-Escapes r true r.execution_time (Memᴰ.tail (Memᴰ.head refl)))
                      (wire_number-Escapes r true r.eval_cost_usd
                        (Memᴰ.tail (Memᴰ.tail (Memᴰ.head refl))))
                      (wire_number-Escapes r true r.sem
                        (Memᴰ.tail (Memᴰ.tail (Memᴰ.tail (Memᴰ.head refl))))))
                | inr there ↦ rw there tt
              ])

pub strict_report-Escapes : (r : EvalReport) → Fails (Escapes r) (strict_report r)
unfolding strict_report is_type_or_value_error
strict_report-Escapes r = Fails-each (Escapes r) (strict_report r) λ e h.
    elim (Result-cases (report_from_json (dict (report_fields r)))) [
      | inl (x, raised) ↦ elim (failed (Escapes r) _ (report_from_json-Escapes r) raised) [
        | inl caught ↦ inl (ground (arith, h, raised, caught))
        | inr (over, large) ↦ inr (ground (arith, h, raised, over), large)
      ]
      | inr (m, read) ↦ inl (ground (arith, h, read))
    ]
