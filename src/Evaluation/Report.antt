-- ===== src/Evaluation/Report.antt =====
-- evoharness/core/population.py: `EvalReport`, what a grader returns, and its strict JSON form.
--
-- The fields of a report have the types that its class names; where the class says float, a number
-- may be an int as well, and its strict form reads it as a float.
pub mod Wire
use evo_harness_preview.Prelude.{
  ℕ, String, Bool, true, false, not, ◌&&◌, ◌||◌, Option, none, some, List, [], ◌∷◌, all, any, ltb,
  append_text, if◌then◌else◌,
}
use evo_harness_preview.Evaluation.Blank.{is_blank}
use evo_harness_preview.Evaluation.Faults.{
  Result, ok, raise, ◌>>=◌, refuse_if, type_error, value_error,
}
use evo_harness_preview.Evaluation.Values.{
  Value, Fields, Key, ℤ, pos, negsuc, Float, finite, infinite, nan, null, bool, int, float, str,
  dict, no_fields, field, is_finite, float_of_int, strict_bool, strict_int,
}
use evo_harness_preview.Evaluation.Namespace.{entry, is_key, get_field, keys}
use evo_harness_preview.Evaluation.Evidence.{of_text}
use evo_harness_preview.Evaluation.Codec.{is_one}

-- A number that a field of type float may have.
pub data Number : Type 0 where
  whole : ℤ → Number
  real : Float → Number

pub record EvalReport : Type 0 where
  pub fitness : Number
  pub passed : Bool
  pub fault : Option String
  pub visible_metrics : Fields
  pub hidden_metrics : Fields
  pub notes : String
  pub structured_feedback : Option Fields
  pub artifacts_ref : Option String
  pub stdout_log : String
  pub stderr_log : String
  pub stage_reached : ℤ
  pub execution_time : Number
  pub eval_cost_usd : Number
  pub n_units : ℤ
  pub trustworthy_units : Option ℤ
  pub sem : Number
  pub fault_kind : Option String

-- A report with the defaults of the class.
unfoldable pub plain_report : Float → Bool → Option String → EvalReport
plain_report fitness passed fault = record {
  fitness = real fitness;
  passed = passed;
  fault = fault;
  visible_metrics = no_fields;
  hidden_metrics = no_fields;
  notes = "";
  structured_feedback = none;
  artifacts_ref = none;
  stdout_log = "";
  stderr_log = "";
  stage_reached = pos 3;
  execution_time = real (finite false 0);
  eval_cost_usd = real (finite false 0);
  n_units = pos 0;
  trustworthy_units = none;
  sem = real (finite false 0);
  fault_kind = none;
}

abbrev pub of_fields : Option Fields → Value
of_fields none = null
of_fields (some fs) = dict fs

abbrev pub of_number : Number → Value
of_number (whole n) = int n
of_number (real x) = float x

-- `float(number)`
abbrev pub read_number : Number → Result Float
read_number (whole n) = float_of_int n
read_number (real x) = ok x

abbrev pub of_int : Option ℤ → Value
of_int none = null
of_int (some n) = int n

unfoldable pub report_fields : EvalReport → Fields
report_fields r = entry "schema_version" (int (pos 1)) (
    entry "fitness" (of_number r.fitness) (
      entry "passed" (bool r.passed) (
        entry "fault" (of_text r.fault) (
          entry "visible_metrics" (dict r.visible_metrics) (
            entry "hidden_metrics" (dict r.hidden_metrics) (
              entry "notes" (str r.notes) (
                entry "structured_feedback" (of_fields r.structured_feedback) (
                  entry "artifacts_ref" (of_text r.artifacts_ref) (
                    entry "stdout_log" (str r.stdout_log) (
                      entry "stderr_log" (str r.stderr_log) (
                        entry "stage_reached" (int r.stage_reached) (
                          entry "execution_time" (of_number r.execution_time) (
                            entry "eval_cost_usd" (of_number r.eval_cost_usd) (
                              entry "n_units" (int r.n_units) (
                                entry "trustworthy_units" (of_int r.trustworthy_units) (
                                  entry "sem" (of_number r.sem) (
                                    entry "fault_kind" (of_text r.fault_kind)
                                      no_fields)))))))))))))))))

-- `name in d`, and `d.get(name, default)`.
abbrev has_key : String → Fields → Bool
has_key name fs = any (is_key name) (keys fs)

abbrev pub get_or : String → Value → Fields → Value
get_or name default no_fields = default
get_or name default (field k v fs) = if is_key name k then v else get_or name default fs

-- `number < 0`
abbrev pub is_below_zero : Float → Bool
is_below_zero (finite b n) = b && ltb 0 n
is_below_zero (infinite b) = b
is_below_zero nan = false

unfoldable pub wire_number : Bool → Value → Result Float
wire_number non_negative (float x) = refuse_if (non_negative && is_below_zero x) value_error (ok x)
wire_number non_negative (int n) =
    float_of_int n >>= λ x. refuse_if (non_negative && is_below_zero x) value_error (ok x)
wire_number non_negative _ = raise type_error

-- Every `_wire_int` of a report asks for a number that is not negative.
unfoldable pub wire_int : Value → Result ℤ
wire_int (int (pos n)) = ok (pos n)
wire_int (int (negsuc n)) = raise value_error
wire_int _ = raise type_error

unfoldable pub wire_mapping : Value → Result Fields
wire_mapping (dict fs) = ok fs
wire_mapping _ = raise type_error

unfoldable pub wire_string : Value → Result String
wire_string (str t) = ok t
wire_string _ = raise type_error

unfoldable pub wire_optional_string : Value → Result (Option String)
wire_optional_string null = ok none
wire_optional_string (str t) = ok (some t)
wire_optional_string _ = raise type_error

unfoldable pub wire_fault_kind : Value → Result (Option String)
wire_fault_kind null = ok none
wire_fault_kind (str t) = refuse_if (is_blank t) type_error (ok (some t))
wire_fault_kind _ = raise type_error

-- What is read `if … is not None`.
unfoldable pub wire_optional {ℓ} : {A : Type ℓ} → (Value → Result A) → Value → Result (Option A)
wire_optional read null = ok none
wire_optional read v = read v >>= λ a. ok (some a)

abbrev pub is_present {ℓ} : {A : Type ℓ} → Option A → Bool
is_present none = false
is_present (some _) = true

-- How Python shows a float that is not finite.
abbrev pub show_non_finite : Float → String
show_non_finite (infinite true) = "-inf"
show_non_finite (infinite false) = "inf"
show_non_finite _ = "nan"

-- What stands behind the test of the fitness.
unfoldable pub wire_rest : Float → Bool → Option String → Fields → Result EvalReport
unfolding wire_number wire_int wire_mapping wire_string wire_optional_string wire_optional
wire_rest fitness passed fault_kind fs =
    wire_mapping (get_or "visible_metrics" (dict no_fields) fs) >>= λ visible.
    wire_mapping (get_or "hidden_metrics" (dict no_fields) fs) >>= λ hidden.
    wire_optional wire_mapping (get_field "structured_feedback" fs) >>= λ feedback.
    wire_optional wire_int (get_field "trustworthy_units" fs) >>= λ trustworthy.
    wire_optional_string (get_field "fault" fs) >>= λ fault.
    wire_string (get_or "notes" (str "") fs) >>= λ notes.
    wire_optional_string (get_field "artifacts_ref" fs) >>= λ artifacts.
    wire_string (get_or "stdout_log" (str "") fs) >>= λ stdout_log.
    wire_string (get_or "stderr_log" (str "") fs) >>= λ stderr_log.
    wire_int (get_or "stage_reached" (int (pos 3)) fs) >>= λ stage.
    wire_number true (get_or "execution_time" (float (finite false 0)) fs) >>= λ time.
    wire_number true (get_or "eval_cost_usd" (float (finite false 0)) fs) >>= λ cost.
    wire_int (get_or "n_units" (int (pos 0)) fs) >>= λ n_units.
    wire_number true (get_or "sem" (float (finite false 0)) fs) >>= λ sem. ok (record {
      fitness = real fitness;
      passed = passed;
      fault = fault;
      visible_metrics = visible;
      hidden_metrics = hidden;
      notes = notes;
      structured_feedback = feedback;
      artifacts_ref = artifacts;
      stdout_log = stdout_log;
      stderr_log = stderr_log;
      stage_reached = stage;
      execution_time = real time;
      eval_cost_usd = real cost;
      n_units = n_units;
      trustworthy_units = trustworthy;
      sem = real sem;
      fault_kind = fault_kind;
    })

unfoldable pub report_from_json : Value → Result EvalReport
unfolding wire_fault_kind wire_number wire_rest plain_report
report_from_json (dict fs) =
    refuse_if (has_key "schema_version" fs && not (is_one (get_field "schema_version" fs)))
      value_error
      (refuse_if (not (has_key "fitness" fs && has_key "passed" fs)) value_error (
        strict_bool (get_field "passed" fs) >>= λ passed.
        wire_number false (get_field "fitness" fs) >>= λ fitness.
        wire_fault_kind (get_field "fault_kind" fs) >>= λ fault_kind.
        refuse_if (passed && is_present fault_kind) value_error (
          if not (is_finite fitness)
          then ok (
              plain_report (finite false 0) false
                (some (append_text "non-finite fitness: " (show_non_finite fitness))))
          else wire_rest fitness passed fault_kind fs)))
report_from_json _ = raise type_error
