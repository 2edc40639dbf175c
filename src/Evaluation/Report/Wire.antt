-- ===== src/Evaluation/Report/Wire.antt =====
-- The reports that their strict JSON form lets pass, and what they read back as.
use evo_harness_preview.Prelude.{
  String, ◌≡◌, refl, Bool, true, false, not, ◌&&◌, Option, none, some, append_text,
}
use evo_harness_preview.Evaluation.Blank.{is_blank}
use evo_harness_preview.Evaluation.Faults.{ok, >>=_ok}
use evo_harness_preview.Evaluation.Values.{ℤ, pos, negsuc, Float, finite, float_of_int}
use evo_harness_preview.Evaluation.Report.{
  EvalReport, Number, whole, real, of_number, read_number, plain_report, is_below_zero, wire_number,
  is_present, show_non_finite,
}

abbrev is_natural : ℤ → Bool
is_natural (pos n) = true
is_natural (negsuc n) = false

abbrev is_natural_or_none : Option ℤ → Bool
is_natural_or_none none = true
is_natural_or_none (some n) = is_natural n

abbrev is_kind : Option String → Bool
is_kind none = true
is_kind (some t) = not (is_blank t)

-- The verdict of a report: a fault's kind is named, and a passing report has none.
abbrev pub has_verdict : EvalReport → Bool
has_verdict r = is_kind r.fault_kind && not (r.passed && is_present r.fault_kind)

-- No count is below 0.
abbrev pub has_counts : EvalReport → Bool
has_counts r =
    is_natural r.stage_reached && is_natural r.n_units && is_natural_or_none r.trustworthy_units

pub wire_number_lem : (n : Number) → wire_number false (of_number n) ≡ read_number n
unfolding wire_number
wire_number_lem (real y) = refl
wire_number_lem (whole n) = >>=_ok (float_of_int n)

-- The numbers of a report as floats, of which no time, cost or error is below 0.
pub record Floats (r : EvalReport) : Type 0 where
  pub fitness : Float
  pub execution_time : Float
  pub eval_cost_usd : Float
  pub sem : Float
  pub read_fitness : read_number r.fitness ≡ ok fitness
  pub read_time : read_number r.execution_time ≡ ok execution_time
  pub read_cost : read_number r.eval_cost_usd ≡ ok eval_cost_usd
  pub read_sem : read_number r.sem ≡ ok sem
  pub time : is_below_zero execution_time ≡ false
  pub cost : is_below_zero eval_cost_usd ≡ false
  pub error : is_below_zero sem ≡ false

-- The report with its numbers as floats.
abbrev pub with_floats : (r : EvalReport) → Floats r → EvalReport
with_floats r x = record r {
  fitness = real x.fitness;
  execution_time = real x.execution_time;
  eval_cost_usd = real x.eval_cost_usd;
  sem = real x.sem;
}

-- The report that stands for one without a finite fitness.
abbrev pub failed_report : Float → EvalReport
failed_report fitness =
    plain_report (finite false 0) false
      (some (append_text "non-finite fitness: " (show_non_finite fitness)))
