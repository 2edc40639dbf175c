-- ===== src/Evaluation/Strict.antt =====
-- evoharness/evaluation/producer.py: the strict reading of a report at the start of
-- `envelope_from_report`.
use Prim.Native.Nat.{◌^◌}
use evo_harness_preview.Prelude.{suc, ◌*◌, Bool, true, false, not, ◌&&◌, ◌||◌, ◌==◌, if◌then◌else◌}
use evo_harness_preview.Evaluation.Faults.{
  protocol_error, Raised, Result, ok, raise, refuse_if, overflow_error, evidence_protocol_error,
  evidence_sink_error, eval_infra_error,
}
use evo_harness_preview.Evaluation.Values.{pos, negsuc, finite, infinite, nan, dict}
use evo_harness_preview.Evaluation.Evidence.{same_bool}
use evo_harness_preview.Evaluation.Report.{
  EvalReport, Number, whole, real, report_fields, report_from_json,
}

-- `except (TypeError, ValueError)`: EvidenceProtocolError is a ValueError and NamespaceMismatch a
-- TypeError; OverflowError is neither.
unfoldable pub is_type_or_value_error : Raised → Bool
is_type_or_value_error overflow_error = false
is_type_or_value_error evidence_sink_error = false
is_type_or_value_error eval_infra_error = false
is_type_or_value_error _ = true

-- `==` of a number and the float that was read from it. A float is read as the same object, which a
-- dict finds equal to itself, nan too.
unfoldable pub same_number : Number → Number → Bool
same_number (whole (pos n)) (real (finite b k)) = k == n * 2 ^ 1074 && (not b || k == 0)
same_number (whole (negsuc n)) (real (finite b k)) = k == suc n * 2 ^ 1074 && b
same_number (real (finite b n)) (real (finite c k)) = n == k && (same_bool b c || n == 0)
same_number (real (infinite b)) (real (infinite c)) = same_bool b c
same_number (real nan) (real nan) = true
same_number (whole (pos n)) (whole (pos k)) = n == k
same_number (whole (negsuc n)) (whole (negsuc k)) = n == k
same_number _ _ = false

-- `normalized_report.to_json() == report.to_json()`: the strict reading makes new numbers alone,
-- or, of a fitness that is not finite, a report with another fitness.
unfoldable pub same_report : EvalReport → EvalReport → Bool
unfolding same_number
same_report r n =
    same_number r.fitness n.fitness
    && same_number r.execution_time n.execution_time
    && same_number r.eval_cost_usd n.eval_cost_usd
    && same_number r.sem n.sem

unfoldable pub strict_report : EvalReport → Result EvalReport
unfolding is_type_or_value_error same_report
strict_report r = elim (report_from_json (dict (report_fields r))) [
  | raise x ↦
      if is_type_or_value_error x then raise (evidence_protocol_error protocol_error) else raise x
  | ok normalized ↦
      refuse_if (not (same_report r normalized)) (evidence_protocol_error protocol_error)
        (ok normalized)
]
