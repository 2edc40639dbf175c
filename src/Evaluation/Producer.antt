-- ===== src/Evaluation/Producer.antt =====
-- evoharness/evaluation/producer.py: envelopes of reports and of faults, and the grader that writes
-- one for every candidate it is asked about.
--
-- `digest` is SHA-256 over the canonical JSON text of a value.
pub mod Envelopes
pub mod Reports
pub mod Escapes
pub mod Caught
pub mod Grading
use Prim.Native.Nat.{◌^◌}
use evo_harness_preview.Prelude.{
  ℕ, suc, ◌*◌, String, Bool, true, false, not, ◌&&◌, ◌||◌, Option, none, some, List, [], ◌∷◌, ◌++◌,
  any, ltb, ◌==◌, str_eq, append_text, if◌then◌else◌,
}
use evo_harness_preview.Evaluation.Blank.{strip}
use evo_harness_preview.Evaluation.Faults.{
  FaultKind, missing, infra_error, protocol_error, value, is_no_verdict_fault, classify_fault,
  Raised, Result, ok, raise, ◌>>=◌, refuse_if, type_error, value_error, overflow_error,
  evidence_protocol_error, evidence_sink_error, eval_infra_error,
}
use evo_harness_preview.Evaluation.Values.{
  Value, Fields, ℤ, pos, negsuc, Float, finite, infinite, nan, null, bool, int, float, str, dict,
  no_items, item, no_fields, is_finite, is_dumpable,
}
use evo_harness_preview.Evaluation.Namespace.{ScoreNamespace, Coverage, entry, new_coverage}
use evo_harness_preview.Evaluation.Evidence.{
  Draft, EvidenceEnvelope, of_text, in_no_verdict, is_invalid_candidate, is_missing, same_bool,
}
use evo_harness_preview.Evaluation.Codec.{new_evidence}
use evo_harness_preview.Evaluation.Policy.{SearchUseDecision, is_quarantine, decide_search_use}
use evo_harness_preview.Evaluation.Report.{
  EvalReport, Number, whole, real, of_number, of_int, report_fields, report_from_json,
}
use evo_harness_preview.Evaluation.Sink.{Sink, Write, append_envelope}
use evo_harness_preview.Evaluation.Strict.{is_type_or_value_error, strict_report}

-- `trustworthy_units`, where a report may leave it out.
unfoldable pub trusted_units : ℕ → Option FaultKind → EvalReport → Result ℤ
trusted_units planned fault r = elim r.trustworthy_units [
  | some n ↦ ok n
  | none ↦
      if ltb 0 planned && is_missing fault
      then raise (evidence_protocol_error protocol_error)
      else ok (if planned == 0 then r.n_units else pos 0)
]

-- The kind of a fault that is there.
abbrev kind_of : Option FaultKind → FaultKind
kind_of none = protocol_error
kind_of (some kind) = kind

-- `not isinstance(report, EvalReport)`, the first test of `envelope_from_report`, which its type
-- takes the place of here: `grade` has a case for it.
abbrev pub not_a_report : Raised
not_a_report = evidence_protocol_error protocol_error

module _ (digest : Value → String) where
  -- `json.dumps` raises TypeError on what is no JSON value.
  unfoldable pub report_provenance : EvalReport → Result Value
  report_provenance r = refuse_if (not (is_dumpable (dict (report_fields r)))) type_error (
      ok (
        dict (
          entry "stage_reached" (int r.stage_reached) (
            entry "execution_time" (of_number r.execution_time) (
              entry "sem" (of_number r.sem) (
                entry "n_units" (int r.n_units) (
                  entry "trustworthy_units" (of_int r.trustworthy_units) (
                    entry "fault" (of_text r.fault) (
                      entry "raw_report_hash" (str (digest (dict (report_fields r))))
                        no_fields)))))))))

  -- Behind the test of the type.
  unfoldable pub envelope_from_report :
      EvalReport → String → ScoreNamespace → ℕ → Result EvidenceEnvelope
  unfolding trusted_units strict_report report_provenance
  envelope_from_report report candidate_id namespace planned_units = strict_report report >>= λ r.
      classify_fault r.passed r.fault_kind >>= λ fault.
      refuse_if (in_no_verdict fault) (evidence_protocol_error (kind_of fault)) (
        trusted_units planned_units fault r >>= λ trustworthy.
        new_coverage (int (pos planned_units)) (int r.n_units) (int trustworthy) >>= λ coverage.
        report_provenance r >>= λ provenance. new_evidence digest (record {
          evidence_id = str "auto";
          candidate_id = str candidate_id;
          namespace = namespace;
          evaluation_valid = bool true;
          admissible = bool (not (is_invalid_candidate fault));
          fitness = of_number r.fitness;
          fault_kind = fault;
          coverage = coverage;
          objective_met = null;
          objective_verifier_hash = null;
          observations = dict (
              entry "visible_metrics" (dict r.visible_metrics)
                (entry "hidden_metrics" (dict r.hidden_metrics) no_fields));
          missing_reasons = no_items;
          budget_used_usd = of_number r.eval_cost_usd;
          provenance = provenance;
          artifacts_ref = of_text r.artifacts_ref;
        }))

  -- `_no_verdict_envelope`
  unfoldable pub no_verdict_envelope :
      String → ScoreNamespace → ℕ → FaultKind → String → Result EvidenceEnvelope
  unfolding is_no_verdict_fault strip
  no_verdict_envelope candidate_id namespace planned_units kind reason =
      let stripped = strip reason in
      refuse_if (not (is_no_verdict_fault kind)) value_error (
        new_coverage (int (pos planned_units)) (int (pos 0)) (int (pos 0)) >>= λ coverage.
        new_evidence digest (record {
          evidence_id = str "auto";
          candidate_id = str candidate_id;
          namespace = namespace;
          evaluation_valid = bool false;
          admissible = null;
          fitness = null;
          fault_kind = some kind;
          coverage = coverage;
          objective_met = null;
          objective_verifier_hash = null;
          observations = dict no_fields;
          missing_reasons =
              item (str (if str_eq stripped "" then value kind else stripped)) no_items;
          budget_used_usd = float (finite false 0);
          provenance = dict no_fields;
          artifacts_ref = null;
        }))

-- The metadata of a candidate, as far as it speaks of evidence.
pub data Refs : Type 0 where
  no_refs not_a_list : Refs
  refs : List String → Refs

pub record Candidate : Type 0 where
  pub id : String
  pub evidence_refs : Refs
  pub search_use : Option SearchUseDecision
  pub quarantined : Bool

-- What the inner grader does: it returns a report or what is none, or raises EvalInfraError,
-- EvidenceSinkError, or another error, of which the name and the text are shown.
pub data Graded : Type 0 where
  graded : EvalReport → Graded
  no_report : Graded
  infra : (error : String) → Graded
  sink_broke : Graded
  other : (error : String) → Graded

abbrev pub listed : Refs → Option (List String)
listed no_refs = some []
listed not_a_list = none
listed (refs l) = some l

abbrev pub State : Type 0
State = Sink × Candidate

abbrev use_decision : EvidenceEnvelope → Candidate → Candidate
use_decision e c =
    let d = decide_search_use e in
    record c { search_use = some d; quarantined = is_quarantine d || c.quarantined }

-- The name of the error that is wrapped, as `type(exc).__name__` gives it.
abbrev pub error_name : Raised → String
error_name type_error = "TypeError: "
error_name (evidence_protocol_error _) = "EvidenceProtocolError: "
error_name _ = "ValueError: "

module _ (canonical : Value → String) (digest : Value → String) (namespace : ScoreNamespace)
    (planned_units : ℕ) where
  -- `_record`
  unfoldable pub record_evidence : Write → EvidenceEnvelope → State → Result (Unit {0}) × State
  record_evidence write e (sink, c) =
      let (r, sink') = append_envelope canonical write e sink in
      elim r [
        | raise x ↦ (raise x, (sink', c))
        | ok id ↦ elim (listed c.evidence_refs) [
          | none ↦ (raise evidence_sink_error, (sink', c))
          | some l ↦ (
            ok tt,
            (
              sink',
              use_decision e (record c {
                evidence_refs = refs (if any (str_eq id) l then l else l ++ id ∷ []);
              }),
            ),
          )
        ]
      ]

  -- What stands behind the building of an envelope of a fault: it is recorded, and then `raised` goes
  -- on, if nothing else is raised before.
  unfoldable pub record_built :
      Write → Raised → Result EvidenceEnvelope → State → Result EvalReport × State
  unfolding record_evidence
  record_built write raised (raise x) s = (raise x, s)
  record_built write raised (ok e) s =
      let (r, s') = record_evidence write e s in (r >>= λ _. raise raised, s')

  unfoldable pub record_fault :
      Write → FaultKind → String → Raised → State → Result EvalReport × State
  unfolding record_built no_verdict_envelope
  record_fault write kind reason raised s =
      record_built write raised
        (no_verdict_envelope digest s.1.id namespace planned_units kind reason) s

  -- What leaves `grade` in place of an error of the report's envelope.
  abbrev pub rewrapped : Raised → Raised
  rewrapped (evidence_protocol_error kind) = evidence_protocol_error kind
  rewrapped _ = evidence_protocol_error protocol_error

  -- What stands behind the building of an envelope of a report: TypeError, ValueError and
  -- EvidenceProtocolError are recorded, and any other error goes on. `told` is the text of an error.
  unfoldable pub record_report :
      (Raised → String)
      → Write
      → EvalReport
      → Result EvidenceEnvelope
      → State
      → Result EvalReport × State
  unfolding record_evidence record_fault is_type_or_value_error
  record_report told write report (raise x) s =
      if not (is_type_or_value_error x)
      then (raise x, s)
      else record_fault write protocol_error (append_text (error_name x) (told x)) (rewrapped x) s
  record_report told write report (ok e) s =
      let (r, s') = record_evidence write e s in (r >>= λ _. ok report, s')

  unfoldable pub grade : (Raised → String) → Write → Graded → State → Result EvalReport × State
  unfolding record_report record_fault envelope_from_report
  grade told write (infra error) s = record_fault write infra_error error eval_infra_error s
  grade told write no_report s =
      record_fault write protocol_error
        (append_text (error_name not_a_report) "grader must return EvalReport")
        (rewrapped not_a_report) s
  grade told write sink_broke s = (raise evidence_sink_error, s)
  grade told write (other error) s =
      record_fault write protocol_error (append_text "grader raised " error)
        (evidence_protocol_error protocol_error) s
  grade told write (graded report) s =
      record_report told write report
        (envelope_from_report digest report s.1.id namespace planned_units) s
