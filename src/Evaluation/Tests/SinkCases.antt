-- ===== src/Evaluation/Tests/SinkCases.antt =====
-- The theorems on the sink, the grader and the reports, at examples.
use Prim.Native.Nat.{◌^◌}
use evo_harness_preview.Prelude.{
  String, ◌≡◌, inr, refl, true, false, Option, none, some, [], ◌∷◌, str_eq, append_text,
  if◌then◌else◌,
}
use evo_harness_preview.Evaluation.Blank.{is_blank, is_blank_line}
use evo_harness_preview.Evaluation.Faults.{ok, raise, evidence_sink_error, overflow_error}
use evo_harness_preview.Evaluation.Values.{Value, pos, strict_bool, float_of_int, finite}
use evo_harness_preview.Evaluation.Codec.{encode_evidence}
use evo_harness_preview.Evaluation.Report.{
  EvalReport, whole as whole_number, plain_report, report_fields, report_from_json,
}
use evo_harness_preview.Evaluation.Sink.{
  Sink, whole, broken, find_record, opened, append_envelope, decode_line, load_existing, load_lines,
}
use evo_harness_preview.Evaluation.Sink.Durable.{
  ReadsBack, IsDurable, Same, decode_line_lem, append_envelope-broken,
}
use evo_harness_preview.Evaluation.Sink.Glued.{append_envelope-glued}
use evo_harness_preview.Evaluation.Sink.Runs.{run, replay, run_refines}
use evo_harness_preview.Evaluation.Producer.{Candidate, graded, no_refs, grade}
use evo_harness_preview.Evaluation.Producer.Grading.{Leaves, grade_lem}
use evo_harness_preview.Evaluation.Tests.{
  digest, canonical, namespace, met, late, met_decodes, late_decodes,
}

abbrev loads : String → Option Value
loads t =
    if str_eq t "sha-1"
    then some (encode_evidence met)
    else if str_eq t "sha-2"
    then some (encode_evidence late)
    else none

abbrev empty : Sink
empty = record { records = []; file = none }

met_back : ReadsBack canonical loads digest met
unfolding is_blank_line encode_evidence
met_back = (
  refl,
  met,
  decode_line_lem canonical loads digest "sha-1" (encode_evidence met) met refl met_decodes,
  refl,
  refl,
)

late_back : ReadsBack canonical loads digest late
unfolding is_blank_line encode_evidence
late_back = (
  refl,
  late,
  decode_line_lem canonical loads digest "sha-2" (encode_evidence late) late refl late_decodes,
  refl,
  refl,
)

empty-IsDurable : IsDurable canonical loads digest empty
unfolding load_lines
empty-IsDurable = (refl, [], refl, λ id. refl)

run_refines_example :
    IsDurable canonical loads digest (run canonical loads digest (met ∷ late ∷ met ∷ []) empty)
    × ((id : String)
        → find_record id (run canonical loads digest (met ∷ late ∷ met ∷ []) empty).records
          ≡ replay canonical loads digest
              (met ∷ late ∷ met ∷ [])
              (λ id. find_record id empty.records)
              id)
run_refines_example =
    run_refines canonical loads digest (met ∷ late ∷ met ∷ []) empty
      (met_back, (late_back, (met_back, tt))) empty-IsDurable

append_envelope-broken_example :
    let (r, s') = append_envelope canonical (broken "{") met empty in
    (r ≡ raise evidence_sink_error)
    × (s'' : Sink) × (load_existing canonical loads digest s'.file ≡ ok s'')
    × IsDurable canonical loads digest s''
    × Same canonical loads digest s''.records empty.records
    × ((opened s''.file).lines ≡ (opened empty.file).lines)
append_envelope-broken_example =
    append_envelope-broken canonical loads digest met empty "{" empty-IsDurable refl (inr torn)
  where
    torn : decode_line canonical loads digest "{" ≡ none
    torn = unfold decode_line in refl

append_envelope-glued_example :
    let (r, s') =
      append_envelope canonical whole late (append_envelope canonical (broken "{") met empty).1 in
    (r ≡ ok late.evidence_id)
    × (load_existing canonical loads digest s'.file ≡ raise evidence_sink_error)
unfolding encode_evidence
append_envelope-glued_example =
    append_envelope-glued canonical loads digest met late empty "{" empty-IsDurable refl refl full
      torn
  where
    full : is_blank_line (append_text "{" "sha-2") ≡ false
    full = unfold is_blank_line in refl

    torn : decode_line canonical loads digest (append_text "{" "sha-2") ≡ none
    torn = unfold decode_line in refl

abbrev passing : EvalReport
unfolding plain_report
passing = plain_report (finite false 5) true none

abbrev candidate : Candidate
candidate = record { id = "c1"; evidence_refs = no_refs; search_use = none; quarantined = false }

candidate_named : is_blank candidate.id ≡ false
unfolding is_blank
candidate_named = refl

grade_example :
    Leaves canonical digest namespace 0
      (graded passing)
      (empty, candidate)
      (grade canonical digest namespace 0 (λ _. "told") whole (graded passing) (empty, candidate))
grade_example =
    grade_lem canonical digest namespace 0 (λ _. "told") whole (graded passing) (empty, candidate)
      candidate_named

-- A fitness of 2 ^ 1024 leaves the grader as OverflowError, and nothing is recorded.
too_large_escapes :
    grade canonical digest namespace 0
      (λ _. "told")
      whole
      (graded (record passing { fitness = whole_number (pos (2 ^ 1024)) }))
      (empty, candidate)
    ≡ (raise overflow_error, (empty, candidate))
unfolding grade plain_report report_from_json report_fields strict_bool float_of_int
too_large_escapes = refl
