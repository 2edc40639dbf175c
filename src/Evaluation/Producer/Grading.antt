-- ===== src/Evaluation/Producer/Grading.antt =====
-- What a call of the grader leaves behind, whether it returns or raises.
use evo_harness_preview.Prelude.{
  ℕ, String, ◌≡◌, ◌⊎◌, inl, inr, refl, ap, true, false, ◌||◌, Bool-cases, some, Option-cases, List,
  [], ◌∷◌, ◌++◌, any, str_eq, str_eq_iff, any-concat, append_text, arith, if◌then◌else◌,
}
use evo_harness_preview.Evaluation.Blank.{is_blank}
use evo_harness_preview.Evaluation.Faults.{
  FaultKind, infra_error, protocol_error, is_no_verdict_fault, Raised, evidence_protocol_error,
  evidence_sink_error, eval_infra_error, overflow_error, Result, ok, raise, type_error,
}
use evo_harness_preview.Evaluation.Values.{Value}
use evo_harness_preview.Evaluation.Namespace.{ScoreNamespace}
use evo_harness_preview.Evaluation.Evidence.{EvidenceEnvelope}
use evo_harness_preview.Evaluation.Policy.{is_quarantine, decide_search_use}
use evo_harness_preview.Evaluation.Report.{EvalReport}
use evo_harness_preview.Evaluation.Sink.{
  Sink, Write, whole, broken, find_record, canonical_evidence_json, append_envelope,
}
use evo_harness_preview.Evaluation.Sink.Durable.{find_record-put_record}
use evo_harness_preview.Evaluation.Strict.{is_type_or_value_error}
use evo_harness_preview.Evaluation.Producer.{
  refs, Graded, graded, infra, sink_broke, other, State, listed, envelope_from_report,
  record_evidence, record_built, record_fault, record_report, rewrapped, error_name, grade,
  no_report,
}
use evo_harness_preview.Evaluation.Producer.Envelopes.{IsOf, no_verdict_envelope_total}
use evo_harness_preview.Evaluation.Producer.Escapes.{IsTooLarge}
use evo_harness_preview.Evaluation.Producer.Caught.{envelope_from_report_fails}
use evo_harness_preview.Evaluation.Producer.Reports.{IsOfReport, envelope_from_report_lem}

Write-cases : (w : Write) → (w ≡ whole) ⊎ ((left : String) × (w ≡ broken left))
Write-cases whole = inl refl
Write-cases (broken left) = inr (left, refl)

-- A call of `append` raises EvidenceSinkError, or the text of the envelope is in the index.
append_envelope_lem :
    (canonical : Value → String) (write : Write) (e : EvidenceEnvelope) (s : Sink)
    → let (r, s') = append_envelope canonical write e s in
      (r ≡ raise evidence_sink_error)
      ⊎ (r ≡ ok e.evidence_id)
        × (find_record e.evidence_id s'.records ≡ some (canonical_evidence_json canonical e))
unfolding append_envelope
append_envelope_lem canonical write e s =
    let text = canonical_evidence_json canonical e in
    elim (Option-cases (find_record e.evidence_id s.records)) [
      | inl absent ↦ elim (Write-cases write) [
        | inl new ↦ rw new (
            let put = find_record-put_record e.evidence_id e.evidence_id text s.records in
            inr (
              ground (arith, absent),
              ground (arith, absent, put, str_eq_iff e.evidence_id e.evidence_id),
            ))
        | inr (left, torn) ↦ rw torn (inl (ground (arith, absent)))
      ]
      | inr (t, found) ↦ elim (Bool-cases (str_eq t text)) [
        | inl same ↦
            inr (ground (arith, found, same), ground (arith, found, same, str_eq_iff t text))
        | inr differs ↦ inl (ground (arith, found, differs))
      ]
    ]

has_added :
    (id : String) (l : List String)
    → any (str_eq id) (if any (str_eq id) l then l else l ++ id ∷ []) ≡ true
has_added id l = elim (Bool-cases (any (str_eq id) l)) [
  | inl e ↦ rw e e
  | inr e ↦ rw e (ground (arith, any-concat (str_eq id) l id, str_eq_iff id id))
]

module _ (canonical : Value → String) (digest : Value → String) (namespace : ScoreNamespace)
    (planned_units : ℕ) where
  -- The envelope is in the index of the sink, and the candidate refers to it and carries what may be
  -- done with it.
  abbrev IsRecorded : EvidenceEnvelope → State → State → Type 0
  IsRecorded e (sink, c) (sink', c') =
      (find_record e.evidence_id sink'.records ≡ some (canonical_evidence_json canonical e))
      × (l : List String) × (c'.evidence_refs ≡ refs l)
      × (any (str_eq e.evidence_id) l ≡ true)
      × (c'.search_use ≡ some (decide_search_use e))
      × (c'.quarantined ≡ (is_quarantine (decide_search_use e) || c.quarantined))

  record_evidence_lem :
      (write : Write) (e : EvidenceEnvelope) (s : State)
      → let (r, s') = record_evidence canonical digest namespace planned_units write e s in
        (r ≡ raise evidence_sink_error) × (s'.1 ≡ s.1) ⊎ (r ≡ ok tt) × IsRecorded e s s'
  unfolding record_evidence
  record_evidence_lem write e (sink, c) = elim (append_envelope_lem canonical write e sink) [
    | inl broke ↦ rw (broke, record_evidence) (inl (refl, refl))
    | inr (got, found) ↦ elim (Option-cases (listed c.evidence_refs)) [
      | inl unlisted ↦ rw (got, unlisted, record_evidence) ((inl (refl, refl)))
      | inr (l, old) ↦
          rw (got, old, record_evidence)
            ((inr (
              refl,
              (
                found,
                (if any (str_eq e.evidence_id) l then l else l ++ e.evidence_id ∷ []),
                refl,
                has_added e.evidence_id l,
                refl,
                refl,
              ),
            )))
    ]
  ]

  -- What a call says to its caller, beside the envelope that it recorded.
  abbrev Tells : Graded → String → EvidenceEnvelope → Result EvalReport → Type 0
  Tells g id e (ok report) =
      (g ≡ graded report) × IsOfReport digest report id namespace planned_units e
  Tells g id e (raise x) =
      IsOf e id namespace planned_units
      × (e.evaluation_valid ≡ false)
      × ((x ≡ eval_infra_error) × (e.fault_kind ≡ some infra_error)
          ⊎ (kind : FaultKind) × (x ≡ evidence_protocol_error kind)
            × (e.fault_kind ≡ some protocol_error))

  -- The inner grader's report has a number that is too large for a float.
  abbrev Overflows : Graded → Type 0
  Overflows g = (report : EvalReport) × (g ≡ graded report) × IsTooLarge report

  abbrev pub Leaves : Graded → State → Result EvalReport × State → Type 0
  Leaves g s (r, s') =
      (r ≡ raise evidence_sink_error) × (s'.1 ≡ s.1)
      ⊎ (r ≡ raise overflow_error) × (s' ≡ s) × Overflows g
      ⊎ (e : EvidenceEnvelope) × IsRecorded e s s' × Tells g s.1.id e r

  -- The error that goes on, and the kind of the fault that is recorded for it.
  abbrev Pairs : Raised → FaultKind → Type 0
  Pairs raised kind =
      (raised ≡ eval_infra_error) × (kind ≡ infra_error)
      ⊎ (k : FaultKind) × (raised ≡ evidence_protocol_error k) × (kind ≡ protocol_error)

  unspoken :
      (raised : Raised) (kind : FaultKind) → Pairs raised kind → is_no_verdict_fault kind ≡ true
  unfolding is_no_verdict_fault
  unspoken raised kind pairs = ground (arith, pairs)

  told_of :
      (raised : Raised) (kind : FaultKind) (e : EvidenceEnvelope)
      → Pairs raised kind
      → e.fault_kind ≡ some kind
      → (raised ≡ eval_infra_error) × (e.fault_kind ≡ some infra_error)
        ⊎ (k : FaultKind) × (raised ≡ evidence_protocol_error k)
          × (e.fault_kind ≡ some protocol_error)
  told_of raised kind e (inl (r, k)) fault = inl (r, ground (arith, fault, k))
  told_of raised kind e (inr (k, r, p)) fault = inr (k, r, ground (arith, fault, p))

  rewrapped_lem :
      (x : Raised)
      → (k : FaultKind) × (rewrapped canonical digest namespace planned_units x
          ≡ evidence_protocol_error k)
        × (◌≡◌ {A = FaultKind} protocol_error protocol_error)
  rewrapped_lem (evidence_protocol_error k) = (k, refl, refl)
  rewrapped_lem type_error = (protocol_error, refl, refl)
  rewrapped_lem _ = (protocol_error, refl, refl)

  record_fault_lem :
      (g : Graded) (write : Write) (kind : FaultKind) (reason : String) (raised : Raised)
      (s : State)
      → is_blank s.1.id ≡ false
      → Pairs raised kind
      → Leaves g s
          (record_fault canonical digest namespace planned_units write kind reason raised s)
  unfolding record_fault record_built is_no_verdict_fault
  record_fault_lem g write kind reason raised s named pairs =
      let (e, built, silent, fault, of) =
        no_verdict_envelope_total digest s.1.id namespace planned_units kind reason named
          (unspoken raised kind pairs) in
      rw built (elim (record_evidence_lem write e s) [
        | inl (broke, same) ↦ rw broke (inl (refl, same))
        | inr (done, recorded) ↦
            rw done (inr (inr (e, recorded, (of, silent, told_of raised kind e pairs fault))))
      ])

  record_report_lem :
      (told : Raised → String) (write : Write) (report : EvalReport) (r : Result EvidenceEnvelope)
      (s : State)
      → is_blank s.1.id ≡ false
      → envelope_from_report digest report s.1.id namespace planned_units ≡ r
      → Leaves
          (graded report)
          s
          (record_report canonical digest namespace planned_units told write report r s)
  unfolding record_report
  record_report_lem told write report (raise x) s named built =
      elim (Bool-cases (is_type_or_value_error x)) [
        | inl caught ↦ rw caught (
            record_fault_lem (graded report) write protocol_error
              (append_text (error_name x) (told x))
              (rewrapped canonical digest namespace planned_units x) s named
              (inr (rewrapped_lem x)))
        | inr free ↦
            rw free
              (elim (envelope_from_report_fails digest report s.1.id namespace planned_units
                built) [
                  | inl caught ↦ absurd (ground (arith, free, caught))
                  | inr (over, large) ↦
                      inr (inl (ap (λ (y : Raised). raise y) over, refl, (report, refl, large)))
                ])
      ]
  record_report_lem told write report (ok e) s named built = elim (record_evidence_lem write e s) [
    | inl (broke, same) ↦ rw broke (inl (refl, same))
    | inr (done, recorded) ↦ rw done (
        inr (
          inr (
            e,
            recorded,
            (refl, envelope_from_report_lem digest report s.1.id namespace planned_units e built),
          )))
  ]

  -- If the candidate's id is not blank, a call of the grader either raises EvidenceSinkError and
  -- leaves the candidate as it was; or raises OverflowError, records nothing and leaves the sink
  -- and the candidate as they were, and the inner grader's report has a number that is an int too
  -- large for a float; or an envelope of the candidate, the namespace and the planned units is in
  -- the sink's index, and the candidate refers to it, carries what may be done with it, and is
  -- quarantined if that says so or it was before. A report that is returned is then the inner
  -- grader's, and the envelope is a valid verdict with its fitness as a float; where an error is
  -- raised the envelope is no verdict: an infrastructure error for EvalInfraError, and a protocol
  -- error for every other.
  pub grade_lem :
      (told : Raised → String) (write : Write) (g : Graded) (s : State)
      → is_blank s.1.id ≡ false
      → Leaves g s (grade canonical digest namespace planned_units told write g s)
  unfolding grade
  grade_lem told write (infra error) s named =
      record_fault_lem (infra error) write infra_error error eval_infra_error s named
        (inl (refl, refl))
  grade_lem told write no_report s named =
      record_fault_lem no_report write protocol_error
        "EvidenceProtocolError: grader must return EvalReport"
        (evidence_protocol_error protocol_error) s named (inr (protocol_error, refl, refl))
  grade_lem told write sink_broke s named = inl (refl, refl)
  grade_lem told write (other error) s named =
      record_fault_lem (other error) write protocol_error (append_text "grader raised " error)
        (evidence_protocol_error protocol_error) s named (inr (protocol_error, refl, refl))
  grade_lem told write (graded report) s named =
      record_report_lem told write report
        (envelope_from_report digest report s.1.id namespace planned_units) s named refl
