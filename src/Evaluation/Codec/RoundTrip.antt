-- ===== src/Evaluation/Codec/RoundTrip.antt =====
-- An envelope that was built decodes from its own JSON form.
use evo_harness_preview.Prelude.{
  String, ◌≡◌, ◌≢◌, refl, sym, ap, ◌∙◌, subst, Bool, true, Option, none, some, arith, str_eq_iff,
}
use evo_harness_preview.Evaluation.Faults.{FaultKind, value, wire_vocab-value, ok, >>=-eq-ok}
use evo_harness_preview.Evaluation.Values.{
  Value, bool, float, str, strict_bool, optional_bool, thaw_json,
}
use evo_harness_preview.Evaluation.Namespace.{
  entry, is_namespace, is_coverage, namespace_from_json-namespace_to_json,
  decode_coverage-coverage_to_json,
}
use evo_harness_preview.Evaluation.Evidence.{
  Draft, EvidenceEnvelope, of_bool, of_float, of_text, of_texts, read_fields, check_fields,
  normalize_and_validate_evidence,
}
use evo_harness_preview.Evaluation.Evidence.Sound.{
  Reads, Checks, Reads-with, Checks-with, normalize-Checks,
}
use evo_harness_preview.Evaluation.Codec.{
  of_fault, content_fields, evidence_content_payload, encode_evidence,
  assign_or_validate_evidence_id, new_evidence, decode_id, decode_fault_text, decode_fault,
  decode_reasons, decode_draft, decode_evidence,
}

-- The draft that the decoder makes of an envelope.
abbrev draft_of : EvidenceEnvelope → Draft
draft_of e = record {
  evidence_id = str e.evidence_id;
  candidate_id = str e.candidate_id;
  namespace = e.namespace;
  evaluation_valid = bool e.evaluation_valid;
  admissible = of_bool e.admissible;
  fitness = of_float e.fitness;
  fault_kind = e.fault_kind;
  coverage = e.coverage;
  objective_met = of_bool e.objective_met;
  objective_verifier_hash = of_text e.objective_verifier_hash;
  observations = thaw_json e.observations;
  missing_reasons = of_texts e.missing_reasons;
  budget_used_usd = float e.budget_used_usd;
  provenance = thaw_json e.provenance;
  artifacts_ref = of_text e.artifacts_ref;
}

optional_bool-of_bool : (b : Option Bool) → optional_bool (of_bool b) ≡ ok b
unfolding optional_bool
optional_bool-of_bool none = refl
optional_bool-of_bool (some b) = refl

-- A fault's kind is written as a text or as null, and found again.
fault_text : Option FaultKind → Option String
fault_text none = none
fault_text (some kind) = some (value kind)

decode_fault_text-of_fault :
    (fault : Option FaultKind) → decode_fault_text (of_fault fault) ≡ ok (fault_text fault)
unfolding decode_fault_text fault_text
decode_fault_text-of_fault none = refl
decode_fault_text-of_fault (some kind) = refl

decode_fault-fault_text : (fault : Option FaultKind) → decode_fault (fault_text fault) ≡ ok fault
unfolding decode_fault fault_text
decode_fault-fault_text none = refl
decode_fault-fault_text (some kind) = ground (arith, wire_vocab-value kind)

module _ (d : Draft) (e : EvidenceEnvelope) (reads : Reads d e)
    (named : is_namespace e.namespace ≡ true) (covered : is_coverage e.coverage ≡ true) where
  decode_draft-encoded :
      e.evidence_id ≢ ""
      → decode_draft (entry "evidence_id" (str e.evidence_id) (content_fields e)) ≡ ok (draft_of e)
  unfolding decode_draft content_fields strict_bool
  decode_draft-encoded h =
      let id : decode_id (str e.evidence_id) ≡ ok e.evidence_id =
        unfold decode_id in ground (arith, str_eq_iff e.evidence_id "") in
      simp (
        id,
        decode_fault_text-of_fault e.fault_kind,
        decode_fault-fault_text e.fault_kind,
        namespace_from_json-namespace_to_json e.namespace named,
        decode_coverage-coverage_to_json e.coverage covered,
        optional_bool-of_bool e.admissible,
        optional_bool-of_bool e.objective_met,
        reads.fitness,
        reads.finite_budget,
        decode_reasons,
      )

  read_fields-draft_of :
      read_fields (draft_of e) ≡ ok (record e { evidence_id = ""; objective_verifier_hash = none })
  unfolding read_fields strict_bool
  read_fields-draft_of = simp (
    reads.candidate_id,
    optional_bool-of_bool e.admissible,
    optional_bool-of_bool e.objective_met,
    reads.fitness,
    reads.budget,
    reads.artifacts_ref,
    reads.reasons,
    reads.observations,
    reads.provenance,
  )

  normalize-draft_of :
      Checks e → normalize_and_validate_evidence (draft_of e) ≡ ok (record e { evidence_id = "" })
  unfolding normalize_and_validate_evidence check_fields
  normalize-draft_of checks =
      rw read_fields-draft_of (simp (checks.verdict, checks.verifier, checks.objective))

-- The identity that a new envelope has is the digest of its content, whatever was passed.
pub assign-eq-digest :
    (digest : Value → String) (v : Value) (e0 e : EvidenceEnvelope)
    → assign_or_validate_evidence_id digest v e0 ≡ ok e
    → e ≡ record e0 { evidence_id = digest (evidence_content_payload e0) }
unfolding assign_or_validate_evidence_id
assign-eq-digest digest (str id) e0 e h =
    ground (arith, str_eq_iff id (digest (evidence_content_payload e0)))
assign-eq-digest digest Value.null e0 e h = cc
assign-eq-digest digest _ e0 e h = cc

module _ (digest : Value → String) (never_empty : (v : Value) → digest v ≢ "") where
  -- An identity that is the digest is found right.
  assigned :
      (e : EvidenceEnvelope)
      → e.evidence_id ≡ digest (evidence_content_payload e)
      → assign_or_validate_evidence_id digest (str e.evidence_id) (record e { evidence_id = "" })
        ≡ ok e
  unfolding assign_or_validate_evidence_id
  assigned e id =
      let same : evidence_content_payload (record e { evidence_id = "" })
          ≡ evidence_content_payload e =
        unfold evidence_content_payload in unfold content_fields in refl in
      let back : record e { evidence_id = digest (evidence_content_payload e) } ≡ e =
        ap (λ (id : String). record e { evidence_id = id }) (sym id) in
      rw same
        (ground (arith, back, id, str_eq_iff e.evidence_id (digest (evidence_content_payload e))))

  -- With its digest for an identity, an envelope that passes the tests decodes from its JSON form.
  decode_again :
      (d : Draft) (e : EvidenceEnvelope)
      → Reads d e
      → Checks e
      → is_namespace e.namespace ≡ true
      → is_coverage e.coverage ≡ true
      → e.evidence_id ≡ digest (evidence_content_payload e)
      → decode_evidence digest (encode_evidence e) ≡ ok e
  unfolding decode_evidence encode_evidence new_evidence assign_or_validate_evidence_id
  decode_again d e reads checks named covered id =
      let has_id : e.evidence_id ≢ "" =
        λ empty. never_empty (evidence_content_payload e) (sym id ∙ empty) in
      rw (decode_draft-encoded d e reads named covered has_id)
        (rw (normalize-draft_of d e reads named covered checks) (assigned e id))

  -- If the digest is never the empty text, an envelope that was built, of a namespace and a
  -- coverage that their constructors let pass, is what decoding its JSON form gives.
  pub decode_evidence-encode_evidence :
      (d : Draft) (e : EvidenceEnvelope)
      → is_namespace d.namespace ≡ true
      → is_coverage d.coverage ≡ true
      → new_evidence digest d ≡ ok e
      → decode_evidence digest (encode_evidence e) ≡ ok e
  unfolding new_evidence evidence_content_payload content_fields
  decode_evidence-encode_evidence d e named covered built =
      let (e0, p, q) =
        >>=-eq-ok (normalize_and_validate_evidence d)
          (assign_or_validate_evidence_id digest d.evidence_id) built in
      let (checks, reads) = normalize-Checks d p in
      let id = digest (evidence_content_payload e0) in
      subst (λ e. decode_evidence digest (encode_evidence e) ≡ ok e)
        (sym (assign-eq-digest digest d.evidence_id e0 e q))
        (decode_again d (record e0 { evidence_id = id })
          (Reads-with d e0 id e0.objective_verifier_hash reads) (Checks-with e0 id checks)
          (ground (arith, reads.namespace)) (ground (arith, reads.coverage)) refl)
