-- ===== src/Evaluation/Sink/Glued.antt =====
-- A write behind a broken one, in the same process: the line is glued to the torn text.
use evo_harness_preview.Prelude.{
  String, ◌≡◌, refl, sym, ap, ◌∙◌, subst, false, Option, none, some, List, [], ◌∷◌, ◌++◌,
  append_text, arith,
}
use text.Mathlib.TextLemmas.{nil-append}
use evo_harness_preview.Evaluation.Blank.{is_blank_line}
use evo_harness_preview.Evaluation.Faults.{ok, raise, evidence_sink_error}
use evo_harness_preview.Evaluation.Values.{Value}
use evo_harness_preview.Evaluation.Evidence.{EvidenceEnvelope}
use evo_harness_preview.Evaluation.Sink.{
  Sink, whole, broken, find_record, opened, canonical_evidence_json, append_envelope, decode_line,
  load_line, load_lines, load_existing,
}
use evo_harness_preview.Evaluation.Sink.Durable.{
  IsDurable, append_absent, append_broken, load_lines-concat,
}

module _ (canonical : Value → String) (loads : String → Option Value)
    (digest : Value → String) where
  -- A line that is no envelope, behind lines that are, makes the file one that no sink opens.
  unopened :
      (lines : List String) (line : String) (records : List (String × String))
      → load_lines canonical loads digest lines [] ≡ ok records
      → is_blank_line line ≡ false
      → decode_line canonical loads digest line ≡ none
      → load_existing canonical loads digest
          (some (record { lines = lines ++ line ∷ []; tail = "" }))
        ≡ raise evidence_sink_error
  unfolding load_existing load_line
  unopened lines line records loaded full torn =
      rw (load_lines-concat canonical loads digest lines line [])
        (rw loaded (rw full (rw torn refl)))

  returned :
      (e : EvidenceEnvelope) (s : Sink)
      → find_record e.evidence_id s.records ≡ none
      → (append_envelope canonical whole e s).0 ≡ ok e.evidence_id
  unfolding append_envelope
  returned e s absent = ground (arith, absent)

  abbrev after_broken : EvidenceEnvelope → String → Sink → Sink
  after_broken e left s = (append_envelope canonical (broken left) e s).1

  -- If the first of two writes to a durable sink, of identities that it does not have, breaks off
  -- and leaves a text, and that text with the line of the second behind it is neither blank nor
  -- an envelope, then the second write returns as if all was well, and opening the file again
  -- raises EvidenceSinkError.
  pub append_envelope-glued :
      (e next : EvidenceEnvelope) (s : Sink) (left : String)
      → IsDurable canonical loads digest s
      → find_record e.evidence_id s.records ≡ none
      → find_record next.evidence_id s.records ≡ none
      → is_blank_line (append_text left (canonical_evidence_json canonical next)) ≡ false
      → decode_line canonical loads digest
          (append_text left (canonical_evidence_json canonical next))
        ≡ none
      → let (r, s') = append_envelope canonical whole next (after_broken e left s) in
        (r ≡ ok next.evidence_id)
        × (load_existing canonical loads digest s'.file ≡ raise evidence_sink_error)
  append_envelope-glued e next s left (cut, records, loaded, same) absent new full torn =
      let torn_sink = record s { file = some (record (opened s.file) { tail = left }) } in
      let broke : after_broken e left s ≡ torn_sink =
        ap (λ call. call.1) (append_broken canonical loads digest e s left absent)
        ∙ rw (cut, nil-append) refl in
      subst
        (λ s'.
          let (r, s'') = append_envelope canonical whole next s' in
          (r ≡ ok next.evidence_id)
          × (load_existing canonical loads digest s''.file ≡ raise evidence_sink_error))
        (sym broke)
        (
          returned next torn_sink new,
          rw (append_absent canonical loads digest next torn_sink new) (
              unopened (opened s.file).lines
                (append_text left (canonical_evidence_json canonical next)) records loaded full
                torn),
        )
