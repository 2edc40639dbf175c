-- ===== src/Evaluation/Sink/Durable.antt =====
-- What a sink knows is what opening its file again would tell, and a call of `append` keeps it so.
use evo_harness_preview.Prelude.{
  String, ◌≡◌, ◌⊎◌, inl, inr, refl, sym, ◌∙◌, false, Bool-cases, Option, none, some, Option-cases,
  List, [], ◌∷◌, ◌++◌, str_eq, str_eq_iff, append_text, arith, if◌then◌else◌,
}
use mathlib.Core.Path.{fun_ext}
use text.Mathlib.TextLemmas.{nil-append}
use evo_harness_preview.Evaluation.Blank.{is_blank_line}
use evo_harness_preview.Evaluation.Faults.{ok, raise, ◌>>=◌, >>=_ok, >>=_assoc, evidence_sink_error}
use evo_harness_preview.Evaluation.Values.{Value}
use evo_harness_preview.Evaluation.Evidence.{EvidenceEnvelope}
use evo_harness_preview.Evaluation.Codec.{decode_evidence}
use evo_harness_preview.Evaluation.Sink.{
  Sink, Write, whole, broken, find_record, put_record, opened, canonical_evidence_json, remember,
  append_envelope, decode_line, load_line, load_lines, load_existing,
}

-- A record that is put is found, and no other is touched.
pub find_record-put_record :
    (j id t : String) (records : List (String × String))
    → find_record j (put_record id t records)
      ≡ (if str_eq id j then some t else find_record j records)
find_record-put_record j id t [] = refl
find_record-put_record j id t ((k, u) ∷ rest) =
    ground
      (arith, find_record-put_record j id t rest, str_eq_iff k id, str_eq_iff id j, str_eq_iff k j)

module _ (canonical : Value → String) (loads : String → Option Value)
    (digest : Value → String) where
  -- The JSON text of an envelope is a line of which an envelope of that identity and text is read.
  abbrev pub ReadsBack : EvidenceEnvelope → Type 0
  ReadsBack e =
      let text = canonical_evidence_json canonical e in
      (is_blank_line text ≡ false)
      × (e' : EvidenceEnvelope) × (decode_line canonical loads digest text ≡ some e')
      × (e'.evidence_id ≡ e.evidence_id)
      × (canonical_evidence_json canonical e' ≡ text)

  -- Two tables with the same records.
  abbrev pub Same : List (String × String) → List (String × String) → Type 0
  Same a b = (id : String) → find_record id a ≡ find_record id b

  abbrev pub IsDurable : Sink → Type 0
  IsDurable s =
      ((opened s.file).tail ≡ "")
      × (records : List (String × String)) × (load_lines canonical loads digest
            (opened s.file).lines []
          ≡ ok records)
      × Same records s.records

  -- What a line is decoded as.
  pub decode_line_lem :
      (t : String) (v : Value) (e : EvidenceEnvelope)
      → loads t ≡ some v
      → decode_evidence digest v ≡ ok e
      → decode_line canonical loads digest t ≡ some e
  unfolding decode_line
  decode_line_lem t v e loaded decoded = ground (arith, loaded, decoded)

  pub load_lines-concat :
      (lines : List String) (line : String) (r : List (String × String))
      → load_lines canonical loads digest (lines ++ line ∷ []) r
        ≡ (load_lines canonical loads digest lines r >>= load_line canonical loads digest line)
  unfolding load_lines
  load_lines-concat [] line r = >>=_ok (load_line canonical loads digest line r)
  load_lines-concat (l ∷ lines) line r =
      rw (fun_ext (λ (r : List (String × String)). load_lines-concat lines line r)) (
        sym (
          >>=_assoc (load_line canonical loads digest l r) (load_lines canonical loads digest lines)
            (load_line canonical loads digest line)))

  -- The line of a new identity adds its record.
  load_line-new :
      (e : EvidenceEnvelope) (r : List (String × String))
      → ReadsBack e
      → find_record e.evidence_id r ≡ none
      → load_line canonical loads digest (canonical_evidence_json canonical e) r
        ≡ ok (put_record e.evidence_id (canonical_evidence_json canonical e) r)
  unfolding load_line remember
  load_line-new e r (full, e', decoded, id, text) absent =
      ground (arith, full, decoded, id, text, absent)

  -- What a call that succeeds leaves.
  pub append_absent :
      (e : EvidenceEnvelope) (s : Sink)
      → find_record e.evidence_id s.records ≡ none
      → (append_envelope canonical whole e s).1 ≡ record {
        records = put_record e.evidence_id (canonical_evidence_json canonical e) s.records;
        file = some (record {
          lines =
              (opened s.file).lines
              ++ append_text (opened s.file).tail (canonical_evidence_json canonical e) ∷ [];
          tail = "";
        });
      }
  unfolding append_envelope
  append_absent e s absent = ground (arith, absent)

  append_found :
      (w : Write) (e : EvidenceEnvelope) (s : Sink) {t : String}
      → find_record e.evidence_id s.records ≡ some t
      → (append_envelope canonical w e s).1 ≡ s
  unfolding append_envelope
  append_found w e s found = ground (arith, found)

  -- A line behind the others of a durable sink is read as one record more.
  load_lines-new :
      (e : EvidenceEnvelope) (s : Sink) (lines : List String) (records : List (String × String))
      → ReadsBack e
      → load_lines canonical loads digest lines [] ≡ ok records
      → Same records s.records
      → find_record e.evidence_id s.records ≡ none
      → load_lines canonical loads digest (lines ++ canonical_evidence_json canonical e ∷ []) []
        ≡ ok (put_record e.evidence_id (canonical_evidence_json canonical e) records)
  load_lines-new e s lines records back loaded same absent =
      rw (load_lines-concat lines (canonical_evidence_json canonical e) [])
        (rw loaded (load_line-new e records back (same e.evidence_id ∙ absent)))

  -- The text for an identity after a call: the first that was put.
  abbrev pub kept : EvidenceEnvelope → Option String → String → Option String
  kept e (some t) id = some t
  kept e none id =
      if str_eq e.evidence_id id then some (canonical_evidence_json canonical e) else none

  -- A call that succeeds leaves a durable sink, with the record put where there was none.
  pub append_envelope-IsDurable :
      (e : EvidenceEnvelope) (s : Sink)
      → ReadsBack e
      → IsDurable s
      → IsDurable (append_envelope canonical whole e s).1
        × ((id : String)
            → find_record id (append_envelope canonical whole e s).1.records
              ≡ kept e (find_record id s.records) id)
  append_envelope-IsDurable e s back (cut, records, loaded, same) =
      elim (Option-cases (find_record e.evidence_id s.records)) [
        | inl absent ↦
            let text = canonical_evidence_json canonical e in
            let put = λ (id : String). find_record-put_record id e.evidence_id text s.records in
            let put' = λ (id : String). find_record-put_record id e.evidence_id text records in
            let loaded' =
              load_lines-new e s (opened s.file).lines records back loaded same absent in
            rw (append_absent e s absent) (
              (
                refl,
                put_record e.evidence_id text records,
                rw (cut, nil-append) loaded',
                λ id. ground (arith, put id, put' id, same id),
              ),
              λ id. ground (arith, put id, str_eq_iff e.evidence_id id, absent),
            )
        | inr (t, found) ↦
            rw (append_found whole e s found) (
              (cut, records, loaded, same),
              λ id. ground (arith, str_eq_iff e.evidence_id id, found),
            )
      ]

  -- What a call that breaks leaves.
  pub append_broken :
      (e : EvidenceEnvelope) (s : Sink) (left : String)
      → find_record e.evidence_id s.records ≡ none
      → append_envelope canonical (broken left) e s ≡ (
        raise evidence_sink_error,
        record s {
          file = some (record (opened s.file) { tail = append_text (opened s.file).tail left });
        },
      )
  unfolding append_envelope
  append_broken e s left absent = ground (arith, absent)

  -- A tail that is empty, or is no envelope, is cut off.
  reopened :
      (lines : List String) (tail : String) (records : List (String × String))
      → load_lines canonical loads digest lines [] ≡ ok records
      → (tail ≡ "") ⊎ (decode_line canonical loads digest tail ≡ none)
      → load_existing canonical loads digest (some (record { lines = lines; tail = tail }))
        ≡ ok (record { records = records; file = some (record { lines = lines; tail = "" }) })
  unfolding load_existing
  reopened lines tail records loaded (inl empty) = rw empty (rw loaded refl)
  reopened lines tail records loaded (inr torn) = elim (Bool-cases (str_eq tail "")) [
    | inl e ↦ rw ((str_eq_iff tail "").0 e) (rw loaded refl)
    | inr e ↦ ground (arith, e, torn, loaded)
  ]

  -- A write to a durable sink that breaks off with nothing, or with a text that is no envelope,
  -- of an identity that the sink does not have, raises EvidenceSinkError; opening the file again
  -- gives a durable sink with the records and the lines from before.
  pub append_envelope-broken :
      (e : EvidenceEnvelope) (s : Sink) (left : String)
      → IsDurable s
      → find_record e.evidence_id s.records ≡ none
      → (left ≡ "") ⊎ (decode_line canonical loads digest left ≡ none)
      → let (r, s') = append_envelope canonical (broken left) e s in
        (r ≡ raise evidence_sink_error)
        × (s'' : Sink) × (load_existing canonical loads digest s'.file ≡ ok s'')
        × IsDurable s''
        × Same s''.records s.records
        × ((opened s''.file).lines ≡ (opened s.file).lines)
  append_envelope-broken e s left (cut, records, loaded, same) absent torn =
      rw (append_broken e s left absent) (
        rw (cut, nil-append)
          (
            refl,
            record {
              records = records;
              file = some (record { lines = (opened s.file).lines; tail = "" });
            },
            reopened (opened s.file).lines left records loaded torn,
            (refl, records, loaded, λ id. refl),
            same,
            refl,
          ))
