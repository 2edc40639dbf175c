-- ===== src/Evaluation/Sink.antt =====
-- evoharness/evaluation/producer.py: `EvidenceJsonlSink`, the file of envelopes and its index.
--
-- A file is its complete lines, as `bytes.splitlines` gives them, and the text behind the last
-- newline. `canonical` writes a value as its canonical JSON text, `loads` is `json.loads` of a line
-- (`none` where it raises), and `digest` is SHA-256 over the canonical text. The lock makes a call
-- of `append` one step; what the disk does with a write is the argument `Write`.
pub mod Durable
pub mod Glued
pub mod Runs
use evo_harness_preview.Prelude.{
  String, Bool, true, false, not, Option, none, some, List, [], ◌∷◌, ◌++◌, str_eq, append_text,
  if◌then◌else◌,
}
use evo_harness_preview.Evaluation.Blank.{is_blank_line}
use evo_harness_preview.Evaluation.Faults.{
  Raised, Result, ok, raise, ◌>>=◌, overflow_error, evidence_sink_error,
}
use evo_harness_preview.Evaluation.Values.{Value}
use evo_harness_preview.Evaluation.Evidence.{EvidenceEnvelope}
use evo_harness_preview.Evaluation.Codec.{encode_evidence, decode_evidence}

pub record File : Type 0 where
  pub lines : List String
  pub tail : String

-- `_records`, from an identity to the text of its envelope; `file` is none where there is no path.
pub record Sink : Type 0 where
  pub records : List (String × String)
  pub file : Option File

-- The whole line and its newline get to the disk, or OSError and a part of them.
pub data Write : Type 0 where
  whole : Write
  broken : (left : String) → Write

abbrev pub find_record : String → List (String × String) → Option String
find_record id [] = none
find_record id ((k, t) ∷ rest) = if str_eq k id then some t else find_record id rest

abbrev pub put_record : String → String → List (String × String) → List (String × String)
put_record id t [] = (id, t) ∷ []
put_record id t ((k, u) ∷ rest) =
    if str_eq k id then (id, t) ∷ rest else (k, u) ∷ put_record id t rest

-- An existing text, if there is one, is the given text.
abbrev agrees : String → Option String → Bool
agrees t none = true
agrees t (some u) = str_eq u t

-- `open(path, "a")` makes the file where there is none.
abbrev pub opened : Option File → File
opened none = record { lines = []; tail = "" }
opened (some f) = f

module _ (canonical : Value → String) where
  abbrev pub canonical_evidence_json : EvidenceEnvelope → String
  canonical_evidence_json e = canonical (encode_evidence e)

  unfoldable pub remember :
      EvidenceEnvelope → List (String × String) → Result (List (String × String))
  remember e records =
      let text = canonical_evidence_json e in
      if not (agrees text (find_record e.evidence_id records))
      then raise evidence_sink_error
      else ok (put_record e.evidence_id text records)

  -- The locked part of `append`. A failed write leaves its part behind in the file.
  unfoldable pub append_envelope : Write → EvidenceEnvelope → Sink → Result String × Sink
  append_envelope write e s =
      let line = canonical_evidence_json e in
      let f = opened s.file in
      elim (find_record e.evidence_id s.records) [
        | some existing ↦
            if not (str_eq existing line)
            then (raise evidence_sink_error, s)
            else (ok e.evidence_id, s)
        | none ↦ elim write [
          | broken left ↦ (
            raise evidence_sink_error,
            record s { file = some (record f { tail = append_text f.tail left }) },
          )
          | whole ↦ (
            ok e.evidence_id,
            record {
              records = put_record e.evidence_id line s.records;
              file = some (record { lines = f.lines ++ append_text f.tail line ∷ []; tail = "" });
            },
          )
        ]
      ]

module _ (canonical : Value → String) (loads : String → Option Value)
    (digest : Value → String) where
  -- `decode_evidence(json.loads(…))` under `except Exception`.
  unfoldable pub decode_line : String → Option EvidenceEnvelope
  decode_line t = elim (loads t) [
    | none ↦ none
    | some v ↦ elim (decode_evidence digest v) [ ok e ↦ some e | raise _ ↦ none ]
  ]

  unfoldable pub load_line : String → List (String × String) → Result (List (String × String))
  unfolding remember decode_line
  load_line line records = if is_blank_line line then ok records else elim (decode_line line) [
    | none ↦ raise evidence_sink_error
    | some e ↦ remember canonical e records
  ]

  unfoldable pub load_lines : List String → List (String × String) → Result (List (String × String))
  unfolding load_line
  load_lines [] records = ok records
  load_lines (line ∷ lines) records = load_line line records >>= load_lines lines

  -- A sink is opened on what its path holds. A torn tail is cut off, and one that lacks its newline
  -- alone is given it; where the call raises, the file that it leaves is not shown.
  unfoldable pub load_existing : Option File → Result Sink
  unfolding load_lines remember decode_line
  load_existing none = ok (record { records = []; file = none })
  load_existing (some f) =
      if str_eq f.tail ""
      then (load_lines f.lines [] >>= λ records. ok (record { records = records; file = some f }))
      else elim (decode_line f.tail) [
        | none ↦ load_lines f.lines [] >>= λ records.
            ok (record { records = records; file = some (record f { tail = "" }) })
        | some e ↦ remember canonical e [] >>= λ first.
            load_lines (f.lines ++ f.tail ∷ []) first >>= λ records. ok (record {
              records = records;
              file = some (record { lines = f.lines ++ f.tail ∷ []; tail = "" });
            })
      ]

module _ (canonical : Value → String) (digest : Value → String) where
  -- `append` of a payload: what decoding raises becomes EvidenceSinkError, but for OverflowError,
  -- which is neither TypeError nor ValueError.
  abbrev wrapped : Raised → Raised
  wrapped overflow_error = overflow_error
  wrapped _ = evidence_sink_error

  unfoldable pub append : Write → Value → Sink → Result String × Sink
  unfolding append_envelope
  append write payload s = elim (decode_evidence digest payload) [
    | raise r ↦ (raise (wrapped r), s)
    | ok e ↦ append_envelope canonical write e s
  ]
