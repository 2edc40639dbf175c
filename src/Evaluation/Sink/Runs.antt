-- ===== src/Evaluation/Sink/Runs.antt =====
-- A run of writes against a table that keeps the first text for each identity.
use evo_harness_preview.Prelude.{String, ◌≡◌, refl, Option, List, [], ◌∷◌, ap, ◌∙◌}
use evo_harness_preview.Evaluation.Values.{Value}
use evo_harness_preview.Evaluation.Evidence.{EvidenceEnvelope}
use evo_harness_preview.Evaluation.Sink.{Sink, whole, find_record, append_envelope}
use evo_harness_preview.Evaluation.Sink.Durable.{
  ReadsBack, IsDurable, kept, append_envelope-IsDurable,
}

module _ (canonical : Value → String) (loads : String → Option Value)
    (digest : Value → String) where
  -- The calls of `append`, one after the other.
  pub run : List EvidenceEnvelope → Sink → Sink
  run [] s = s
  run (e ∷ es) s = run es (append_envelope canonical whole e s).1

  -- The same on a function from identities to texts.
  pub replay : List EvidenceEnvelope → (String → Option String) → String → Option String
  replay [] f = f
  replay (e ∷ es) f = replay es (λ id. kept canonical loads digest e (f id) id)

  abbrev AllReadBack : List EvidenceEnvelope → Type 0
  AllReadBack [] = Unit
  AllReadBack (e ∷ es) = ReadsBack canonical loads digest e × AllReadBack es

  replay-congr :
      (es : List EvidenceEnvelope) (f g : String → Option String)
      → ((id : String) → f id ≡ g id)
      → (id : String) → replay es f id ≡ replay es g id
  unfolding replay
  replay-congr [] f g h id = h id
  replay-congr (e ∷ es) f g h id =
      replay-congr es _ _
        (λ id. ap (λ (o : Option String). kept canonical loads digest e o id) (h id)) id

  -- Where the text of every envelope of a run reads back as an envelope of that identity and
  -- text: after the run's writes on a durable sink, the sink is durable, which says that opening
  -- its file again gives the records it has, and its records are those of a function from
  -- identities to texts that keeps the first text for each.
  pub run_refines :
      (es : List EvidenceEnvelope) (s : Sink)
      → AllReadBack es
      → IsDurable canonical loads digest s
      → IsDurable canonical loads digest (run es s)
        × ((id : String)
            → find_record id (run es s).records ≡ replay es (λ id. find_record id s.records) id)
  unfolding run replay
  run_refines [] s back durable = (durable, λ id. refl)
  run_refines (e ∷ es) s (back, backs) durable =
      let (durable', put) = append_envelope-IsDurable canonical loads digest e s back durable in
      let (end, found) = run_refines es (append_envelope canonical whole e s).1 backs durable' in
      (end, λ id. found id ∙ replay-congr es _ _ put id)
