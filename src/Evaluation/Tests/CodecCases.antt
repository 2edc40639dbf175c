-- ===== src/Evaluation/Tests/CodecCases.antt =====
-- The theorems on envelopes, their JSON form and their use, at examples.
use evo_harness_preview.Prelude.{◌≡◌}
use evo_harness_preview.Evaluation.Faults.{ok}
use evo_harness_preview.Evaluation.Evidence.{is_yes}
use evo_harness_preview.Evaluation.Codec.{encode_evidence, decode_evidence}
use evo_harness_preview.Evaluation.Codec.RoundTrip.{decode_evidence-encode_evidence}
use evo_harness_preview.Evaluation.Codec.Identity.{
  IsBuilt, new_evidence-IsBuilt, decode_evidence-IsBuilt,
}
use evo_harness_preview.Evaluation.Policy.{decide_search_use, may_support_objective}
use evo_harness_preview.Evaluation.Policy.Decisions.{
  IsDecision, decide_search_use_lem, may_support_objective_lem,
}
use evo_harness_preview.Evaluation.Tests.{
  digest, digest_full, met_draft, met, late_draft, late, named, covered, met_built, late_built,
  late_decodes,
}

decode_evidence-encode_evidence_example : decode_evidence digest (encode_evidence met) ≡ ok met
decode_evidence-encode_evidence_example =
    decode_evidence-encode_evidence digest digest_full met_draft met named covered met_built

decode_evidence-IsBuilt_example :
    IsBuilt digest late × (decode_evidence digest (encode_evidence late) ≡ ok late)
decode_evidence-IsBuilt_example =
    decode_evidence-IsBuilt digest digest_full (encode_evidence late) late late_decodes

new_evidence-IsBuilt_example : IsBuilt digest late
new_evidence-IsBuilt_example = new_evidence-IsBuilt digest late_draft late late_built

decide_search_use_example : IsDecision late (decide_search_use late)
decide_search_use_example = decide_search_use_lem digest late_draft late late_built

may_support_objective_example : may_support_objective met ≡ is_yes met.objective_met
may_support_objective_example = may_support_objective_lem digest met_draft met met_built
