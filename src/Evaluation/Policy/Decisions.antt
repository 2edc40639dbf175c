-- ===== src/Evaluation/Policy/Decisions.antt =====
-- What the policy decides of the envelopes that can be built.
use evo_harness_preview.Prelude.{
  String, ◌≡◌, ◌↔◌, true, false, ◌⊎◌, inl, inr, none, some, ap, Bool-cases, arith, str_eq,
  str_eq_iff,
}
use evo_harness_preview.Evaluation.Blank.{is_blank}
use evo_harness_preview.Evaluation.Faults.{
  task_failure, timeout, invalid_candidate, is_no_verdict_fault, ok,
}
use evo_harness_preview.Evaluation.Values.{Value}
use evo_harness_preview.Evaluation.Namespace.{
  is_complete, is_declared, ScoreNamespace, same_namespace, require_comparable,
}
use evo_harness_preview.Evaluation.Evidence.{Draft, EvidenceEnvelope, in_no_verdict, is_yes}
use evo_harness_preview.Evaluation.Evidence.Consistent.{IsConsistent, IsAssessed}
use evo_harness_preview.Evaluation.Codec.{new_evidence}
use evo_harness_preview.Evaluation.Codec.Identity.{new_evidence-IsBuilt}
use evo_harness_preview.Evaluation.Policy.{
  SearchUseDecision, is_quarantine, is_own_failure, decide_search_use, may_rank,
  may_support_objective,
}

-- What a decision says, from the verdict alone: a record of a verdict, which is one of a selectable
-- candidate, a repairable one, or a quarantined one.
abbrev pub IsDecision : EvidenceEnvelope → SearchUseDecision → Type 0
IsDecision e d =
    (d.recordable ≡ e.evaluation_valid)
    × ((d.selectable ≡ true)
        ↔ (e.evaluation_valid ≡ true)
          × (e.admissible ≡ some true)
          × (e.fault_kind ≡ none)
          × ((is_declared e.coverage ≡ false) ⊎ (is_complete e.coverage ≡ true)))
    × ((d.repairable ≡ true)
        ↔ (e.evaluation_valid ≡ true)
          × ((e.fault_kind ≡ some task_failure) ⊎ (e.fault_kind ≡ some timeout)))
    × ((is_quarantine d ≡ true)
        ↔ (e.evaluation_valid ≡ true)
          × ((e.fault_kind ≡ some invalid_candidate)
              ⊎ (e.fault_kind ≡ none)
                × (is_declared e.coverage ≡ true)
                × (is_complete e.coverage ≡ false)))
    × ((d.rankable ≡ true) ↔ (d.selectable ≡ true) × (is_complete e.coverage ≡ true))
    × (d.projected_fitness ≡ e.fitness)

decided : (e : EvidenceEnvelope) → IsConsistent e → IsDecision e (decide_search_use e)
unfolding decide_search_use is_own_failure is_quarantine in_no_verdict is_no_verdict_fault
decided e (inl (valid, (b, x, a, f, fault, refused, reasons)), q) =
    (ground arith, ground arith, ground arith, ground arith, ground arith, ground arith)
decided e (inr (invalid, (k, fault, n, a, f, o, r)), q) = ground arith

-- Of an envelope that was built: it may be recorded exactly if it is a verdict; selected exactly
-- if it is an admissible one without a fault whose coverage is undeclared or complete; repaired
-- exactly if its fault is a failed task or a timeout; it is quarantined exactly if it is a
-- verdict with the fault invalid_candidate, or without a fault and of declared, incomplete
-- coverage; ranked exactly if it may be selected and is complete; and its fitness is projected as
-- it is.
pub decide_search_use_lem :
    (digest : Value → String) (d : Draft) (e : EvidenceEnvelope)
    → new_evidence digest d ≡ ok e
    → IsDecision e (decide_search_use e)
decide_search_use_lem digest d e built = decided e (new_evidence-IsBuilt digest d e built).0

str_eq_of_blank : (t : String) → is_blank t ≡ false → str_eq t "" ≡ false
unfolding is_blank
str_eq_of_blank t h = elim (Bool-cases (str_eq t "")) [
  | inl e ↦ let empty = (str_eq_iff t "").0 e in cc (ap is_blank empty)
  | inr e ↦ e
]

supports : (e : EvidenceEnvelope) → IsAssessed e → may_support_objective e ≡ is_yes e.objective_met
unfolding may_support_objective
supports e (inl (unassessed, unnamed), met) = ground arith
supports e (inr (b, t, o, h, blank), met) = elim (Bool-cases b) [
  | inl y ↦ ground (arith, str_eq_of_blank t blank, met)
  | inr n ↦ ground arith
]

-- A built envelope may support the objective exactly if it says that the objective is met: the
-- other tests of may_support_objective follow.
pub may_support_objective_lem :
    (digest : Value → String) (d : Draft) (e : EvidenceEnvelope)
    → new_evidence digest d ≡ ok e
    → may_support_objective e ≡ is_yes e.objective_met
may_support_objective_lem digest d e built = supports e (new_evidence-IsBuilt digest d e built).0.1

same_namespace_iff : (a b : ScoreNamespace) → (same_namespace a b ≡ true) ↔ (a ≡ b)
unfolding same_namespace
same_namespace_iff a b = ground (
  arith,
  str_eq_iff a.criterion_hash b.criterion_hash,
  str_eq_iff a.measurement_hash b.measurement_hash,
  str_eq_iff a.evaluator_hash b.evaluator_hash,
  str_eq_iff a.universe_hash b.universe_hash,
)

-- Two envelopes may be ranked exactly within one namespace, where both may be.
may_rank_iff :
    (a b : EvidenceEnvelope)
    → (may_rank a b ≡ ok tt)
      ↔ (a.namespace ≡ b.namespace)
        × ((decide_search_use a).rankable ≡ true)
        × ((decide_search_use b).rankable ≡ true)
unfolding may_rank require_comparable
may_rank_iff a b = ground (arith, same_namespace_iff a.namespace b.namespace)
