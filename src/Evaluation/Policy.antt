-- ===== src/Evaluation/Policy.antt =====
-- evoharness/evaluation/policy.py: what the search and the commitment may use an envelope for.
pub mod Decisions
use evo_harness_preview.Prelude.{
  String, Bool, true, false, not, ◌&&◌, Option, none, some, str_eq, if◌then◌else◌,
}
use evo_harness_preview.Evaluation.Faults.{
  FaultKind, task_failure, timeout, value, Result, ok, raise, ◌>>=◌, refuse_if, value_error,
}
use evo_harness_preview.Evaluation.Values.{Float}
use evo_harness_preview.Evaluation.Namespace.{is_declared, is_complete, require_comparable}
use evo_harness_preview.Evaluation.Evidence.{EvidenceEnvelope, is_missing, is_yes}

pub record SearchUseDecision : Type 0 where
  pub recordable : Bool
  pub selectable : Bool
  archive_eligible : Bool
  pub repairable : Bool
  pub rankable : Bool
  pub projected_fitness : Option Float
  pub reason : String

unfoldable pub is_quarantine : SearchUseDecision → Bool
is_quarantine d = d.recordable && not d.selectable && not d.repairable

abbrev decision : Bool → Bool → Bool → Bool → Option Float → String → SearchUseDecision
decision recordable selectable repairable rankable fitness reason = record {
  recordable = recordable;
  selectable = selectable;
  archive_eligible = selectable;
  repairable = repairable;
  rankable = rankable;
  projected_fitness = fitness;
  reason = reason;
}

-- `fault_kind in {FaultKind.TASK_FAILURE, FaultKind.TIMEOUT}`
unfoldable pub is_own_failure : Option FaultKind → Bool
is_own_failure (some task_failure) = true
is_own_failure (some timeout) = true
is_own_failure _ = false

abbrev fault_text : Option FaultKind → String
fault_text none = ""
fault_text (some kind) = value kind

-- Every row that the code builds has the same value for `selectable` and `archive_eligible`.
unfoldable pub decide_search_use : EvidenceEnvelope → SearchUseDecision
unfolding is_own_failure is_complete is_declared
decide_search_use e =
    if not e.evaluation_valid
    then decision false false false false none "no-verdict"
    else if not (is_yes e.admissible)
    then decision true false false false e.fitness "invalid-candidate"
    else if is_own_failure e.fault_kind
    then decision true false true false e.fitness (fault_text e.fault_kind)
    else if not (is_missing e.fault_kind)
    then decision false false false false none "unsupported-fault"
    else if is_complete e.coverage
    then decision true true false true e.fitness "complete-verdict"
    else if not (is_declared e.coverage)
    then decision true true false false e.fitness "legacy-coverage-undeclared"
    else decision true false false false e.fitness "partial-coverage"

unfoldable may_enter_population : EvidenceEnvelope → Bool
may_enter_population e = (decide_search_use e).recordable

unfoldable pub may_rank : EvidenceEnvelope → EvidenceEnvelope → Result (Unit {0})
may_rank a b = require_comparable a.namespace b.namespace >>= λ _.
    refuse_if (not (decide_search_use a).rankable) value_error
      (refuse_if (not (decide_search_use b).rankable) value_error (ok tt))

-- `bool(objective_verifier_hash)`
abbrev has_verifier : Option String → Bool
has_verifier none = false
has_verifier (some t) = not (str_eq t "")

unfoldable pub may_support_objective : EvidenceEnvelope → Bool
unfolding is_complete
may_support_objective e =
    is_yes e.objective_met
    && has_verifier e.objective_verifier_hash
    && e.evaluation_valid
    && is_yes e.admissible
    && is_missing e.fault_kind
    && is_complete e.coverage
