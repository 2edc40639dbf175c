-- ===== src/Proof/Tests/RuleCases.antt =====
-- The theorems on the status rules and on a run's outcome, at examples.
use evo_harness_preview.Prelude.{
  String, ◌≡◌, ◌↔◌, true, false, not, ◌⊎◌, none, some, List, [], ◌∷◌, filter_where,
}
use evo_harness_preview.Proof.Graph.{Outcome, goal_status_from, is_no_verdict, is_capability}
use evo_harness_preview.Proof.Graph.Rules.{goal_status_from-verdicts}
use evo_harness_preview.Proof.Solver.{
  AttemptResult, RunReport, value, fault, solver_error, has_text, is_solved, is_infra_reason,
  is_budget_reason, from_run_report,
}
use evo_harness_preview.Proof.Solver.Outcomes.{from_run_report_lem}

goal_status_from-verdicts_example :
    goal_status_from
      (filter_where (λ o. not (is_no_verdict o)) (Outcome.infra_failed ∷ Outcome.task_failed ∷ []))
      []
      1
    ≡ goal_status_from (Outcome.infra_failed ∷ Outcome.task_failed ∷ []) [] 1
goal_status_from-verdicts_example =
    goal_status_from-verdicts (Outcome.infra_failed ∷ Outcome.task_failed ∷ []) [] 1

abbrev root_text : String
root_text = "root"

abbrev lemma_texts : List String
lemma_texts = "left" ∷ "root" ∷ []

abbrev the_report : RunReport
the_report = record {
  stopped_reason = "eval_infra";
  best_fitness = some 12;
  shown_fitness = "12";
  total_llm_cost = 4;
}

from_run_report_example :
    ((from_run_report the_report none 10 (some "by trivial") none ≡ fault solver_error)
      × (is_solved 10 (some 12) ≡ true)
      × (has_text (some "by trivial") ≡ false))
    ⊎ ((r : AttemptResult) × (from_run_report the_report none 10 (some "by trivial") none ≡ value r)
        × ((r.outcome ≡ Outcome.proved) ↔ (is_solved 10 (some 12) ≡ true))
        × (r.outcome ≡ Outcome.proved
            → (r.proof_text ≡ some "by trivial") × (has_text (some "by trivial") ≡ true))
        × ((is_capability r.outcome ≡ true) ↔ (
            (is_solved 10 (some 12) ≡ false)
            × (is_infra_reason "eval_infra" ≡ false)
            × (is_budget_reason "eval_infra" ≡ false)))
        × (r.cost ≡ 4))
from_run_report_example = from_run_report_lem the_report none 10 (some "by trivial") none
