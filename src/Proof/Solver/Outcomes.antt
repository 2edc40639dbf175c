-- ===== src/Proof/Solver/Outcomes.antt =====
-- The outcome that a run's report comes to.
use evo_harness_preview.Prelude.{ℕ, String, ◌≡◌, ◌↔◌, ◌⊎◌, true, false, Option, arith}
use evo_harness_preview.Proof.Graph.{Outcome, is_capability}
use evo_harness_preview.Proof.Solver.{
  AttemptResult, RunReport, value, fault, solver_error, has_text, new_result, is_solved,
  is_infra_reason, is_budget_reason, from_run_report,
}

module _ (report : RunReport) (run_dir : Option String) (solved_at : ℕ)
    (proof_text evidence_ref : Option String) where
  -- A run's report comes to a result or to a SolverError, and to the error exactly if the run
  -- reached the threshold and no proof text is there. A result is PROVED exactly if the run
  -- reached the threshold, and then it carries the proof text, however the run stopped; it says that
  -- the goal was tried and failed exactly if the run did not reach the threshold and stopped for
  -- neither an infrastructure nor a budget reason; its cost is the report's.
  pub from_run_report_lem :
      ((from_run_report report run_dir solved_at proof_text evidence_ref ≡ fault solver_error)
        × (is_solved solved_at report.best_fitness ≡ true)
        × (has_text proof_text ≡ false))
      ⊎ ((r : AttemptResult) × (from_run_report report run_dir solved_at proof_text evidence_ref
            ≡ value r)
          × ((r.outcome ≡ Outcome.proved) ↔ (is_solved solved_at report.best_fitness ≡ true))
          × (r.outcome ≡ Outcome.proved
              → (r.proof_text ≡ proof_text) × (has_text proof_text ≡ true))
          × ((is_capability r.outcome ≡ true) ↔ (
              (is_solved solved_at report.best_fitness ≡ false)
              × (is_infra_reason report.stopped_reason ≡ false)
              × (is_budget_reason report.stopped_reason ≡ false)))
          × (r.cost ≡ report.total_llm_cost))
  unfolding from_run_report new_result is_capability
  from_run_report_lem = ground arith
