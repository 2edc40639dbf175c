-- ===== src/Proof/Solver.antt =====
-- evoharness/proof/solver.py: what an attempt ended with. The solvers themselves are outside.
--
-- A text that is `None` or empty counts as absent where the code tests its truth. A fitness is read
-- as a natural number, in a fine unit, and a report brings the text that a note shows it by.
pub mod Outcomes
use evo_harness_preview.Prelude.{
  ℕ, suc, String, Bool, true, false, not, ◌&&◌, Option, none, some, List, [], ◌∷◌, any, leb, str_eq,
  append_text, if◌then◌else◌,
}
use evo_harness_preview.Proof.Graph.{Outcome, is_proof}

pub record AttemptResult : Type 0 where
  pub outcome : Outcome
  pub proof_text : Option String
  pub run_dir : Option String
  pub evidence_ref : Option String
  pub cost : ℕ
  pub note : String

-- What this part of the code raises: SolverError and ValueError.
pub data Fault : Type 0 where
  solver_error value_fault : Fault

pub data Checked {ℓ} (A : Type ℓ) : Type ℓ where
  value : A → Checked A
  fault : Fault → Checked A

-- The truth of a text.
abbrev pub has_text : Option String → Bool
has_text none = false
has_text (some t) = not (str_eq t "")

-- `__post_init__`
unfoldable pub new_result : AttemptResult → Checked AttemptResult
new_result r =
    if is_proof r.outcome && not (has_text r.proof_text)
    then fault value_fault
    else if not (is_proof r.outcome) && has_text r.proof_text
    then fault value_fault
    else value r

-- The report of a finished run, with `None` and missing fields as the code reads them.
pub record RunReport : Type 0 where
  pub stopped_reason : String
  pub best_fitness : Option ℕ
  pub shown_fitness : String
  pub total_llm_cost : ℕ

-- _INFRA_REASONS
unfoldable pub is_infra_reason : String → Bool
is_infra_reason reason = any (str_eq reason) ("eval_infra" ∷ "proposer_dead" ∷ [])

-- _BUDGET_REASONS
unfoldable pub is_budget_reason : String → Bool
is_budget_reason reason = any (str_eq reason) ("budget" ∷ "llm_billing" ∷ [])

abbrev pub is_solved : ℕ → Option ℕ → Bool
is_solved solved_at none = false
is_solved solved_at (some fitness) = leb solved_at fitness

abbrev without_proof : Outcome → Option String → ℕ → String → AttemptResult
without_proof outcome run_dir cost note = record {
  outcome = outcome;
  proof_text = none;
  run_dir = run_dir;
  evidence_ref = none;
  cost = cost;
  note = note;
}

unfoldable pub from_run_report :
    RunReport
    → (run_dir : Option String) (solved_at : ℕ) (proof_text evidence_ref : Option String)
    → Checked AttemptResult
unfolding new_result is_infra_reason is_budget_reason
from_run_report report run_dir solved_at proof_text evidence_ref =
    let reason = report.stopped_reason in
    let note = append_text "stopped_reason=" reason in
    let cost = report.total_llm_cost in
    if is_solved solved_at report.best_fitness
    then if not (has_text proof_text)
      then fault solver_error
      else new_result (record {
        outcome = Outcome.proved;
        proof_text = proof_text;
        run_dir = run_dir;
        evidence_ref = evidence_ref;
        cost = cost;
        note = note;
      })
    else if is_infra_reason reason
    then new_result (without_proof Outcome.infra_failed run_dir cost note)
    else if is_budget_reason reason
    then new_result (without_proof Outcome.budget_exhausted run_dir cost note)
    else new_result (
        without_proof Outcome.task_failed run_dir cost
          (append_text note (append_text " best_fitness=" report.shown_fitness)))

-- `AttemptResult.interrupted`, whose result `__post_init__` lets pass: it has no proof text.
unfoldable pub interrupted : Option String → String → AttemptResult
interrupted run_dir note =
    without_proof Outcome.interrupted run_dir 0
      (if str_eq note "" then "run did not return; manifest not finalized" else note)
