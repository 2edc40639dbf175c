-- ===== src/Proof/Tests.antt =====
-- A small proof graph, built by the store's own operations.
pub mod StoreCases
pub mod RuleCases
pub mod ControllerCases
pub mod PremiseCases
use mathlib.Core.List.Memᴰ
use evo_harness_preview.Proof.Graph.{Attempt, Outcome}
use evo_harness_preview.Proof.Store.Schema.{HasGoal}
use evo_harness_preview.Proof.Store.Current.Pending.{
  IsPending, IsPending-of_current, tried-IsPending,
}
use evo_harness_preview.Prelude.{
  ℕ, zero, suc, ◌+◌, ◌≤◌, ◌<◌, String, ◌≡◌, ◌≢◌, ◌↔◌, refl, sym, ap, ◌∙◌, subst, Bool, true, false,
  not, ◌⊎◌, inl, inr, Option, none, some, List, [], ◌∷◌, ◌++◌, ◌*◌, ◌==◌, Memᴰ, arith, find_key,
  filter_where, if◌then◌else◌,
}
use evo_harness_preview.Proof.Graph.{
  Goal, GoalStatus, Decomposition, DecompositionStatus, Attempt, Outcome, open_goal, exhausted,
  proposed, accepted, completed, goal_status_from, decomposition_status_from, repeated,
  is_no_verdict, is_live, is_capability, is_exhausted,
}
use evo_harness_preview.Proof.Store.State.{
  Store, Sketch, SubgoalSpec, Error, empty_store, Result, attempts_of, decompositions_of,
  parents_of, goal, ok, err, key_error, goal_key,
}
use evo_harness_preview.Proof.Store.Schema.{HasGoal, Schema}
use evo_harness_preview.Proof.Store.Proves.{Proves}
use evo_harness_preview.Proof.Store.Write.{fresh_goal, upsert_goal, record_attempt}
use evo_harness_preview.Proof.Store.Shape.{
  add_decomposition, check_route, write_decomposition, write_rows, insert_subgoals,
  ancestor_identities, reachable_from, identity_of, subgoals_below,
}
use evo_harness_preview.Proof.Store.Shape.Acyclic.{IsAcyclic, add_decomposition-IsAcyclic}
use evo_harness_preview.Prelude.Walk.{Below, one, more}
use evo_harness_preview.Proof.Store.Shape.Walks.{above, ancestor_identities_lem, reachable_from_lem}
use evo_harness_preview.Proof.Graph.Rules.{
  goal_status_from-eq-proved_iff, goal_status_from-verdicts, goal_status_from-concat_proposed,
  decomposition_status_from_lem, repeated_iff,
}
use evo_harness_preview.Proof.Store.Leases.{claim, release, is_free}
use evo_harness_preview.Proof.Store.Leases.Exclusion.{
  IsHeld, claim_excludes, claim-release, claim-eq-true_iff,
}
use evo_harness_preview.Proof.Store.Propagate.{propagate}
use evo_harness_preview.Proof.Store.Propagate.View.{status_of, target}
use evo_harness_preview.Proof.Store.Propagate.Settles.{IsSettled}
use evo_harness_preview.Proof.Store.Propagate.Exact.{IsSound}
use evo_harness_preview.Proof.Store.Propagate.Correct.{IsCurrent, propagate_correct}
use evo_harness_preview.Proof.Store.Current.Rows.{upsert_goal-IsCurrent, claim-IsCurrent}
use evo_harness_preview.Proof.Store.Current.Route.{add_decomposition-IsCurrent}
use evo_harness_preview.Proof.Store.Write.Attempts.{record_attempt_lem}
use evo_harness_preview.Proof.Solver.{
  AttemptResult, RunReport, value, fault, solver_error, has_text, is_solved, is_infra_reason,
  is_budget_reason, from_run_report,
}
use evo_harness_preview.Proof.Solver.Outcomes.{from_run_report_lem}
use evo_harness_preview.Proof.Controller.{
  Outside, Settings, World, DecompositionOutcome, select_first_open, actionable_goals, claim_first,
  record_decomposition, revalidate_proposed,
}
use evo_harness_preview.Proof.Controller.Loop.{SolveReport, solve}
use evo_harness_preview.Proof.Controller.Claims.{actionable_goals_iff, claim_first_ends}
use evo_harness_preview.Proof.Controller.Rulings.{
  Answers, record_decomposition-IsCurrent, revalidate_proposed-IsCurrent,
}
use evo_harness_preview.Proof.Controller.Solve.{HasSketches, Solved, solve_correct}
use evo_harness_preview.Proof.Store.Current.Pending.{
  IsPending, IsPending-of_current, tried-IsPending,
}

-- No rows: everything is current.
empty_store-IsCurrent : IsCurrent 3 empty_store
empty_store-IsCurrent = record {
  schema = record {
    goal_ids = tt;
    identities = tt;
    decomposition_ids = tt;
    routes = λ d m. absurd (Memᴰ.not-nil m);
    tried = λ a m. absurd (Memᴰ.not-nil m);
  };
  settled = λ x. record {
    derived = unfold target attempts_of decompositions_of goal_status_from in refl;
    rested = λ d m.
        let none_there : Memᴰ d [] = unfold decompositions_of in m in
        absurd (Memᴰ.not-nil none_there);
  };
  sound = record {
    goals = λ g e. absurd (ground arith);
    routes = λ d m e. absurd (Memᴰ.not-nil m);
  };
}

abbrev pub one_goal : Store
one_goal = (upsert_goal 1 "root" "theorem root : p ∧ q" empty_store).1

pub one_goal-IsCurrent : IsCurrent 3 one_goal
one_goal-IsCurrent =
    upsert_goal-IsCurrent 3 empty_store empty_store-IsCurrent 1 "root" "theorem root : p ∧ q"

-- A root and a route to it by two lemmas.
abbrev pub draw : ℕ → ℕ
draw n = n + 10

abbrev pub lemmas : List (String × String)
lemmas = ("left", "theorem left : p") ∷ ("right", "theorem right : q") ∷ []

abbrev pub the_sketch : Sketch
the_sketch = record {
  parent_name = "root";
  parent_signature = "theorem root : p ∧ q";
  parent_body = "⟨left, right⟩";
  subgoals =
      record { name = "left"; identity = "left"; signature = "theorem left : p" }
      ∷ record { name = "right"; identity = "right"; signature = "theorem right : q" }
      ∷ [];
  preamble = "";
}

abbrev pub routed : Store
routed = (add_decomposition draw 1 lemmas (some the_sketch) proposed one_goal).1

abbrev pub the_route : Decomposition
the_route = record {
  id = 10;
  goal_id = 1;
  subgoal_ids = 11 ∷ 12 ∷ [];
  status = proposed;
  rejected_reason = "";
}

pub route_added :
    add_decomposition draw 1 lemmas (some the_sketch) proposed one_goal ≡ (ok the_route, routed)
unfolding add_decomposition upsert_goal check_route goal ancestor_identities
    evo_harness_preview.Prelude.Walk.walk parents_of repeated write_decomposition write_rows
    insert_subgoals
route_added = refl

pub root_open : status_of one_goal.goals 1 ≢ exhausted
unfolding upsert_goal
root_open e = ground arith

pub routed-IsCurrent : IsCurrent 3 routed
routed-IsCurrent =
    add_decomposition-IsCurrent 3 draw 1 lemmas (some the_sketch) one_goal routed the_route
      one_goal-IsCurrent root_open route_added

abbrev the_attempt : Attempt
the_attempt = record {
  id = 9;
  goal_id = 1;
  outcome = Outcome.proved;
  proof_text = some "by trivial";
  run_dir = none;
  evidence_ref = none;
  cost = 2;
  note = "";
  created_at = 5;
}

root_row : HasGoal one_goal.goals 1
unfolding upsert_goal
root_row = (_, refl)

abbrev pub tried_once : Store
tried_once = record one_goal { attempts = the_attempt ∷ [] }

pub tried_once-IsPending : IsPending 3 1 tried_once
tried_once-IsPending =
    unfold upsert_goal in
    tried-IsPending 3 1 one_goal (IsPending-of_current 3 1 one_goal one_goal-IsCurrent root_row)
      the_attempt refl
