-- ===== src/Proof/Tests/ControllerCases.antt =====
-- The controller's theorems at the small proof graph, with a solver that proves its lemmas.
use mathlib.Core.List.Memᴰ
use evo_harness_preview.Prelude.{
  ℕ, zero, suc, ◌+◌, ◌≤◌, ◌<◌, String, ◌≡◌, ◌≢◌, ◌≢◌, ◌↔◌, refl, sym, ap, ◌∙◌, subst, Bool, true,
  false, not, ◌⊎◌, inl, inr, Option, none, some, List, [], ◌∷◌, ◌++◌, ◌*◌, ◌==◌, Memᴰ, arith,
  find_key, filter_where, if◌then◌else◌,
}
use evo_harness_preview.Proof.Graph.{Goal, Decomposition, Outcome, open_goal, repeated, is_live}
use evo_harness_preview.Proof.Store.State.{err, out_of_fuel, parents_of, goal, ok}
use evo_harness_preview.Proof.Store.Write.{fresh_goal, upsert_goal}
use evo_harness_preview.Proof.Store.Shape.{
  add_decomposition, check_route, write_decomposition, write_rows, insert_subgoals,
  ancestor_identities,
}
use evo_harness_preview.Prelude.Walk.{Below, one, more}
use evo_harness_preview.Proof.Store.Leases.Exclusion.{IsHeld}
use evo_harness_preview.Proof.Store.Propagate.Correct.{IsCurrent}
use evo_harness_preview.Proof.Solver.{AttemptResult}
use evo_harness_preview.Proof.Controller.{
  Outside, Settings, World, DecompositionOutcome, select_first_open, actionable_goals, claim_first,
  record_decomposition, revalidate_proposed,
}
use evo_harness_preview.Proof.Controller.Loop.{solve}
use evo_harness_preview.Proof.Controller.Claims.{actionable_goals_iff, claim_first_ends}
use evo_harness_preview.Proof.Controller.Rulings.{
  Answers, record_decomposition-IsCurrent, revalidate_proposed-IsCurrent,
}
use evo_harness_preview.Prelude.Walk.{walk, offer, scan}
use evo_harness_preview.Proof.Controller.{
  maybe_decompose, recover, recover_each, recover_goal, revalidate, revalidate_each, rule_on,
}
use evo_harness_preview.Proof.Controller.Loop.{
  attack_goal, attack_turn, decompose_turn, leased, report, turn, turns, work,
}
use evo_harness_preview.Proof.Graph.{
  decomposition_status_from, is_capability, is_no_verdict, is_terminal, goal_status_from,
}
use evo_harness_preview.Proof.Solver.{interrupted}
use evo_harness_preview.Proof.Store.Leases.{claim, force_release, release, stale_leases}
use evo_harness_preview.Proof.Store.Propagate.{
  set_goal_status, statuses_of, propagate, propagate_loop, visit, advance_each,
}
use evo_harness_preview.Proof.Store.Shape.{reachable_from}
use evo_harness_preview.Proof.Store.State.{
  decomposition, decompositions_of, proposed_decompositions, sketch_of, total_cost, open_goals,
  attempts_of,
}
use evo_harness_preview.Proof.Store.Write.{insert_goal, set_decomposition_status, record_attempt}
use evo_harness_preview.Proof.Controller.Ends.{solve_ends}
use evo_harness_preview.Proof.Controller.Counts.{solve_bounded}
use evo_harness_preview.Proof.Controller.Offers.{offers, offers_once}
use evo_harness_preview.Proof.Controller.Loop.{SolveReport}
use evo_harness_preview.Prelude.{count, str_eq, ◌≤◌, true}
use evo_harness_preview.Proof.Controller.Solve.{HasSketches, Solved, solve_correct}
use evo_harness_preview.Proof.Tests.{
  one_goal, one_goal-IsCurrent, the_sketch, routed, routed-IsCurrent,
}

-- A solver that proves the lemmas and fails at the root, and the route above for the root.
abbrev result_of : Goal → AttemptResult
result_of g = record {
  outcome = if g.id == 1 then Outcome.task_failed else Outcome.proved;
  proof_text = if g.id == 1 then none else some "by trivial";
  run_dir = none;
  evidence_ref = none;
  cost = 2;
  note = "";
}

abbrev outside : Outside
outside = record {
  attack = λ n g budget. result_of g;
  level = "lean";
  propose = λ n g. if g.id == 1 then some the_sketch else none;
  validate_sketch = λ n g k. some (record { is_ok = true; reason = "" });
  select = λ gs. select_first_open gs;
  draw = λ n i. n * 100 + i;
  clock = λ n. n;
}

abbrev settings : Settings
settings = record {
  max_capability_attempts = 3;
  max_consecutive_infra = 5;
  lease_ttl_s = 600;
  owner = "worker";
  decompose_root_first = false;
}

outside-Answers : Answers outside
outside-Answers n g k = (record { is_ok = true; reason = "" }, refl)

no_route : HasSketches one_goal
unfolding upsert_goal
no_route d m e = absurd (Memᴰ.not-nil m)

abbrev start : World
start = record { store = one_goal; moment = 1 }

solve_correct_example : Solved 3 1 (solve outside settings 1 50 10 start)
solve_correct_example =
    solve_correct outside settings 1 50 outside-Answers 10 start no_route one_goal-IsCurrent

record_decomposition-IsCurrent_example :
    IsCurrent 3
      (record_decomposition outside settings
        (fresh_goal 1 "root" "theorem root : p ∧ q")
        the_sketch
        start).1.store
record_decomposition-IsCurrent_example =
    record_decomposition-IsCurrent outside settings outside-Answers
      (fresh_goal 1 "root" "theorem root : p ∧ q") the_sketch start one_goal-IsCurrent

has_sketch : HasSketches routed
unfolding add_decomposition upsert_goal check_route goal ancestor_identities
    evo_harness_preview.Prelude.Walk.walk parents_of repeated write_decomposition write_rows
    insert_subgoals
has_sketch d m e = (the_sketch, rw (Memᴰ.eq_of_singleton m) refl)

abbrev waiting : World
waiting = record { store = routed; moment = 1 }

revalidate_proposed_example :
    (all : DecompositionOutcome) × (w' : World) × (revalidate_proposed outside settings waiting
      ≡ (ok all, w'))
    × IsCurrent 3 w'.store
revalidate_proposed_example =
    revalidate_proposed-IsCurrent outside settings outside-Answers waiting has_sketch
      routed-IsCurrent

actionable_goals_example :
    Memᴰ (fresh_goal 1 "root" "theorem root : p ∧ q") (actionable_goals (some (1 ∷ [])) one_goal)
    ↔ (Memᴰ (fresh_goal 1 "root" "theorem root : p ∧ q") one_goal.goals
        × (open_goal ≡ open_goal)
        × Memᴰ {A = ℕ} 1 (1 ∷ [])
        × ((d : Decomposition)
            → Memᴰ d one_goal.decompositions
            → d.goal_id ≡ 1
            → is_live d.status ≡ false))
actionable_goals_example =
    actionable_goals_iff (1 ∷ []) one_goal (fresh_goal 1 "root" "theorem root : p ∧ q")

picks_member : (l : List Goal) (g : Goal) → select_first_open l ≡ some g → Memᴰ g l
unfolding select_first_open
picks_member [] g e = absurd (ground arith)
picks_member (x ∷ xs) g e = Memᴰ.head (ground arith)

abbrev roots : List Goal
roots = fresh_goal 1 "root" "theorem root : p ∧ q" ∷ []

claim_first_ends_example :
    (found : Option Goal) × (w' : World) × (claim_first outside settings 1 roots start
      ≡ (ok found, w'))
    × (((found ≡ none) × (w'.store ≡ one_goal))
        ⊎ ((g : Goal) × (found ≡ some g)
            × Memᴰ g roots
            × ((n : ℕ) × (w'.moment ≡ suc n)
                × ((now : ℕ) → now < n + 600 → IsHeld w'.store g.id "worker" now))))
claim_first_ends_example =
    claim_first_ends outside settings picks_member 1 roots start (omega arith)
      one_goal-IsCurrent.schema

solve_ends_example : (solve outside settings 1 50 10 start).0 ≢ err out_of_fuel
solve_ends_example =
    solve_ends outside settings 1 50 outside-Answers picks_member 10 start no_route
      one_goal-IsCurrent

-- A run from the root to its proof: the attempt at the root fails, the route is recorded, and both
-- lemmas are proved.
abbrev final_report : SolveReport
final_report = record {
  root_proved = true;
  stopped_reason = "proved";
  iterations = 3;
  spent = 6;
  attempts = 3;
  decompositions_accepted = 1;
  decompositions_rejected = 0;
  cycles_refused = 0;
}

reported : (solve outside settings 1 50 10 start).0 ≡ ok final_report
unfolding solve walk offer scan attack_goal attack_turn claim_first decompose_turn leased
    maybe_decompose record_decomposition recover recover_each recover_goal report revalidate
    revalidate_each revalidate_proposed rule_on turn turns work actionable_goals select_first_open
    decomposition_status_from is_capability is_live is_no_verdict is_terminal goal_status_from
    repeated interrupted claim force_release release stale_leases set_goal_status statuses_of
    propagate propagate_loop visit advance_each add_decomposition reachable_from check_route
    ancestor_identities write_decomposition write_rows insert_subgoals decomposition
    decompositions_of goal proposed_decompositions sketch_of total_cost open_goals attempts_of
    parents_of insert_goal set_decomposition_status upsert_goal record_attempt
reported = refl

solve_bounded_example : (3 ≤ 10) × (3 ≤ 3)
solve_bounded_example = solve_bounded outside settings 1 50 10 start final_report reported

offers_once_example :
    count
      (str_eq "root")
      (offers (("root", the_sketch) ∷ []) (fresh_goal 1 "root" "" ∷ fresh_goal 1 "root" "" ∷ []) [])
    ≤ 1
offers_once_example =
    offers_once (("root", the_sketch) ∷ []) (fresh_goal 1 "root" "" ∷ fresh_goal 1 "root" "" ∷ [])
      [] "root"
