-- ===== src/Proof/Store/Propagate.antt =====
-- `propagate` of store.py: the statuses of a goal and of all above it, by a work queue.
--
-- The queue is a stack with its top first. The loop's fuel is what `Propagate/Loop.antt` is about.
pub mod View
pub mod Settles
pub mod Round
pub mod Potential
pub mod Fuel
pub mod Loop
pub mod Exact
pub mod Correct
use evo_harness_preview.Prelude.{
  ℕ, zero, suc, ◌+◌, ◌*◌, String, Bool, true, false, Option, none, some, List, [], ◌∷◌, map, length,
  update_key, if◌then◌else◌,
}
use evo_harness_preview.Proof.Graph.{
  Goal, Decomposition, Attempt, GoalStatus, DecompositionStatus, open_goal, exhausted, proposed,
  accepted, rejected_by_verifier, rejected_by_reviewer, completed, is_exhausted, goal_status_from,
  decomposition_status_from,
}
use evo_harness_preview.Proof.Store.State.{
  Store, Exec, Error, Result, ok, err, out_of_fuel, goal_key, goal, parents_of, decompositions_of,
  attempts_of,
}
use evo_harness_preview.Proof.Store.Write.{set_decomposition_status}

-- `is`, on the members of the two enumerations.
abbrev pub same_goal_status : GoalStatus → GoalStatus → Bool
same_goal_status open_goal open_goal = true
same_goal_status GoalStatus.proved GoalStatus.proved = true
same_goal_status exhausted exhausted = true
same_goal_status _ _ = false

abbrev pub same_status : DecompositionStatus → DecompositionStatus → Bool
same_status proposed proposed = true
same_status accepted accepted = true
same_status rejected_by_verifier rejected_by_verifier = true
same_status rejected_by_reviewer rejected_by_reviewer = true
same_status completed completed = true
same_status _ _ = false

-- `[self.goal(i).status for i in …]`
unfoldable pub statuses_of : List ℕ → Store → Result (List GoalStatus)
unfolding goal
statuses_of [] s = ok []
statuses_of (i ∷ is) s = elim (goal i s) [
  | err e ↦ err e
  | ok g ↦ elim (statuses_of is s) [ err e ↦ err e | ok rest ↦ ok (g.status ∷ rest) ]
]

-- The inner loop: every decomposition of the goal is advanced, and written if that changed it.
unfoldable pub advance_each : List Decomposition → Exec (List DecompositionStatus)
unfolding statuses_of decomposition_status_from set_decomposition_status
advance_each [] s = (ok [], s)
advance_each (d ∷ ds) s = elim (statuses_of d.subgoal_ids s) [
  | err e ↦ (err e, s)
  | ok subgoals ↦
      let status = decomposition_status_from d.status subgoals in
      let written =
        if same_status status d.status then s else set_decomposition_status d.id status "" s in
      let (r, s') = advance_each ds written in
      (elim r [ err e ↦ err e | ok advanced ↦ ok (status ∷ advanced) ], s')
]

-- A goal that leaves `exhausted` forgets what it was exhausted at.
abbrev pub with_status : ℕ → String → GoalStatus → Goal → Goal
with_status budget_spent solver_level status g =
    if is_exhausted status
    then record g {
      status = status;
      exhausted_at_budget = some budget_spent;
      exhausted_at_solver = some solver_level;
    }
    else record g { status = status; exhausted_at_budget = none; exhausted_at_solver = none }

unfoldable pub set_goal_status : ℕ → String → ℕ → GoalStatus → Store → Store
set_goal_status budget_spent solver_level goal_id status s = record s {
  goals = update_key goal_key goal_id (with_status budget_spent solver_level status) s.goals;
}

-- `pending.extend(…)`
abbrev pub push_all : List ℕ → List ℕ → List ℕ
push_all [] pending = pending
push_all (i ∷ is) pending = push_all is (i ∷ pending)

module _ (max_capability_attempts budget_spent : ℕ) (solver_level : String) where
  -- One round of the loop; the goals that are queued behind it.
  unfoldable pub visit : ℕ → Exec (List ℕ)
  visit current_id s = elim (goal current_id s) [
    | err e ↦ (err e, s)
    | ok current ↦
        let (r, s') = advance_each (decompositions_of current_id s) s in
        elim r [
          | err e ↦ (err e, s')
          | ok advanced ↦
              let status =
                goal_status_from (map (λ (a : Attempt). a.outcome) (attempts_of current_id s'))
                  advanced max_capability_attempts in
              if same_goal_status status current.status
              then (ok [], s')
              else let s'' = set_goal_status budget_spent solver_level current_id status s' in
                (ok (parents_of current_id s''), s'')
        ]
  ]

  unfoldable pub propagate_loop : ℕ → List ℕ → Exec (Unit {0})
  propagate_loop zero pending s = elim pending [ [] ↦ (ok tt, s) | _ ∷ _ ↦ (err out_of_fuel, s) ]
  propagate_loop (suc fuel) pending s = elim pending [
    | [] ↦ (ok tt, s)
    | current_id ∷ rest ↦
        let (r, s') = visit current_id s in
        elim r [ err e ↦ (err e, s') | ok parents ↦ propagate_loop fuel (push_all parents rest) s' ]
  ]

  abbrev pub enough_fuel : Store → ℕ
  enough_fuel s = suc ((length s.goals + length s.decompositions) * length s.decompositions)

  unfoldable pub propagate : ℕ → Exec (Unit {0})
  propagate goal_id s = propagate_loop (enough_fuel s) (goal_id ∷ []) s
