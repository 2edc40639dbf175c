-- ===== src/Proof/Controller/Loop.antt =====
-- `solve` of evoharness/proof/controller.py: the loop, turn by turn, and its report.
use evo_harness_preview.Prelude.{
  ℕ, zero, suc, ◌-◌, String, Bool, true, false, ◌&&◌, none, some, List, is_empty, length, ltb, leb,
  ◌==◌, if◌then◌else◌,
}
use evo_harness_preview.Proof.Graph.{Goal, Outcome, is_no_verdict, is_proved, is_proof}
use evo_harness_preview.Proof.Solver.{AttemptResult}
use evo_harness_preview.Proof.Store.State.{ok, goal, decompositions_of, total_cost}
use evo_harness_preview.Proof.Store.Shape.{reachable_from}
use evo_harness_preview.Proof.Store.Leases.{release}
use evo_harness_preview.Proof.Controller.{
  Outside, Settings, DecompositionOutcome, no_outcome, add_outcome, Run, ◌>>=◌, done, read, now,
  actionable_goals, propagate_now, maybe_decompose, record_result, recover, claim_first,
}

-- What `solve` counts, and the scope it works in.
pub record Tally : Type 0 where
  pub scope : List ℕ
  pub iterations : ℕ
  pub attempts : ℕ
  pub decomposed : DecompositionOutcome
  pub consecutive_infra : ℕ

pub record SolveReport : Type 0 where
  pub root_proved : Bool
  pub stopped_reason : String
  pub iterations : ℕ
  pub spent : ℕ
  pub attempts : ℕ
  pub decompositions_accepted : ℕ
  pub decompositions_rejected : ℕ
  pub cycles_refused : ℕ

-- How a turn of the loop ends: by `break` with a reason, or on to the next turn.
pub data Turn : Type 0 where
  stop : String → Tally → Turn
  next : Tally → Turn

abbrev is_infra_failed : Outcome → Bool
is_infra_failed Outcome.infra_failed = true
is_infra_failed _ = false

abbrev is_budget_exhausted : Outcome → Bool
is_budget_exhausted Outcome.budget_exhausted = true
is_budget_exhausted _ = false

module _ (o : Outside) (c : Settings) (root_goal_id budget : ℕ) where
  -- A route is asked for, and the scope read anew.
  unfoldable pub decompose_turn : Goal → Tally → Run Tally
  unfolding maybe_decompose reachable_from
  decompose_turn g t = maybe_decompose o c g >>= λ counted.
      read (reachable_from root_goal_id) >>= λ scope.
      done (record t { scope = scope; decomposed = add_outcome t.decomposed counted })

  -- What follows an outcome without a verdict on the goal.
  abbrev pub no_verdict_turn : Outcome → Tally → Turn
  no_verdict_turn outcome t =
      let faults =
        if is_infra_failed outcome then suc t.consecutive_infra else t.consecutive_infra in
      let t' = record t { consecutive_infra = faults } in
      if is_infra_failed outcome && leb c.max_consecutive_infra faults
      then stop "infra" t'
      else if is_budget_exhausted outcome
      then stop "budget" t'
      else next t'

  -- The attempt is recorded and propagated.
  unfoldable pub attack_goal : Goal → ℕ → Run AttemptResult
  attack_goal g spent = now >>= λ n.
      let result = o.attack n g (budget - spent) in
      record_result o c g.id result >>= λ _. propagate_now o c g.id >>= λ _. done result

  unfoldable pub attack_turn : Goal → ℕ → Tally → Run Turn
  unfolding attack_goal is_no_verdict decompose_turn
  attack_turn g spent t = attack_goal g spent >>= λ result.
      let t₁ = record t { attempts = suc t.attempts } in
      if is_no_verdict result.outcome
      then done (no_verdict_turn result.outcome t₁)
      else let t₂ = record t₁ { consecutive_infra = 0 } in
        if is_proof result.outcome
        then done (next t₂)
        else decompose_turn g t₂ >>= λ t₃. done (next t₃)

  -- The body of `try`.
  unfoldable pub work : Goal → ℕ → Tally → Run Turn
  unfolding attack_turn decompose_turn decompositions_of
  work g spent t w =
      if c.decompose_root_first
        && (g.id == root_goal_id)
        && is_empty (decompositions_of g.id w.store)
      then (decompose_turn g t >>= λ t₁.
            if ltb t.decomposed.accepted t₁.decomposed.accepted
            then done (next t₁)
            else attack_turn g spent t₁)
          w
      else attack_turn g spent t w

  -- `finally`: the lease is released however the body ends.
  unfoldable pub leased : Goal → Run Turn → Run Turn
  unfolding release
  leased g body w = let (r, w') = body w in (r, record w' { store = release g.id c.owner w'.store })

  -- One turn of the loop.
  unfoldable pub turn : Tally → Run Turn
  unfolding goal actionable_goals claim_first work leased total_cost
  turn t = read (goal root_goal_id) >>= λ root.
      if is_proved root.status then done (stop "proved" t) else λ w.
      let spent = total_cost w.store in
      if leb budget spent
      then (ok (stop "budget" t), w)
      else let candidates = actionable_goals (some t.scope) w.store in
        if is_empty candidates
        then (ok (stop "no_actionable_goal" t), w)
        else (claim_first o c (length candidates) candidates >>= λ found. elim found [
          | none ↦ done (stop "goal_leased_elsewhere" t)
          | some g ↦ leased g (work g spent (record t { iterations = suc t.iterations }))
        ])
            w

  -- `while iterations < max_iterations`: every turn that goes on has counted one iteration.
  unfoldable pub turns : ℕ → Tally → Run (String × Tally)
  unfolding turn
  turns zero t = done ("max_iterations", t)
  turns (suc left) t =
      turn t >>= λ e. elim e [ stop reason t' ↦ done (reason, t') | next t' ↦ turns left t' ]

  unfoldable pub report : String × Tally → Run SolveReport
  unfolding goal total_cost
  report e = read (goal root_goal_id) >>= λ root. λ w. (
    ok (record {
      root_proved = is_proved root.status;
      stopped_reason = e.0;
      iterations = e.1.iterations;
      spent = total_cost w.store;
      attempts = e.1.attempts;
      decompositions_accepted = e.1.decomposed.accepted;
      decompositions_rejected = e.1.decomposed.rejected;
      cycles_refused = e.1.decomposed.cycles;
    }),
    w,
  )

  unfoldable pub solve : ℕ → Run SolveReport
  unfolding recover reachable_from turns report
  solve max_iterations = recover o c >>= λ _. read (reachable_from root_goal_id) >>= λ scope.
      turns max_iterations (record {
        scope = scope;
        iterations = 0;
        attempts = 0;
        decomposed = no_outcome;
        consecutive_infra = 0;
      })
      >>= λ e. report e
