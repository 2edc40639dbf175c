-- ===== src/Proof/Controller/Solve.antt =====
-- `solve` of controller.py as a whole.
use evo_harness_preview.Prelude.{
  ℕ, suc, String, ◌≡◌, ◌↔◌, sym, subst, true, inl, inr, some, Memᴰ, arith, find_key, Option-cases,
}
use evo_harness_preview.Proof.Graph.{Decomposition, proposed}
use evo_harness_preview.Proof.Store.State.{
  Store, Sketch, Error, Result, Result-cases, ok, err, sketch_key, goal_key, goal,
}
use evo_harness_preview.Proof.Store.Proves.{Proves}
use evo_harness_preview.Proof.Store.Shape.{reachable_from}
use evo_harness_preview.Proof.Store.Leases.{stale_leases}
use evo_harness_preview.Proof.Store.Propagate.Correct.{IsCurrent, proved_iff}
use evo_harness_preview.Proof.Controller.{Outside, Settings, World, no_outcome, recover}
use evo_harness_preview.Proof.Controller.Loop.{Tally, SolveReport, turns, report, solve}
use evo_harness_preview.Proof.Controller.Rulings.{Answers, revalidate_proposed-IsCurrent}
use evo_harness_preview.Proof.Controller.RecoverStays.{recover_each-Stays}
use evo_harness_preview.Proof.Controller.Turns.{turns-Stays}

-- Every route that waits for a verdict was recorded with its sketch.
abbrev pub HasSketches : Store → Type 0
HasSketches s =
    (d : Decomposition)
    → Memᴰ d s.decompositions
    → d.status ≡ proposed
    → (k : Sketch) × (find_key sketch_key d.id s.sketches ≡ some (d.id, k))

-- What a call of `solve` comes to: its store is current, and a report says of the root what the
-- graph proves.
pub record Solved (limit root : ℕ) (run : Result SolveReport × World) : Type 0 where
  pub current : IsCurrent limit run.1.store
  exact : (r : SolveReport) → run.0 ≡ ok r → (r.root_proved ≡ true) ↔ Proves run.1.store root

module _ (o : Outside) (c : Settings) (root budget : ℕ) (answers : Answers o) where
  report-Solved :
      (e : String × Tally) (w : World)
      → IsCurrent c.max_capability_attempts w.store
      → Solved c.max_capability_attempts root (report o c root budget e w)
  unfolding report goal
  report-Solved e w h = elim (Option-cases (find_key goal_key root w.store.goals)) [
    | inl missing ↦ record {
      current = subst (IsCurrent c.max_capability_attempts) (ground arith) h;
      exact = λ r ended. absurd (ground arith);
    }
    | inr (g, row) ↦
        let same : (report o c root budget e w).1.store ≡ w.store = ground arith in
        let proves = proved_iff c.max_capability_attempts w.store h root in
        record {
          current = subst (IsCurrent c.max_capability_attempts) (sym same) h;
          exact = λ r ended.
              subst (λ s. (r.root_proved ≡ true) ↔ Proves s root) (sym same)
                (ground (arith, proves));
        }
  ]

  recover-IsCurrent :
      (w : World)
      → HasSketches w.store
      → IsCurrent c.max_capability_attempts w.store
      → IsCurrent c.max_capability_attempts (recover o c w).1.store
  unfolding recover
  recover-IsCurrent w kept h =
      let (all, w₁, ends, h₁) = revalidate_proposed-IsCurrent o c answers w kept h in
      let w₂ : World = record { store = w₁.store; moment = suc w₁.moment } in
      subst (IsCurrent c.max_capability_attempts) (ground arith)
        (recover_each-Stays o c (stale_leases (o.clock w₁.moment) w₁.store) w₂ h₁)

  raised-Solved :
      (run : Result SolveReport × World) (e : Error) (w : World)
      → run ≡ (err e, w)
      → IsCurrent c.max_capability_attempts w.store
      → Solved c.max_capability_attempts root run
  raised-Solved run e w raised h = record {
    current = subst (IsCurrent c.max_capability_attempts) (ground arith) h;
    exact = λ r ended. absurd (ground arith);
  }

  -- If the validator answers, every route that waits for a verdict has its sketch, and the store is
  -- current, then `solve` leaves a current store, whether it returns or raises; and a report that it
  -- returns calls the root proved exactly if the root then has a proof in the graph.
  pub solve_correct :
      (max_iterations : ℕ) (w : World)
      → HasSketches w.store
      → IsCurrent c.max_capability_attempts w.store
      → Solved c.max_capability_attempts root (solve o c root budget max_iterations w)
  unfolding solve
  solve_correct max_iterations w kept h =
      let h₁ = recover-IsCurrent w kept h in
      elim (Result-cases (recover o c w).0) [
        | inl (e, raised) ↦
            raised-Solved (solve o c root budget max_iterations w) e (recover o c w).1
              (ground arith) h₁
        | inr (ids, recovered) ↦
            let w₁ = (recover o c w).1 in
            elim (Result-cases (reachable_from root w₁.store)) [
              | inl (e, raised) ↦
                  raised-Solved (solve o c root budget max_iterations w) e w₁ (ground arith) h₁
              | inr (scope, walked) ↦
                  let t : Tally = record {
                    scope = scope;
                    iterations = 0;
                    attempts = 0;
                    decomposed = no_outcome;
                    consecutive_infra = 0;
                  } in
                  let run = turns o c root budget max_iterations t w₁ in
                  let h₂ = turns-Stays o c root budget answers max_iterations t w₁ h₁ in
                  elim (Result-cases run.0) [
                    | inl (e, raised) ↦
                        raised-Solved (solve o c root budget max_iterations w) e run.1
                          (ground arith) h₂
                    | inr (e, ended) ↦
                        subst (Solved c.max_capability_attempts root) (ground arith)
                          (report-Solved e run.1 h₂)
                  ]
            ]
      ]
