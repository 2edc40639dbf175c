-- ===== src/Proof/Controller/Ends.antt =====
-- Loops that stop short, in `solve` of controller.py and in what it calls.
use mathlib.Core.List.Memᴰ
use evo_harness_preview.Prelude.{
  ℕ, zero, suc, ◌-◌, ◌&&◌, ◌≡◌, ◌≢◌, refl, sym, subst, inl, inr, some, List, [], ◌∷◌, ◌++◌, arith,
  Memᴰ, is_empty, ltb, leb, length, if◌then◌else◌, ◌==◌, Bool-cases, Option-cases, find_key,
}
use evo_harness_preview.Proof.Graph.{Goal, proposed, is_no_verdict, is_proof, is_proved}
use evo_harness_preview.Proof.Store.State.{
  Store, Result-cases, ok, err, out_of_fuel, total_cost, goal, goal_key, decompositions_of,
}
use evo_harness_preview.Proof.Store.Write.Attempts.{record_attempt_lem}
use evo_harness_preview.Proof.Store.Shape.{reachable_from, add_decomposition}
use evo_harness_preview.Proof.Store.Shape.Walks.{reachable_from_lem}
use evo_harness_preview.Proof.Store.Shape.Rows.{add_decomposition-Added}
use evo_harness_preview.Proof.Store.Shape.Faults.{add_decomposition-ne}
use evo_harness_preview.Proof.Store.Leases.{stale_leases}
use evo_harness_preview.Proof.Store.Propagate.Correct.{IsCurrent}
use evo_harness_preview.Proof.Store.Current.Pending.{
  IsPending-of_current, propagate-IsCurrent, tried-IsPending, add_decomposition-IsPending,
}
use evo_harness_preview.Proof.Controller.{
  Outside, Settings, World, ◌>>=◌, done, read, no_outcome, add_outcome, recover_each, recover,
  maybe_decompose, record_decomposition, subgoals_of, actionable_goals,
}
use evo_harness_preview.Proof.Controller.Loop.{
  Tally, Turn, stop, next, decompose_turn, attack_goal, attack_turn, work, leased, turn, turns,
  report, solve,
}
use evo_harness_preview.Proof.Controller.Rulings.{
  Answers, rule_on_lem, revalidate_proposed-IsCurrent,
}
use evo_harness_preview.Proof.Controller.Claims.{claim_first_ends}
use evo_harness_preview.Proof.Controller.RecoverStays.{recover_each-Stays}
use evo_harness_preview.Proof.Controller.Turns.{
  claim_first-Stays, maybe_decompose-Stays, decompose_turn-Stays, attack_goal-Stays, after_attack,
  go_on, turn-Stays,
}
use evo_harness_preview.Proof.Controller.Solve.{HasSketches}
use evo_harness_preview.Proof.Controller.RecoverEnds.{Ends, Ends-bind, recover_each-Ends}

module _ (o : Outside) (c : Settings) where
  abbrev limit : ℕ
  limit = c.max_capability_attempts

  module _ (root budget : ℕ) (answers : Answers o)
      (picks : (l : List Goal) (g : Goal) → o.select l ≡ some g → Memᴰ g l) where
    maybe_decompose-Ends : (g : Goal) → Ends limit (maybe_decompose o c g)
    unfolding maybe_decompose record_decomposition
    maybe_decompose-Ends g w h e = elim (Option-cases (o.propose w.moment g)) [
      | inl nothing ↦ absurd (ground arith)
      | inr (k, sketched) ↦
          let run =
            add_decomposition (o.draw (suc w.moment)) g.id (subgoals_of o c k) (some k) proposed
              w.store in
          elim (Result-cases run.0) [
            | inl (x, raised) ↦
                add_decomposition-ne (o.draw (suc w.moment)) g.id (subgoals_of o c k) (some k)
                  proposed w.store h.schema (ground arith)
            | inr (d, added) ↦
                let whole : run ≡ (ok d, run.1) = ground arith in
                let a =
                  add_decomposition-Added (o.draw (suc w.moment)) g.id (some k) proposed w.store
                    (subgoals_of o c k) d run.1 h.schema whole in
                let p =
                  add_decomposition-IsPending limit (o.draw (suc w.moment)) g.id (subgoals_of o c k)
                    (some k) w.store run.1 d h whole in
                let (verdict, said) = answers (suc (suc w.moment)) g k in
                let (w', ends, f) =
                  rule_on_lem o c d g.id verdict
                    (record { store = run.1; moment = suc (suc w.moment) }) p
                    (subst (Memᴰ d) (sym a.rows)
                      (Memᴰ.append_right w.store.decompositions (Memᴰ.head refl)))
                    a.owner a.status_row in
                absurd (ground arith)
          ]
    ]

    decompose_turn-Ends : (g : Goal) (t : Tally) → Ends limit (decompose_turn o c root budget g t)
    unfolding decompose_turn
    decompose_turn-Ends g t =
        Ends-bind limit (maybe_decompose o c g)
          (λ counted. read (reachable_from root) >>= λ scope.
            done (record t { scope = scope; decomposed = add_outcome t.decomposed counted }))
          (maybe_decompose-Stays o c root budget answers g) (maybe_decompose-Ends g)
          (λ counted w h e.
            let (seen, walked, _) = reachable_from_lem w.store h.schema root in
            absurd (ground arith))

    attack_goal-Ends : (g : Goal) (spent : ℕ) → Ends limit (attack_goal o c root budget g spent)
    unfolding attack_goal
    attack_goal-Ends g spent w h e =
        let r = o.attack w.moment g (budget - spent) in
        elim (record_attempt_lem (o.draw (suc w.moment) 0) g.id r.outcome r.proof_text r.run_dir
          r.evidence_ref r.cost r.note (o.clock (suc w.moment)) w.store) [
            | inl raised ↦ absurd (ground arith)
            | inr (a, added, owner, _, _, row) ↦
                let p =
                  tried-IsPending limit g.id w.store (IsPending-of_current limit g.id w.store h row)
                    a owner in
                let s₁ : Store = record w.store { attempts = w.store.attempts ++ a ∷ [] } in
                let (s₂, ends, f) = propagate-IsCurrent limit g.id s₁ p (total_cost s₁) o.level in
                absurd (ground arith)
          ]

    attack_turn-Ends :
        (g : Goal) (spent : ℕ) (t : Tally) → Ends limit (attack_turn o c root budget g spent t)
    unfolding attack_turn
    attack_turn-Ends g spent t =
        Ends-bind limit (attack_goal o c root budget g spent)
          (after_attack o c root budget answers g spent t)
          (attack_goal-Stays o c root budget answers g spent) (attack_goal-Ends g spent)
          (λ r w h e.
            let t₂ : Tally = record t { attempts = suc t.attempts; consecutive_infra = 0 } in
            elim (Bool-cases (is_no_verdict r.outcome)) [
              | inl silent ↦ absurd (ground arith)
              | inr said ↦ elim (Bool-cases (is_proof r.outcome)) [
                | inl proof ↦ absurd (ground arith)
                | inr tried ↦
                    Ends-bind limit (decompose_turn o c root budget g t₂)
                      (λ t₃ v. (ok (next t₃), v))
                      (decompose_turn-Stays o c root budget answers g t₂) (decompose_turn-Ends g t₂)
                      (λ t₃ v k x. absurd (ground arith)) w h (ground arith)
              ]
            ])

    work-Ends : (g : Goal) (spent : ℕ) (t : Tally) → Ends limit (work o c root budget g spent t)
    unfolding work
    work-Ends g spent t w h e =
        elim (Bool-cases
          (c.decompose_root_first && (g.id == root) && is_empty (decompositions_of g.id w.store))) [
            | inr direct ↦ attack_turn-Ends g spent t w h (ground arith)
            | inl first ↦
                Ends-bind limit (decompose_turn o c root budget g t)
                  (λ t₁.
                    if ltb t.decomposed.accepted t₁.decomposed.accepted
                    then (λ v. (ok (next t₁), v))
                    else attack_turn o c root budget g spent t₁)
                  (decompose_turn-Stays o c root budget answers g t) (decompose_turn-Ends g t)
                  (λ t₁ v k x.
                    elim (Bool-cases (ltb t.decomposed.accepted t₁.decomposed.accepted)) [
                      | inl more ↦ absurd (ground arith)
                      | inr same ↦ attack_turn-Ends g spent t₁ v k (rw same at x)
                    ])
                  w h (rw first at e)
          ]

    turn-Ends : (t : Tally) → Ends limit (turn o c root budget t)
    unfolding turn leased goal
    turn-Ends t w h e = elim (Option-cases (find_key goal_key root w.store.goals)) [
      | inl missing ↦ absurd (ground arith)
      | inr (r, row) ↦ elim (Bool-cases (is_proved r.status)) [
        | inl proved ↦ absurd (ground arith)
        | inr unproved ↦ elim (Bool-cases (leb budget (total_cost w.store))) [
          | inl broke ↦ absurd (ground arith)
          | inr funded ↦
              let candidates = actionable_goals (some t.scope) w.store in
              elim (Bool-cases (is_empty candidates)) [
                | inl idle ↦ absurd (ground arith)
                | inr busy ↦
                    let (found, w₁, claimed, why) =
                      claim_first_ends o c picks (length candidates) candidates w (omega arith)
                        h.schema in
                    elim (Option-cases found) [
                      | inl nobody ↦ absurd (ground arith)
                      | inr (g, taken) ↦
                          let stays = claim_first-Stays o c (length candidates) candidates w h in
                          work-Ends g (total_cost w.store)
                            (record t { iterations = suc t.iterations }) w₁
                            (subst (IsCurrent limit) (ground arith) stays) (ground arith)
                    ]
              ]
        ]
      ]
    ]

    go_on-Ends :
        (left : ℕ)
        → ((t : Tally) → Ends limit (turns o c root budget left t))
        → (e : Turn) → Ends limit (go_on o c root budget answers left e)
    go_on-Ends left later (stop reason t') w h e = absurd (ground arith)
    go_on-Ends left later (next t') w h e = later t' w h e

    turns-Ends : (left : ℕ) (t : Tally) → Ends limit (turns o c root budget left t)
    unfolding turns
    turns-Ends zero t = λ w h e. absurd (ground arith)
    turns-Ends (suc left) t =
        Ends-bind limit (turn o c root budget t) (go_on o c root budget answers left)
          (turn-Stays o c root budget answers t) (turn-Ends t) (go_on-Ends left (turns-Ends left))

    -- If the validator answers, `select` picks one of the goals that it is given, every route that
    -- waits for a verdict has its sketch, and the store is current, then no loop of `solve` and of
    -- what it calls stops short: the fuel is always enough, and what `solve` may raise is an error of
    -- the code.
    pub solve_ends :
        (max_iterations : ℕ) (w : World)
        → HasSketches w.store
        → IsCurrent c.max_capability_attempts w.store
        → (solve o c root budget max_iterations w).0 ≢ err out_of_fuel
    unfolding solve recover report goal
    solve_ends max_iterations w kept h e =
        let (all, w₁, ends, h₁) = revalidate_proposed-IsCurrent o c answers w kept h in
        let w₂ : World = record { store = w₁.store; moment = suc w₁.moment } in
        let gs = stale_leases (o.clock w₁.moment) w₁.store in
        elim (Result-cases (recover_each o c gs w₂).0) [
          | inl (x, raised) ↦ recover_each-Ends o c gs w₂ h₁ (ground arith)
          | inr (ids, recovered) ↦
              let w₃ = (recover_each o c gs w₂).1 in
              let h₃ = recover_each-Stays o c gs w₂ h₁ in
              let (scope, walked, _) = reachable_from_lem w₃.store h₃.schema root in
              let t : Tally = record {
                scope = scope;
                iterations = 0;
                attempts = 0;
                decomposed = no_outcome;
                consecutive_infra = 0;
              } in
              elim (Result-cases (turns o c root budget max_iterations t w₃).0) [
                | inl (x, raised) ↦ turns-Ends max_iterations t w₃ h₃ (ground arith)
                | inr (y, ended) ↦
                    elim (Option-cases (
                      find_key goal_key root
                        (turns o c root budget max_iterations t w₃).1.store.goals)) [
                          | inl missing ↦ absurd (ground arith)
                          | inr (r, row) ↦ absurd (ground arith)
                        ]
              ]
        ]
