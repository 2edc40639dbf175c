-- ===== src/Proof/Controller/Turns.antt =====
-- The steps of `solve` of controller.py, in a current store.
use evo_harness_preview.Prelude.{
  ℕ, zero, suc, ◌-◌, ◌&&◌, String, subst, not, inl, inr, Option, none, some, List, [], ◌∷◌, ◌++◌,
  arith, is_empty, filter_where, ltb, leb, length, if◌then◌else◌, ◌==◌, Bool-cases, Option-cases,
}
use evo_harness_preview.Proof.Graph.{Goal, is_no_verdict, is_proof, is_proved}
use evo_harness_preview.Proof.Solver.{AttemptResult}
use evo_harness_preview.Proof.Store.State.{
  Store, Result-cases, ok, total_cost, goal, decompositions_of,
}
use evo_harness_preview.Proof.Store.Write.Attempts.{record_attempt_lem}
use evo_harness_preview.Proof.Store.Shape.{reachable_from}
use evo_harness_preview.Proof.Store.Leases.{claim}
use evo_harness_preview.Proof.Store.Propagate.Correct.{IsCurrent}
use evo_harness_preview.Proof.Store.Current.Rows.{claim-IsCurrent, release-IsCurrent}
use evo_harness_preview.Proof.Store.Current.Pending.{
  IsPending-of_current, propagate-IsCurrent, tried-IsPending,
}
use evo_harness_preview.Proof.Controller.{
  Outside, Settings, Run, ◌>>=◌, done, read, add_outcome, claim_first, maybe_decompose,
  actionable_goals,
}
use evo_harness_preview.Proof.Controller.Loop.{
  Tally, Turn, stop, next, decompose_turn, attack_goal, attack_turn, no_verdict_turn, work, leased,
  turn, turns,
}
use evo_harness_preview.Proof.Controller.Rulings.{Answers, record_decomposition-IsCurrent}
use evo_harness_preview.Proof.Controller.RecoverStays.{Stays, Stays-bind}

module _ (o : Outside) (c : Settings) where
  abbrev limit : ℕ
  limit = c.max_capability_attempts

  pub claim_first-Stays :
      (fuel : ℕ) (candidates : List Goal) → Stays limit (claim_first o c fuel candidates)
  unfolding claim_first
  claim_first-Stays zero candidates w h = elim (Bool-cases (is_empty candidates)) [
    | inl e ↦ rw e h
    | inr ne ↦ rw ne h
  ]
  claim_first-Stays (suc fuel) candidates w h = elim (Bool-cases (is_empty candidates)) [
    | inl e ↦ rw e h
    | inr ne ↦ elim (Option-cases (o.select candidates)) [
      | inl nobody ↦ subst (IsCurrent limit) (ground arith) h
      | inr (choice, picked) ↦
          let run = claim choice.id c.owner c.lease_ttl_s (o.clock w.moment) w.store in
          let h₁ =
            claim-IsCurrent limit w.store h choice.id c.owner c.lease_ttl_s (o.clock w.moment) in
          elim (Bool-cases run.0) [
            | inl won ↦ subst (IsCurrent limit) (ground arith) h₁
            | inr lost ↦ subst (IsCurrent limit) (ground arith) (
                claim_first-Stays fuel (filter_where (λ g. not (g.id == choice.id)) candidates)
                  (record { store = run.1; moment = suc w.moment }) h₁)
          ]
    ]
  ]

  module _ (root budget : ℕ) (answers : Answers o) where
    pub maybe_decompose-Stays : (g : Goal) → Stays limit (maybe_decompose o c g)
    unfolding maybe_decompose
    maybe_decompose-Stays g w h = elim (Option-cases (o.propose w.moment g)) [
      | inl nothing ↦ subst (IsCurrent limit) (ground arith) h
      | inr (k, sketched) ↦ subst (IsCurrent limit) (ground arith) (
          record_decomposition-IsCurrent o c answers g k
            (record { store = w.store; moment = suc w.moment }) h)
    ]

    pub decompose_turn-Stays :
        (g : Goal) (t : Tally) → Stays limit (decompose_turn o c root budget g t)
    unfolding decompose_turn
    decompose_turn-Stays g t =
        Stays-bind limit (maybe_decompose o c g)
          (λ counted. read (reachable_from root) >>= λ scope.
            done (record t { scope = scope; decomposed = add_outcome t.decomposed counted }))
          (maybe_decompose-Stays g)
          (λ counted w h. elim (Result-cases (reachable_from root w.store)) [
            | inl (e, raised) ↦ subst (IsCurrent limit) (ground arith) h
            | inr (scope, ended) ↦ subst (IsCurrent limit) (ground arith) h
          ])

    pub attack_goal-Stays :
        (g : Goal) (spent : ℕ) → Stays limit (attack_goal o c root budget g spent)
    unfolding attack_goal
    attack_goal-Stays g spent w h =
        let r = o.attack w.moment g (budget - spent) in
        elim (record_attempt_lem (o.draw (suc w.moment) 0) g.id r.outcome r.proof_text r.run_dir
          r.evidence_ref r.cost r.note (o.clock (suc w.moment)) w.store) [
            | inl raised ↦ subst (IsCurrent limit) (ground arith) h
            | inr (a, added, owner, _, _, row) ↦
                let p =
                  tried-IsPending limit g.id w.store (IsPending-of_current limit g.id w.store h row)
                    a owner in
                let s₁ : Store = record w.store { attempts = w.store.attempts ++ a ∷ [] } in
                let (s₂, ends, f) = propagate-IsCurrent limit g.id s₁ p (total_cost s₁) o.level in
                subst (IsCurrent limit) (ground arith) f.current
          ]

    abbrev pub after_attack : Goal → ℕ → Tally → AttemptResult → Run Turn
    after_attack g spent t r =
        let t₁ = record t { attempts = suc t.attempts } in
        let t₂ = record t₁ { consecutive_infra = 0 } in
        if is_no_verdict r.outcome
        then done (no_verdict_turn o c root budget r.outcome t₁)
        else if is_proof r.outcome
        then done (next t₂)
        else decompose_turn o c root budget g t₂ >>= λ t₃. done (next t₃)

    attack_turn-Stays :
        (g : Goal) (spent : ℕ) (t : Tally) → Stays limit (attack_turn o c root budget g spent t)
    unfolding attack_turn
    attack_turn-Stays g spent t =
        Stays-bind limit (attack_goal o c root budget g spent) (after_attack g spent t)
          (attack_goal-Stays g spent)
          (λ r w h.
            let t₂ : Tally = record t { attempts = suc t.attempts; consecutive_infra = 0 } in
            elim (Bool-cases (is_no_verdict r.outcome)) [
              | inl silent ↦ subst (IsCurrent limit) (ground arith) h
              | inr said ↦ elim (Bool-cases (is_proof r.outcome)) [
                | inl proof ↦ subst (IsCurrent limit) (ground arith) h
                | inr tried ↦ subst (IsCurrent limit) (ground arith) (
                    Stays-bind limit (decompose_turn o c root budget g t₂)
                      (λ t₃ v. (ok (next t₃), v)) (decompose_turn-Stays g t₂) (λ t₃ v k. k) w h)
              ]
            ])

    work-Stays : (g : Goal) (spent : ℕ) (t : Tally) → Stays limit (work o c root budget g spent t)
    unfolding work
    work-Stays g spent t w h =
        elim (Bool-cases
          (c.decompose_root_first && (g.id == root) && is_empty (decompositions_of g.id w.store))) [
            | inr direct ↦ rw direct (attack_turn-Stays g spent t w h)
            | inl first ↦ rw first (
                Stays-bind limit (decompose_turn o c root budget g t)
                  (λ t₁.
                    if ltb t.decomposed.accepted t₁.decomposed.accepted
                    then (λ v. (ok (next t₁), v))
                    else attack_turn o c root budget g spent t₁)
                  (decompose_turn-Stays g t)
                  (λ t₁ v k. elim (Bool-cases (ltb t.decomposed.accepted t₁.decomposed.accepted)) [
                    | inl more ↦ rw more k
                    | inr same ↦ rw same (attack_turn-Stays g spent t₁ v k)
                  ])
                  w h)
          ]

    leased-Stays :
        (g : Goal) (body : Run Turn)
        → Stays limit body
        → Stays limit (leased o c root budget g body)
    unfolding leased
    leased-Stays g body hb w h = release-IsCurrent limit (body w).1.store (hb w h) g.id c.owner

    pub turn-Stays : (t : Tally) → Stays limit (turn o c root budget t)
    unfolding turn
    turn-Stays t w h = elim (Result-cases (goal root w.store)) [
      | inl (e, missing) ↦ subst (IsCurrent limit) (ground arith) h
      | inr (r, row) ↦ elim (Bool-cases (is_proved r.status)) [
        | inl proved ↦ subst (IsCurrent limit) (ground arith) h
        | inr unproved ↦ elim (Bool-cases (leb budget (total_cost w.store))) [
          | inl broke ↦ subst (IsCurrent limit) (ground arith) h
          | inr funded ↦
              let candidates = actionable_goals (some t.scope) w.store in
              elim (Bool-cases (is_empty candidates)) [
                | inl idle ↦ subst (IsCurrent limit) (ground arith) h
                | inr busy ↦ subst (IsCurrent limit) (ground arith) (
                    Stays-bind limit (claim_first o c (length candidates) candidates)
                      (λ found. elim found [
                        | none ↦ (λ v. (ok (stop "goal_leased_elsewhere" t), v))
                        | some g ↦ leased o c root budget g (
                            work o c root budget g (total_cost w.store)
                              (record t { iterations = suc t.iterations }))
                      ])
                      (claim_first-Stays (length candidates) candidates)
                      (λ found. chosen found t (total_cost w.store)) w h)
              ]
        ]
      ]
    ]
      where
        chosen :
            (found : Option Goal) (t : Tally) (spent : ℕ)
            → Stays limit (elim found [
              | none ↦ (λ v. (ok (stop "goal_leased_elsewhere" t), v))
              | some g ↦
                  leased o c root budget g
                    (work o c root budget g spent (record t { iterations = suc t.iterations }))
            ])
        chosen none t spent v k = k
        chosen (some g) t spent v k =
            leased-Stays g
              (work o c root budget g spent (record t { iterations = suc t.iterations }))
              (work-Stays g spent (record t { iterations = suc t.iterations })) v k

    abbrev pub go_on : ℕ → Turn → Run (String × Tally)
    go_on left (stop reason t') = done (reason, t')
    go_on left (next t') = turns o c root budget left t'

    go_on-Stays :
        (left : ℕ)
        → ((t : Tally) → Stays limit (turns o c root budget left t))
        → (e : Turn) → Stays limit (go_on left e)
    go_on-Stays left later (stop reason t') w h = h
    go_on-Stays left later (next t') w h = later t' w h

    pub turns-Stays : (left : ℕ) (t : Tally) → Stays limit (turns o c root budget left t)
    unfolding turns
    turns-Stays zero t = λ w h. h
    turns-Stays (suc left) t =
        Stays-bind limit (turn o c root budget t) (go_on left) (turn-Stays t)
          (go_on-Stays left (turns-Stays left))
