-- ===== src/Proof/Controller/Counts.antt =====
-- What `solve` of controller.py counts.
use evo_harness_preview.Prelude.{
  ℕ, zero, suc, ◌+◌, ◌&&◌, ◌≤◌, ◌≡◌, inl, inr, some, arith, is_empty, ltb, leb, length, ◌==◌,
  Bool-cases, Option-cases,
}
use evo_harness_preview.Proof.Graph.{Goal, Outcome, is_no_verdict, is_proof, is_proved}
use evo_harness_preview.Proof.Store.State.{Result-cases, ok, total_cost, goal, decompositions_of}
use evo_harness_preview.Proof.Store.Shape.{reachable_from}
use evo_harness_preview.Proof.Controller.{
  Outside, Settings, World, Run, ◌>>=◌, done, read, no_outcome, add_outcome, recover, claim_first,
  maybe_decompose, actionable_goals,
}
use evo_harness_preview.Proof.Controller.Loop.{
  Tally, Turn, SolveReport, stop, next, decompose_turn, attack_goal, attack_turn, no_verdict_turn,
  work, leased, turn, turns, report, solve,
}

-- What a run returns, when it returns, fits `P`.
abbrev Gives {ℓ κ} : {A : Type ℓ} → Run A → (A → Type κ) → Type (ℓ ⊔ κ)
Gives {A = A} m P = (w : World) (a : A) → (m w).0 ≡ ok a → P a

Gives-bind {ℓ κ μ ν} :
    {A : Type ℓ} {B : Type κ} (m : Run A) (f : A → Run B) (Q : A → Type μ) (P : B → Type ν)
    → Gives m Q
    → ((a : A) → Q a → Gives (f a) P)
    → Gives (m >>= f) P
Gives-bind m f Q P hm hf w b e = elim (Result-cases (m w).0) [
  | inl (x, raised) ↦ absurd (ground arith)
  | inr (a, ended) ↦ hf a (hm w a ended) (m w).1 b (ground arith)
]

abbrev tally_of : Turn → Tally
tally_of (stop reason t) = t
tally_of (next t) = t

module _ (o : Outside) (c : Settings) (root budget : ℕ) where
  decompose_turn-Gives :
      (g : Goal) (t : Tally)
      → Gives
          (decompose_turn o c root budget g t)
          (λ t'. (t'.iterations ≡ t.iterations) × (t'.attempts ≡ t.attempts))
  unfolding decompose_turn
  decompose_turn-Gives g t =
      Gives-bind (maybe_decompose o c g)
        (λ counted. read (reachable_from root) >>= λ scope.
          done (record t { scope = scope; decomposed = add_outcome t.decomposed counted }))
        (λ counted. Unit {0}) (λ t'. (t'.iterations ≡ t.iterations) × (t'.attempts ≡ t.attempts))
        (λ w a e. tt)
        (λ counted q w t' e. elim (Result-cases (reachable_from root w.store)) [
          | inl (x, raised) ↦ absurd (ground arith)
          | inr (scope, walked) ↦ ground arith
        ])

  no_verdict_turn-Gives :
      (outcome : Outcome) (t : Tally)
      → ((tally_of (no_verdict_turn o c root budget outcome t)).iterations ≡ t.iterations)
        × ((tally_of (no_verdict_turn o c root budget outcome t)).attempts ≡ t.attempts)
  no_verdict_turn-Gives outcome t = ground arith

  attack_turn-Gives :
      (g : Goal) (spent : ℕ) (t : Tally)
      → Gives
          (attack_turn o c root budget g spent t)
          (λ e. ((tally_of e).iterations ≡ t.iterations) × ((tally_of e).attempts ≡ suc t.attempts))
  unfolding attack_turn
  attack_turn-Gives g spent t w y e =
      elim (Result-cases (attack_goal o c root budget g spent w).0) [
        | inl (x, raised) ↦ absurd (ground arith)
        | inr (r, attacked) ↦ elim (Bool-cases (is_no_verdict r.outcome)) [
          | inl silent ↦
              ground
                (arith, no_verdict_turn-Gives r.outcome (record t { attempts = suc t.attempts }))
          | inr said ↦ elim (Bool-cases (is_proof r.outcome)) [
            | inl proof ↦ ground arith
            | inr tried ↦
                let t₂ : Tally = record t { attempts = suc t.attempts; consecutive_infra = 0 } in
                let w₁ = (attack_goal o c root budget g spent w).1 in
                elim (Result-cases (decompose_turn o c root budget g t₂ w₁).0) [
                  | inl (x, raised) ↦ absurd (ground arith)
                  | inr (t₃, decomposed) ↦
                      ground (arith, decompose_turn-Gives g t₂ w₁ t₃ decomposed)
                ]
          ]
        ]
      ]

  work-Gives :
      (g : Goal) (spent : ℕ) (t : Tally)
      → Gives
          (work o c root budget g spent t)
          (λ e. ((tally_of e).iterations ≡ t.iterations) × ((tally_of e).attempts ≤ suc t.attempts))
  unfolding work
  work-Gives g spent t w y e =
      elim (Bool-cases
        (c.decompose_root_first && (g.id == root) && is_empty (decompositions_of g.id w.store))) [
          | inr direct ↦ ground (arith, attack_turn-Gives g spent t w y (rw direct at e))
          | inl first ↦ elim (Result-cases (decompose_turn o c root budget g t w).0) [
            | inl (x, raised) ↦ absurd (ground arith)
            | inr (t₁, decomposed) ↦
                elim (Bool-cases (ltb t.decomposed.accepted t₁.decomposed.accepted)) [
                  | inl more ↦ ground (arith, decompose_turn-Gives g t w t₁ decomposed)
                  | inr same ↦ ground (
                    arith,
                    decompose_turn-Gives g t w t₁ decomposed,
                    attack_turn-Gives g spent t₁ (decompose_turn o c root budget g t w).1 y,
                  )
                ]
          ]
        ]

  turn-Gives :
      (t : Tally)
      → Gives (turn o c root budget t) (λ e.
        ((tally_of e).iterations ≤ suc t.iterations)
        × (t.attempts ≤ t.iterations → (tally_of e).attempts ≤ (tally_of e).iterations))
  unfolding turn leased
  turn-Gives t w y e = elim (Result-cases (goal root w.store)) [
    | inl (x, missing) ↦ absurd (ground arith)
    | inr (r, row) ↦ elim (Bool-cases (is_proved r.status)) [
      | inl proved ↦ ground arith
      | inr unproved ↦ elim (Bool-cases (leb budget (total_cost w.store))) [
        | inl broke ↦ ground arith
        | inr funded ↦
            let candidates = actionable_goals (some t.scope) w.store in
            elim (Bool-cases (is_empty candidates)) [
              | inl idle ↦ ground arith
              | inr busy ↦
                  elim (Result-cases (claim_first o c (length candidates) candidates w).0) [
                    | inl (x, raised) ↦ absurd (ground arith)
                    | inr (found, claimed) ↦ elim (Option-cases found) [
                      | inl nobody ↦ ground arith
                      | inr (g, taken) ↦ ground (
                        arith,
                        work-Gives g (total_cost w.store)
                            (record t { iterations = suc t.iterations })
                            (claim_first o c (length candidates) candidates w).1 y (ground arith),
                      )
                    ]
                  ]
            ]
      ]
    ]
  ]

  turns-Gives :
      (left : ℕ) (t : Tally)
      → Gives (turns o c root budget left t) (λ e.
        (e.1.iterations ≤ t.iterations + left)
        × (t.attempts ≤ t.iterations → e.1.attempts ≤ e.1.iterations))
  unfolding turns
  turns-Gives zero t w y e = ground arith
  turns-Gives (suc left) t w y e = elim (Result-cases (turn o c root budget t w).0) [
    | inl (x, raised) ↦ absurd (ground arith)
    | inr (stop reason t', ended) ↦ ground (arith, turn-Gives t w (stop reason t') ended)
    | inr (next t', ended) ↦
        ground (
          arith,
          turn-Gives t w (next t') ended,
          turns-Gives left t' (turn o c root budget t w).1 y,
        )
  ]

  -- A report counts no more iterations than were allowed, and no more attempts than iterations.
  pub solve_bounded :
      (max_iterations : ℕ) (w : World) (r : SolveReport)
      → (solve o c root budget max_iterations w).0 ≡ ok r
      → (r.iterations ≤ max_iterations) × (r.attempts ≤ r.iterations)
  unfolding solve report
  solve_bounded max_iterations w r e = elim (Result-cases (recover o c w).0) [
    | inl (x, raised) ↦ absurd (ground arith)
    | inr (ids, recovered) ↦
        let w₁ = (recover o c w).1 in
        elim (Result-cases (reachable_from root w₁.store)) [
          | inl (x, raised) ↦ absurd (ground arith)
          | inr (scope, walked) ↦
              let t : Tally = record {
                scope = scope;
                iterations = 0;
                attempts = 0;
                decomposed = no_outcome;
                consecutive_infra = 0;
              } in
              elim (Result-cases (turns o c root budget max_iterations t w₁).0) [
                | inl (x, raised) ↦ absurd (ground arith)
                | inr (y, ended) ↦
                    elim (Result-cases
                      (goal root (turns o c root budget max_iterations t w₁).1.store)) [
                        | inl (x, raised) ↦ absurd (ground arith)
                        | inr (g, row) ↦ ground (arith, turns-Gives max_iterations t w₁ y ended)
                      ]
              ]
        ]
  ]
