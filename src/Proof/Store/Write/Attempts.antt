-- ===== src/Proof/Store/Write/Attempts.antt =====
-- What `record_attempt` of store.py writes.
use evo_harness_preview.Prelude.{
  ℕ, String, ◌≡◌, refl, ◌⊎◌, inl, inr, Option, [], ◌∷◌, ◌++◌, arith, find_key, Option-cases,
}
use evo_harness_preview.Proof.Graph.{Attempt, Outcome}
use evo_harness_preview.Proof.Store.State.{Store, integrity_error, ok, err, goal_key}
use evo_harness_preview.Proof.Store.Schema.{HasGoal}
use evo_harness_preview.Proof.Store.Write.{record_attempt}

-- `record_attempt` raises IntegrityError and leaves the store as it was, or the goal is there and one
-- attempt of it with the given outcome and cost is added behind the others.
pub record_attempt_lem :
    (new_id goal_id : ℕ) (outcome : Outcome) (proof_text run_dir evidence_ref : Option String)
    (cost : ℕ) (note : String) (now : ℕ) (s : Store)
    → (record_attempt new_id goal_id outcome proof_text run_dir evidence_ref cost note now s
        ≡ (err integrity_error, s))
      ⊎ ((a : Attempt) × (record_attempt new_id goal_id outcome proof_text run_dir evidence_ref cost
              note now s
            ≡ (ok a, record s { attempts = s.attempts ++ a ∷ [] }))
          × (a.goal_id ≡ goal_id)
          × (a.outcome ≡ outcome)
          × (a.cost ≡ cost)
          × HasGoal s.goals goal_id)
unfolding record_attempt
record_attempt_lem new_id goal_id outcome proof_text run_dir evidence_ref cost note now s =
    elim (Option-cases (find_key (λ (b : Attempt). b.id) new_id s.attempts)) [
      | inr (b, taken) ↦ inl (ground arith)
      | inl new ↦ elim (Option-cases (find_key goal_key goal_id s.goals)) [
        | inl missing ↦ inl (ground arith)
        | inr (g, row) ↦ inr (
          record {
            id = new_id;
            goal_id = goal_id;
            outcome = outcome;
            proof_text = proof_text;
            run_dir = run_dir;
            evidence_ref = evidence_ref;
            cost = cost;
            note = note;
            created_at = now;
          },
          ground arith,
          refl,
          refl,
          refl,
          (g, row),
        )
      ]
    ]
