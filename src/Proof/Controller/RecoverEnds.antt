-- ===== src/Proof/Controller/RecoverEnds.antt =====
-- Runs in which no loop stops short, and `recover` of controller.py among them.
use evo_harness_preview.Prelude.{ℕ, ◌≢◌, inl, inr, List, [], ◌∷◌, ◌++◌, arith, if◌then◌else◌, ◌==◌}
use evo_harness_preview.Proof.Graph.{Goal}
use evo_harness_preview.Proof.Solver.{interrupted}
use evo_harness_preview.Proof.Store.State.{Store, Result-cases, err, out_of_fuel, total_cost}
use evo_harness_preview.Proof.Store.Write.Attempts.{record_attempt_lem}
use evo_harness_preview.Proof.Store.Leases.{force_release, drop_lease}
use evo_harness_preview.Proof.Store.Propagate.Correct.{IsCurrent}
use evo_harness_preview.Proof.Store.Current.Pending.{
  IsPending-of_current, propagate-IsCurrent, tried-IsPending, map_goals-IsPending,
}
use evo_harness_preview.Proof.Controller.{
  Outside, Settings, World, Run, ◌>>=◌, done, recover_goal, recover_each, lease_note,
}
use evo_harness_preview.Proof.Controller.RecoverStays.{
  Stays, recover_goal-Stays, recover_each-Stays,
}

-- A run on a current store in which no loop stops short.
abbrev pub Ends {ℓ} : {A : Type ℓ} → ℕ → Run A → Type ℓ
Ends {A = A} limit m = (w : World) → IsCurrent limit w.store → (m w).0 ≢ err out_of_fuel

pub Ends-bind {ℓ κ} :
    {A : Type ℓ} {B : Type κ} (limit : ℕ) (m : Run A) (f : A → Run B)
    → Stays limit m
    → Ends limit m
    → ((a : A) → Ends limit (f a))
    → Ends limit (m >>= f)
Ends-bind limit m f sm hm hf w h e = elim (Result-cases (m w).0) [
  | inl (x, raised) ↦ hm w h (ground arith)
  | inr (a, ended) ↦ hf a (m w).1 (sm w h) (ground arith)
]

module _ (o : Outside) (c : Settings) where
  abbrev limit : ℕ
  limit = c.max_capability_attempts

  recover_goal-Ends : (g : Goal) → Ends limit (recover_goal o c g)
  unfolding recover_goal force_release
  recover_goal-Ends g w h e =
      let r = interrupted g.lease_run_dir (lease_note o c g) in
      elim (record_attempt_lem (o.draw w.moment 0) g.id r.outcome r.proof_text r.run_dir
        r.evidence_ref r.cost r.note (o.clock w.moment) w.store) [
          | inl raised ↦ absurd (ground arith)
          | inr (a, added, owner, _, _, row) ↦
              let p =
                tried-IsPending limit g.id w.store (IsPending-of_current limit g.id w.store h row) a
                  owner in
              let s₁ : Store = record w.store { attempts = w.store.attempts ++ a ∷ [] } in
              let q =
                map_goals-IsPending limit g.id s₁ p (λ x. if x.id == g.id then drop_lease x else x)
                  (λ x. ground arith) (λ x. ground arith) (λ x. ground arith) in
              let (s₂, ends, f) =
                propagate-IsCurrent limit g.id (force_release g.id s₁) q
                  (total_cost (force_release g.id s₁)) o.level in
              absurd (ground arith)
        ]

  pub recover_each-Ends : (gs : List Goal) → Ends limit (recover_each o c gs)
  unfolding recover_each
  recover_each-Ends [] = λ w h e. absurd (ground arith)
  recover_each-Ends (g ∷ gs) =
      Ends-bind limit (recover_goal o c g) (λ i. recover_each o c gs >>= λ rest. done (i ∷ rest))
        (recover_goal-Stays o c g) (recover_goal-Ends g)
        (λ i.
          Ends-bind limit (recover_each o c gs) (λ rest. done (i ∷ rest))
            (recover_each-Stays o c gs) (recover_each-Ends gs)
            (λ rest w h e. absurd (ground arith)))
