-- ===== src/Proof/Controller/RecoverStays.antt =====
-- Runs that leave a current store, and `recover` of controller.py among them.
use evo_harness_preview.Prelude.{
  ℕ, subst, inl, inr, List, [], ◌∷◌, ◌++◌, arith, if◌then◌else◌, ◌==◌,
}
use evo_harness_preview.Proof.Graph.{Goal}
use evo_harness_preview.Proof.Solver.{interrupted}
use evo_harness_preview.Proof.Store.State.{Store, Result-cases, total_cost}
use evo_harness_preview.Proof.Store.Write.Attempts.{record_attempt_lem}
use evo_harness_preview.Proof.Store.Leases.{force_release, drop_lease}
use evo_harness_preview.Proof.Store.Propagate.Correct.{IsCurrent}
use evo_harness_preview.Proof.Store.Current.Pending.{
  IsPending-of_current, propagate-IsCurrent, tried-IsPending, map_goals-IsPending,
}
use evo_harness_preview.Proof.Controller.{
  Outside, Settings, World, Run, ◌>>=◌, done, recover_goal, recover_each, lease_note,
}

-- A run that leaves a current store where it finds one, whether it returns or raises.
abbrev pub Stays {ℓ} : {A : Type ℓ} → ℕ → Run A → Type 0
Stays {A = A} limit m = (w : World) → IsCurrent limit w.store → IsCurrent limit (m w).1.store

pub Stays-bind {ℓ κ} :
    {A : Type ℓ} {B : Type κ} (limit : ℕ) (m : Run A) (f : A → Run B)
    → Stays limit m
    → ((a : A) → Stays limit (f a))
    → Stays limit (m >>= f)
Stays-bind limit m f hm hf w h = elim (Result-cases (m w).0) [
  | inl (e, raised) ↦ subst (IsCurrent limit) (ground arith) (hm w h)
  | inr (a, ended) ↦ subst (IsCurrent limit) (ground arith) (hf a (m w).1 (hm w h))
]

module _ (o : Outside) (c : Settings) where
  abbrev limit : ℕ
  limit = c.max_capability_attempts

  pub recover_goal-Stays : (g : Goal) → Stays limit (recover_goal o c g)
  unfolding recover_goal force_release
  recover_goal-Stays g w h =
      let r = interrupted g.lease_run_dir (lease_note o c g) in
      elim (record_attempt_lem (o.draw w.moment 0) g.id r.outcome r.proof_text r.run_dir
        r.evidence_ref r.cost r.note (o.clock w.moment) w.store) [
          | inl raised ↦ subst (IsCurrent limit) (ground arith) h
          | inr (a, added, owner, _, _, row) ↦
              let p =
                tried-IsPending limit g.id w.store (IsPending-of_current limit g.id w.store h row) a
                  owner in
              let s₁ : Store = record w.store { attempts = w.store.attempts ++ a ∷ [] } in
              let q =
                map_goals-IsPending limit g.id s₁ p (λ x. if x.id == g.id then drop_lease x else x)
                  (λ x. ground arith) (λ x. ground arith) (λ x. ground arith) in
              let (s₂, ends, f) =
                propagate-IsCurrent limit g.id (force_release g.id s₁) q
                  (total_cost (force_release g.id s₁)) o.level in
              subst (IsCurrent limit) (ground arith) f.current
        ]

  pub recover_each-Stays : (gs : List Goal) → Stays limit (recover_each o c gs)
  unfolding recover_each
  recover_each-Stays [] = λ w h. h
  recover_each-Stays (g ∷ gs) =
      Stays-bind limit (recover_goal o c g) (λ i. recover_each o c gs >>= λ rest. done (i ∷ rest))
        (recover_goal-Stays g)
        (λ i.
          Stays-bind limit (recover_each o c gs) (λ rest. done (i ∷ rest)) (recover_each-Stays gs)
            (λ rest w h. h))
