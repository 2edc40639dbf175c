-- ===== src/Proof/Store/Current/Rows.antt =====
-- The writes of new goals and of leases in a current store.
use evo_harness_preview.Prelude.{ℕ, ◌+◌, String, subst, inl, inr, some, arith, if◌then◌else◌, ◌==◌}
use evo_harness_preview.Proof.Store.State.{Store, Result-cases}
use evo_harness_preview.Proof.Store.Write.{insert_goal, upsert_goal}
use evo_harness_preview.Proof.Store.Write.Inserts.{insert_goal-Extends}
use evo_harness_preview.Proof.Store.Propagate.Correct.{IsCurrent}
use evo_harness_preview.Proof.Store.Leases.{
  is_free, take_lease, drop_lease, claim, note_attempt_dir, force_release, is_held_by, release,
}
use evo_harness_preview.Proof.Store.Current.{IsCurrent-map_goals, IsCurrent-Extends}

module _ (limit : ℕ) (s : Store) (c : IsCurrent limit s) where
  -- The leases never touch what a status says.
  pub claim-IsCurrent :
      (goal_id : ℕ) (owner : String) (ttl_s now : ℕ)
      → IsCurrent limit (claim goal_id owner ttl_s now s).1
  unfolding claim
  claim-IsCurrent goal_id owner ttl_s now =
      IsCurrent-map_goals
        (λ r.
          if r.id == goal_id
          then (if is_free now r then take_lease owner (now + ttl_s) r else r)
          else r)
        (λ r. ground arith) (λ r. ground arith) (λ r. ground arith) limit s c

  pub release-IsCurrent : (goal_id : ℕ) (owner : String) → IsCurrent limit (release goal_id owner s)
  unfolding release
  release-IsCurrent goal_id owner =
      IsCurrent-map_goals
        (λ r. if r.id == goal_id then (if is_held_by owner r then drop_lease r else r) else r)
        (λ r. ground arith) (λ r. ground arith) (λ r. ground arith) limit s c

  force_release-IsCurrent : (goal_id : ℕ) → IsCurrent limit (force_release goal_id s)
  unfolding force_release
  force_release-IsCurrent goal_id =
      IsCurrent-map_goals (λ r. if r.id == goal_id then drop_lease r else r) (λ r. ground arith)
        (λ r. ground arith) (λ r. ground arith) limit s c

  note_attempt_dir-IsCurrent :
      (goal_id : ℕ) (run_dir : String) → IsCurrent limit (note_attempt_dir goal_id run_dir s)
  unfolding note_attempt_dir
  note_attempt_dir-IsCurrent goal_id run_dir =
      IsCurrent-map_goals
        (λ r. if r.id == goal_id then record r { lease_run_dir = some run_dir } else r)
        (λ r. ground arith) (λ r. ground arith) (λ r. ground arith) limit s c

  -- `upsert_goal` on a current store leaves a current store, whether it adds a goal, finds it there,
  -- or raises.
  pub upsert_goal-IsCurrent :
      (new_id : ℕ) (identity statement : String)
      → IsCurrent limit (upsert_goal new_id identity statement s).1
  unfolding upsert_goal
  upsert_goal-IsCurrent new_id identity statement =
      elim (Result-cases (insert_goal new_id identity statement s.goals)) [
        | inl (e, failed) ↦ subst (IsCurrent limit) (ground arith) c
        | inr (goals, inserted) ↦
            let (x, (g, found)) =
              insert_goal-Extends s.goals c.schema.goal_ids c.schema.identities new_id identity
                statement inserted in
            subst (IsCurrent limit) (ground arith) (IsCurrent-Extends limit s goals x c)
      ]
