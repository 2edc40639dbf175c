-- ===== src/Proof/Store/Propagate/Correct.antt =====
-- `propagate` of store.py, from a store where no other goal is waiting.
use mathlib.Core.List.Memᴰ
use evo_harness_preview.Prelude.{
  ℕ, String, ◌≡◌, ◌≢◌, refl, ◌∙◌, ◌↔◌, true, ◌⊎◌, inl, inr, List, Memᴰ, arith, all,
}
use evo_harness_preview.Proof.Graph.{
  Decomposition, GoalStatus, DecompositionStatus, accepted, completed,
}
use evo_harness_preview.Proof.Graph.Rules.{decomposition_status_from_validated}
use evo_harness_preview.Proof.Store.State.{Store, ok}
use evo_harness_preview.Proof.Store.Schema.{HasGoal, Schema}
use evo_harness_preview.Proof.Store.Proves.{
  Proves, ProvesAll, direct, route, nil, cons, is_validated,
}
use evo_harness_preview.Proof.Store.Propagate.{set_goal_status, propagate}
use evo_harness_preview.Proof.Store.Propagate.View.{status_of, advance, moved, target}
use evo_harness_preview.Proof.Store.Propagate.Settles.{IsSettled}
use evo_harness_preview.Proof.Store.Propagate.Exact.{
  IsSound, moved-IsSound, written-IsSound, target-eq-proved,
}
use evo_harness_preview.Proof.Store.Propagate.Loop.{propagate_ends}

validated_cases :
    (d : DecompositionStatus) → is_validated d ≡ true → (d ≡ accepted) ⊎ (d ≡ completed)
validated_cases d v = ground arith

module _ (limit : ℕ) (s : Store) (h : Schema s) (settled : (x : ℕ) → IsSettled limit s x) where
  proved_of_target :
      (g : ℕ) → target limit g s ≡ GoalStatus.proved → status_of s.goals g ≡ GoalStatus.proved
  proved_of_target g e = (settled g).derived ∙ e

  advance_all_proved :
      (d : Decomposition)
      → Memᴰ d s.decompositions
      → is_validated d.status ≡ true
      → ((i : ℕ) → Memᴰ i d.subgoal_ids → status_of s.goals i ≡ GoalStatus.proved)
      → advance s.goals d ≡ completed
  unfolding advance
  advance_all_proved d m v all =
      decomposition_status_from_validated d.status (status_of s.goals) d.subgoal_ids
        (validated_cases d.status v) ((h.routes d m).some_subgoal) all

  mutual
    complete : {g : ℕ} → Proves s g → status_of s.goals g ≡ GoalStatus.proved
    complete {g} (direct a m owner o) =
        proved_of_target g ((target-eq-proved limit g s).1 (inl (a, m, owner, o)))
    complete {g} (route d m owner v ps) = proved_of_target g (
        (target-eq-proved limit g s).1
          (inr (d, m, owner, advance_all_proved d m v (complete_all ps))))

    complete_all :
        {is : List ℕ}
        → ProvesAll s is
        → (i : ℕ) → Memᴰ i is
        → status_of s.goals i ≡ GoalStatus.proved
    complete_all nil i m = absurd (Memᴰ.not-nil m)
    complete_all (cons p ps) i (Memᴰ.head e) = rw e (complete p)
    complete_all (cons p ps) i (Memᴰ.tail m) = complete_all ps i m

  -- In a settled store every goal that has a proof is proved.
  proved_of_Proves : {g : ℕ} → Proves s g → status_of s.goals g ≡ GoalStatus.proved
  proved_of_Proves p = complete p

-- A store between two calls: its rows fit the schema, every goal is settled, and what is marked
-- proved has a proof.
pub record IsCurrent (limit : ℕ) (s : Store) : Type 0 where
  pub schema : Schema s
  pub settled : (x : ℕ) → IsSettled limit s x
  pub sound : IsSound s

-- In such a store the goals marked proved are exactly those that have a proof.
pub proved_iff :
    (limit : ℕ) (s : Store)
    → IsCurrent limit s
    → (x : ℕ) → (status_of s.goals x ≡ GoalStatus.proved) ↔ Proves s x
proved_iff limit s c x = (c.sound.goals x, proved_of_Proves limit s c.schema c.settled)

-- If the rows fit the schema, what is marked proved has a proof, and every goal but `g` is settled,
-- then `propagate` on `g` returns without an error, keeps all of this and the attempts, and leaves
-- every goal settled and marked proved exactly if it has a proof.
pub propagate_correct :
    (limit budget : ℕ) (level : String) (g : ℕ) (s : Store)
    → Schema s
    → IsSound s
    → HasGoal s.goals g
    → ((x : ℕ) → x ≢ g → IsSettled limit s x)
    → (s' : Store) × (propagate limit budget level g s ≡ (ok tt, s'))
      × IsCurrent limit s'
      × (s'.attempts ≡ s.attempts)
      × ((x : ℕ) → (status_of s'.goals x ≡ GoalStatus.proved) ↔ Proves s' x)
propagate_correct limit budget level g s h sound row others =
    let (s', ends, f) =
      propagate_ends limit budget level (λ t. IsSound t × (t.attempts ≡ s.attempts))
        (λ x t _ p. (moved-IsSound t p.0 x, unfold moved in p.1))
        (λ x t _ r p.
          (written-IsSound t p.0 x limit budget level r, unfold moved set_goal_status in p.1))
        g s h row others (sound, refl) in
    let c : IsCurrent limit s' = record {
      schema = f.schema;
      settled = f.settled;
      sound = f.kept.0;
    } in
    (s', ends, c, f.kept.1, proved_iff limit s' c)
