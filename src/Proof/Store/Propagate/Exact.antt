-- ===== src/Proof/Store/Propagate/Exact.antt =====
-- What a round of `propagate` marks as proved, and the proofs there are.
use mathlib.Core.List.Memᴰ
use native.Mathlib.Decide.{ℕ_discrete}
use evo_harness_preview.Prelude.{
  subst, ℕ, String, ◌≡◌, sym, ◌∙◌, ◌↔◌, true, ◌⊎◌, inl, inr, List, map, Memᴰ, arith, if◌then◌else◌,
  ◌==◌, Bool-cases,
}
use evo_harness_preview.Proof.Graph.{
  Goal, Decomposition, Attempt, Outcome, GoalStatus, completed, goal_status_from,
}
use evo_harness_preview.Proof.Graph.Rules.{
  goal_status_from-eq-proved_iff, decomposition_status_from_lem,
}
use evo_harness_preview.Proof.Store.State.{Store, decompositions_of, attempts_of}
use evo_harness_preview.Proof.Store.State.Reads.{decompositions_of_iff, attempts_of_iff}
use evo_harness_preview.Proof.Store.Schema.{HasGoal}
use evo_harness_preview.Proof.Store.Proves.{
  Proves, ProvesAll, direct, route, is_validated, ProvesAll-of_all, Keeps, Proves-mono,
  ProvesAll-mono,
}
use evo_harness_preview.Proof.Store.Propagate.{set_goal_status}
use evo_harness_preview.Proof.Store.Propagate.View.{status_of, advance, advanced_row, moved, target}
use evo_harness_preview.Proof.Store.Propagate.Settles.{advanced_row-keeps, advanced_row-status}
use evo_harness_preview.Proof.Store.Propagate.Round.{written, status_of-set_self, status_of-set_ne}
use evo_harness_preview.Proof.Store.Propagate.Potential.{advance_cases}

-- Where the graph says proved, there is a proof.
pub record IsSound (s : Store) : Type 0 where
  pub goals : (g : ℕ) → status_of s.goals g ≡ GoalStatus.proved → Proves s g
  pub routes :
      (d : Decomposition)
      → Memᴰ d s.decompositions
      → d.status ≡ completed
      → ProvesAll s d.subgoal_ids

pub target-eq-proved :
    (limit g : ℕ) (s : Store)
    → (target limit g s ≡ GoalStatus.proved) ↔ (
        ((a : Attempt) × Memᴰ a s.attempts × (a.goal_id ≡ g) × (a.outcome ≡ Outcome.proved))
        ⊎ ((d : Decomposition) × Memᴰ d s.decompositions
            × (d.goal_id ≡ g)
            × (advance s.goals d ≡ completed)))
unfolding target
target-eq-proved limit g s = (to, from)
  where
    rule :
        (goal_status_from
            (map (λ (a : Attempt). a.outcome) (attempts_of g s))
            (map (advance s.goals) (decompositions_of g s))
            limit
          ≡ GoalStatus.proved)
        ↔ (Memᴰ Outcome.proved (map (λ (a : Attempt). a.outcome) (attempts_of g s))
            ⊎ Memᴰ completed (map (advance s.goals) (decompositions_of g s)))
    rule =
        goal_status_from-eq-proved_iff (map (λ (a : Attempt). a.outcome) (attempts_of g s))
          (map (advance s.goals) (decompositions_of g s)) limit

    to :
        goal_status_from
            (map (λ (a : Attempt). a.outcome) (attempts_of g s))
            (map (advance s.goals) (decompositions_of g s))
            limit
          ≡ GoalStatus.proved
        → ((a : Attempt) × Memᴰ a s.attempts × (a.goal_id ≡ g) × (a.outcome ≡ Outcome.proved))
          ⊎ ((d : Decomposition) × Memᴰ d s.decompositions
              × (d.goal_id ≡ g)
              × (advance s.goals d ≡ completed))
    to e = elim (rule.0 e) [
      | inl m ↦
          let (a, ma, o) = Memᴰ.of_map (λ (a : Attempt). a.outcome) (attempts_of g s) m in
          let (row, owner) = (attempts_of_iff g s a).0 ma in inl (a, row, owner, o)
      | inr m ↦
          let (d, md, o) = Memᴰ.of_map (advance s.goals) (decompositions_of g s) m in
          let (row, owner) = (decompositions_of_iff g s d).0 md in inr (d, row, owner, o)
    ]

    from :
        ((a : Attempt) × Memᴰ a s.attempts × (a.goal_id ≡ g) × (a.outcome ≡ Outcome.proved))
          ⊎ ((d : Decomposition) × Memᴰ d s.decompositions
              × (d.goal_id ≡ g)
              × (advance s.goals d ≡ completed))
        → goal_status_from
            (map (λ (a : Attempt). a.outcome) (attempts_of g s))
            (map (advance s.goals) (decompositions_of g s))
            limit
          ≡ GoalStatus.proved
    from (inl (a, row, owner, o)) = rule.1 (
        inl (
          rw (← o)
            (Memᴰ.map (λ (a : Attempt). a.outcome) ((attempts_of_iff g s a).1 (row, owner)))))
    from (inr (d, row, owner, o)) =
        rule.1 (
          inr
            (rw (← o) (Memᴰ.map (advance s.goals) ((decompositions_of_iff g s d).1 (row, owner)))))

advance_completed :
    (goals : List Goal) (d : Decomposition)
    → advance goals d ≡ completed
    → (d.status ≡ completed)
      ⊎ ((i : ℕ) → Memᴰ i d.subgoal_ids → status_of goals i ≡ GoalStatus.proved)
unfolding advance
advance_completed goals d e =
    elim (decomposition_status_from_lem d.status (map (status_of goals) d.subgoal_ids)) [
      | inl (_, _, all, _) ↦ inr (λ i m. all (status_of goals i) (Memᴰ.map (status_of goals) m))
      | inr same ↦ inl (sym same ∙ e)
    ]

completed-IsValidated :
    (goals : List Goal) (d : Decomposition)
    → advance goals d ≡ completed
    → is_validated d.status ≡ true
completed-IsValidated goals d e = ground (arith, advance_cases goals d)

module _ (s : Store) (h : IsSound s) where
  proofs_below :
      (d : Decomposition)
      → Memᴰ d s.decompositions
      → advance s.goals d ≡ completed
      → ProvesAll s d.subgoal_ids
  proofs_below d m e = elim (advance_completed s.goals d e) [
    | inl old ↦ h.routes d m old
    | inr all ↦ ProvesAll-of_all s d.subgoal_ids (λ i mi. h.goals i (all i mi))
  ]

  module _ (g : ℕ) where
    moved-Keeps : Keeps s (moved g s)
    unfolding moved
    moved-Keeps = record {
      attempts = λ a m. m;
      routes = λ d m v.
          let keeps = advanced_row-keeps s.goals d in
          (
            if d.goal_id == g then advanced_row s.goals d else d,
            Memᴰ.map (λ r. if r.goal_id == g then advanced_row s.goals r else r) m,
            ground (arith, keeps),
            ground (arith, keeps),
            ground (arith, advanced_row-status s.goals d, advance_cases s.goals d),
          );
    }

    routes_moved :
        (d : Decomposition)
        → Memᴰ d (moved g s).decompositions
        → d.status ≡ completed
        → ProvesAll s d.subgoal_ids
    unfolding moved
    routes_moved d m e =
        let (r, mr, same) =
          Memᴰ.of_map (λ r. if r.goal_id == g then advanced_row s.goals r else r) s.decompositions
            m in
        elim (Bool-cases (r.goal_id == g)) [
          | inl here ↦
              subst (ProvesAll s) (ground (arith, advanced_row-keeps s.goals r))
                (proofs_below r mr (ground (arith, advanced_row-status s.goals r)))
          | inr other ↦ subst (ProvesAll s) (ground arith) (h.routes r mr (ground arith))
        ]

    pub moved-IsSound : IsSound (moved g s)
    unfolding moved
    moved-IsSound = record {
      goals = λ x e. Proves-mono s (moved g s) moved-Keeps (h.goals x e);
      routes = λ d m e. ProvesAll-mono s (moved g s) moved-Keeps (routes_moved d m e);
    }

    module _ (limit budget : ℕ) (level : String) where
      written-Keeps : Keeps s (written limit budget level g s)
      unfolding set_goal_status
      written-Keeps = record { attempts = moved-Keeps.attempts; routes = moved-Keeps.routes }

      proof_of_target : target limit g s ≡ GoalStatus.proved → Proves s g
      proof_of_target e = elim ((target-eq-proved limit g s).0 e) [
        | inl (a, m, owner, o) ↦ direct a m owner o
        | inr (d, m, owner, c) ↦
            route d m owner (completed-IsValidated s.goals d c) (proofs_below d m c)
      ]

      sound_status :
          HasGoal s.goals g
          → (x : ℕ) → status_of (written limit budget level g s).goals x ≡ GoalStatus.proved
          → Proves s x
      sound_status row x e = elim (ℕ_discrete x g) [
        | yes here ↦ rw here (
            proof_of_target (
              sym (status_of-set_self budget level g (target limit g s) (moved g s) (row_moved row))
              ∙ rw here at e))
        | no ne ↦ h.goals x (
            status_moved x
              (sym (status_of-set_ne budget level g (target limit g s) (moved g s) x ne) ∙ e))
      ]
        where
          row_moved : HasGoal s.goals g → HasGoal (moved g s).goals g
          row_moved r = unfold moved in r

          status_moved :
              (y : ℕ)
              → status_of (moved g s).goals y ≡ GoalStatus.proved
              → status_of s.goals y ≡ GoalStatus.proved
          status_moved y p = unfold moved in p

      pub written-IsSound : HasGoal s.goals g → IsSound (written limit budget level g s)
      unfolding set_goal_status
      written-IsSound row = record {
        goals = λ x e.
            Proves-mono s (written limit budget level g s) written-Keeps (sound_status row x e);
        routes = λ d m e.
            ProvesAll-mono s (written limit budget level g s) written-Keeps (routes_moved d m e);
      }
