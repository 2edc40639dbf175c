-- ===== src/Proof/Store/Shape/Faults.antt =====
-- What `add_decomposition` of store.py may raise.
use evo_harness_preview.Prelude.{
  ℕ, suc, String, ◌≡◌, ◌≢◌, inl, inr, Option, List, [], ◌∷◌, arith, Option-cases, List-cases,
  find_key,
}
use evo_harness_preview.Proof.Graph.{Goal, DecompositionStatus, repeated}
use evo_harness_preview.Proof.Store.State.{
  Store, Sketch, Result-cases, ok, err, out_of_fuel, goal, goal_key, decomposition_key,
  find_identity,
}
use evo_harness_preview.Proof.Store.Schema.{Schema}
use evo_harness_preview.Proof.Store.Write.{insert_goal}
use evo_harness_preview.Proof.Store.Shape.{
  insert_subgoals, check_route, add_decomposition, subgoal_identities,
}
use evo_harness_preview.Proof.Store.Shape.Writes.{write_fails, write_taken, write_new}
use evo_harness_preview.Proof.Store.Shape.Walks.{ancestor_identities_lem}

insert_subgoals-ne :
    (draw : ℕ → ℕ) (n : ℕ) (subgoals : List (String × String)) (goals : List Goal)
    → (insert_subgoals draw n subgoals goals).0 ≢ err out_of_fuel
unfolding insert_subgoals insert_goal
insert_subgoals-ne draw n [] goals e = absurd (ground arith)
insert_subgoals-ne draw n ((identity, statement) ∷ rest) goals e =
    elim (Result-cases (insert_goal (draw n) identity statement goals)) [
      | inl (x, failed) ↦ elim (Option-cases (find_identity identity goals)) [
        | inr (g, old) ↦ absurd (ground arith)
        | inl new ↦ elim (Option-cases (find_key goal_key (draw n) goals)) [
          | inr (g, taken) ↦ absurd (ground arith)
          | inl unused ↦ absurd (ground arith)
        ]
      ]
      | inr (goals', inserted) ↦ elim (Option-cases (find_identity identity goals')) [
        | inl missing ↦ absurd (ground arith)
        | inr (g, row) ↦ elim (Result-cases (insert_subgoals draw (suc n) rest goals').0) [
          | inl (x, failed) ↦ insert_subgoals-ne draw (suc n) rest goals' (ground arith)
          | inr (ids, fine) ↦ absurd (ground arith)
        ]
      ]
    ]

check_route-ne :
    (g : ℕ) (identities : List String) (s : Store)
    → Schema s
    → check_route g identities s ≢ err out_of_fuel
unfolding check_route goal
check_route-ne g identities s h e = elim (Option-cases (find_key goal_key g s.goals)) [
  | inl missing ↦ absurd (ground arith)
  | inr (r, row) ↦
      let (seen, walked, _) = ancestor_identities_lem s h g in
      elim (List-cases (repeated (r.identity ∷ seen) identities)) [
        | inl none_repeated ↦ absurd (ground arith)
        | inr (t, ts, some_repeated) ↦ absurd (ground arith)
      ]
]

pub add_decomposition-ne :
    (draw : ℕ → ℕ) (g : ℕ) (subgoals : List (String × String)) (sketch : Option Sketch)
    (status : DecompositionStatus) (s : Store)
    → Schema s
    → (add_decomposition draw g subgoals sketch status s).0 ≢ err out_of_fuel
unfolding add_decomposition
add_decomposition-ne draw g [] sketch status s h e = absurd (ground arith)
add_decomposition-ne draw g (p ∷ ps) sketch status s h e =
    elim (Result-cases (check_route g (subgoal_identities (p ∷ ps)) s)) [
      | inl (x, failed) ↦ check_route-ne g (subgoal_identities (p ∷ ps)) s h (ground arith)
      | inr (_, checked) ↦
          let loop = insert_subgoals draw 1 (p ∷ ps) s.goals in
          elim (Result-cases loop.0) [
            | inl (x, failed) ↦
                let wrote = write_fails draw g (p ∷ ps) sketch status s x failed in
                insert_subgoals-ne draw 1 (p ∷ ps) s.goals (ground arith)
            | inr (ids, inserted) ↦
                elim (Option-cases (find_key decomposition_key (draw 0) s.decompositions)) [
                  | inl unused ↦
                      let whole : loop ≡ (ok ids, loop.1) = ground arith in
                      let wrote =
                        write_new draw g (p ∷ ps) sketch status s ids loop.1 whole unused in
                      absurd (ground arith)
                  | inr (d, taken) ↦
                      let wrote =
                        write_taken draw g (p ∷ ps) sketch status s ids d inserted taken in
                      absurd (ground arith)
                ]
          ]
    ]
