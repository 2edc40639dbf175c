-- ===== src/Proof/Store/Shape/Writes.antt =====
-- What the transaction of `add_decomposition` comes to.
use evo_harness_preview.Prelude.{
  ℕ, String, ◌≡◌, Option, none, some, List, [], ◌∷◌, ◌++◌, arith, find_key, ==_iff,
}
use evo_harness_preview.Proof.Graph.{Goal, Decomposition, DecompositionStatus}
use evo_harness_preview.Proof.Store.State.{
  Store, Sketch, Error, ok, err, integrity_error, decomposition_key, decomposition,
}
use evo_harness_preview.Proof.Store.Shape.{insert_subgoals, write_rows, write_decomposition}

found_last :
    (d : Decomposition) (rows : List Decomposition)
    → find_key decomposition_key d.id rows ≡ none
    → find_key decomposition_key d.id (rows ++ d ∷ []) ≡ some d
found_last d [] h = ground (arith, ==_iff d.id d.id)
found_last d (r ∷ rows) h = ground (arith, h, found_last d rows)

module _ (draw : ℕ → ℕ) (goal_id : ℕ) (subgoals : List (String × String)) (sketch : Option Sketch)
    (status : DecompositionStatus) (s : Store) where
  abbrev pub new_row : List ℕ → Decomposition
  new_row ids = record {
    id = draw 0;
    goal_id = goal_id;
    subgoal_ids = ids;
    status = status;
    rejected_reason = "";
  }

  abbrev pub written : List ℕ → List Goal → Store
  written ids goals = record s {
    goals = goals;
    decompositions = s.decompositions ++ new_row ids ∷ [];
    sketches = elim sketch [ none ↦ s.sketches | some k ↦ s.sketches ++ (draw 0, k) ∷ [] ];
  }

  pub write_fails :
      (e : Error)
      → (insert_subgoals draw 1 subgoals s.goals).0 ≡ err e
      → write_decomposition draw goal_id subgoals sketch status s ≡ (err e, s)
  unfolding write_decomposition write_rows
  write_fails e h = ground (arith, h)

  pub write_taken :
      (ids : List ℕ) (d : Decomposition)
      → (insert_subgoals draw 1 subgoals s.goals).0 ≡ ok ids
      → find_key decomposition_key (draw 0) s.decompositions ≡ some d
      → write_decomposition draw goal_id subgoals sketch status s ≡ (err integrity_error, s)
  unfolding write_decomposition write_rows
  write_taken ids d h taken = ground (arith, h, taken)

  pub write_new :
      (ids : List ℕ) (goals : List Goal)
      → insert_subgoals draw 1 subgoals s.goals ≡ (ok ids, goals)
      → find_key decomposition_key (draw 0) s.decompositions ≡ none
      → write_decomposition draw goal_id subgoals sketch status s
        ≡ (ok (new_row ids), written ids goals)
  unfolding write_decomposition write_rows decomposition
  write_new ids goals h new = ground (arith, h, new, found_last (new_row ids) s.decompositions new)
