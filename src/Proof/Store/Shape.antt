-- ===== src/Proof/Store/Shape.antt =====
-- The shape of the graph: the walks of store.py, up and down, and `add_decomposition`.
--
-- The walks take fuel for every goal and one more, the bound that `Shape/Walks.antt` is about.
pub mod Writes
pub mod Rows
pub mod Walks
pub mod Acyclic
pub mod Faults
use evo_harness_preview.Prelude.{
  ℕ, suc, ◌+◌, String, Bool, true, false, Option, none, some, List, [], ◌∷◌, ◌++◌, map, find_key,
  length, map_option, if◌then◌else◌, ◌==◌, str_eq,
}
use evo_harness_preview.Prelude.Walk.{
  Walked, visited, missing_row, out_of_fuel as stopped_short, walk,
}
use evo_harness_preview.Proof.Graph.{Goal, Decomposition, DecompositionStatus, repeated}
use evo_harness_preview.Proof.Store.State.{
  Store, Sketch, Exec, Error, Result, ok, err, ◌>>=◌, decomposition, key_error, value_error,
  integrity_error, cycle_error, out_of_fuel, goal_key, decomposition_key, goal, find_identity,
  parents_of, decompositions_of,
}
use evo_harness_preview.Proof.Store.Write.{insert_goal}

abbrev pub identity_of : Store → ℕ → Option String
identity_of s i = map_option (λ (g : Goal). g.identity) (find_key goal_key i s.goals)

abbrev finished {ℓ} : {K : Type 0} {A : Type ℓ} → (List K → A) → Walked K → Result A
finished f (visited seen) = ok (f seen)
finished f missing_row = err key_error
finished f stopped_short = err out_of_fuel

-- The frontier's nodes are marked by their identities; the goal itself is not marked.
unfoldable pub ancestor_identities : ℕ → Store → Result (List String)
ancestor_identities goal_id s =
    finished (λ seen. seen)
      (walk str_eq (identity_of s) (λ v. parents_of v s) (suc (length s.goals))
        (record { seen = []; frontier = goal_id ∷ [] }))

abbrev pub all_subgoals : List Decomposition → List ℕ
all_subgoals [] = []
all_subgoals (d ∷ ds) = d.subgoal_ids ++ all_subgoals ds

abbrev pub subgoals_below : Store → ℕ → List ℕ
subgoals_below s v = all_subgoals (decompositions_of v s)

unfoldable pub reachable_from : ℕ → Store → Result (List ℕ)
reachable_from goal_id s =
    finished (λ seen. seen)
      (walk (λ i j. i == j) some (subgoals_below s) (suc (length s.goals))
        (record { seen = goal_id ∷ []; frontier = goal_id ∷ [] }))

-- The loop of `add_decomposition` over the subgoals, with the rows that it leaves; `draw n` is the
-- n-th number drawn.
unfoldable pub insert_subgoals :
    (ℕ → ℕ) → ℕ → List (String × String) → List Goal → Result (List ℕ) × List Goal
unfolding insert_goal
insert_subgoals draw n [] goals = (ok [], goals)
insert_subgoals draw n ((identity, statement) ∷ rest) goals =
    elim (insert_goal (draw n) identity statement goals) [
      | err e ↦ (err e, goals)
      | ok goals' ↦ elim (find_identity identity goals') [
        | none ↦ (err key_error, goals')
        | some g ↦
            let (r, goals'') = insert_subgoals draw (suc n) rest goals' in
            (r >>= λ ids. ok (g.id ∷ ids), goals'')
      ]
    ]

abbrev pub subgoal_identities : List (String × String) → List String
subgoal_identities = map (λ p. p.0)

-- The statements of the transaction: the subgoals' rows, then the decomposition's, which has the
-- number `draw 0`. A statement that fails leaves what the others before it have written.
unfoldable pub write_rows :
    (ℕ → ℕ) → ℕ → List (String × String) → Option Sketch → DecompositionStatus → Exec (Unit {0})
unfolding insert_subgoals
write_rows draw goal_id subgoals sketch status s =
    let (r, goals) = insert_subgoals draw 1 subgoals s.goals in
    elim r [
      | err e ↦ (err e, record s { goals = goals })
      | ok ids ↦ elim (find_key decomposition_key (draw 0) s.decompositions) [
        | some _ ↦ (err integrity_error, record s { goals = goals })
        | none ↦ (
          ok tt,
          record s {
            goals = goals;
            decompositions =
                s.decompositions
                ++ record {
                  id = draw 0;
                  goal_id = goal_id;
                  subgoal_ids = ids;
                  status = status;
                  rejected_reason = "";
                }
                  ∷ [];
            sketches = elim sketch [ none ↦ s.sketches | some k ↦ s.sketches ++ (draw 0, k) ∷ [] ];
          },
        )
      ]
    ]

-- `with self._conn`: a body that raises is rolled back.
abbrev pub transaction {ℓ} : {A : Type ℓ} → Exec A → Exec A
transaction body s = let (r, s') = body s in elim r [ err e ↦ (err e, s) | ok a ↦ (ok a, s') ]

-- The transaction, and the row read back behind it.
unfoldable pub write_decomposition :
    (ℕ → ℕ) → ℕ → List (String × String) → Option Sketch → DecompositionStatus → Exec Decomposition
unfolding write_rows decomposition
write_decomposition draw goal_id subgoals sketch status s =
    let (r, s') = transaction (write_rows draw goal_id subgoals sketch status) s in
    (r >>= λ _. decomposition (draw 0) s', s')

-- `check_acyclic` on the ancestors' identities and the goal's own.
unfoldable pub check_route : ℕ → List String → Store → Result (Unit {0})
check_route goal_id identities s = elim (goal goal_id s) [
  | err e ↦ err e
  | ok parent ↦ elim (ancestor_identities goal_id s) [
    | err e ↦ err e
    | ok ancestors ↦ elim (repeated (parent.identity ∷ ancestors) identities) [
      | [] ↦ ok tt
      | t ∷ ts ↦ err (cycle_error (t ∷ ts))
    ]
  ]
]

unfoldable pub add_decomposition :
    (ℕ → ℕ) → ℕ → List (String × String) → Option Sketch → DecompositionStatus → Exec Decomposition
add_decomposition draw goal_id [] sketch status s = (err value_error, s)
add_decomposition draw goal_id (p ∷ ps) sketch status s =
    elim (check_route goal_id (subgoal_identities (p ∷ ps)) s) [
      | err e ↦ (err e, s)
      | ok _ ↦ write_decomposition draw goal_id (p ∷ ps) sketch status s
    ]
