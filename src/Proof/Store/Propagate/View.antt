-- ===== src/Proof/Store/Propagate/View.antt =====
-- One round of `propagate` under the schema, as a pure change of the rows.
use evo_harness_preview.Prelude.{
  ℕ, String, ◌≡◌, refl, Bool, none, some, List, [], ◌∷◌, map, Memᴰ, arith, filter_where, find_key,
  update_key, update_key_absent, absent-filter_where, Distinct, if◌then◌else◌, ◌==◌,
  filter_where_iff,
}
use evo_harness_preview.Proof.Graph.{
  Goal, Decomposition, Attempt, GoalStatus, DecompositionStatus, open_goal, goal_status_from,
  decomposition_status_from,
}
use evo_harness_preview.Proof.Store.State.{
  Store, ok, goal_key, decomposition_key, goal, decompositions_of, attempts_of, parents_of,
}
use evo_harness_preview.Proof.Store.Write.{set_decomposition_status}
use evo_harness_preview.Proof.Store.Schema.{HasGoal, Schema}
use evo_harness_preview.Proof.Store.Propagate.{
  same_goal_status, same_status, statuses_of, advance_each, set_goal_status, visit,
}

abbrev pub status_of : List Goal → ℕ → GoalStatus
status_of goals i = elim (find_key goal_key i goals) [ none ↦ open_goal | some g ↦ g.status ]

-- The status that a decomposition has after its turn.
unfoldable pub advance : List Goal → Decomposition → DecompositionStatus
advance goals d = decomposition_status_from d.status (map (status_of goals) d.subgoal_ids)

unfoldable pub advanced_row : List Goal → Decomposition → Decomposition
advanced_row goals d =
    if same_status (advance goals d) d.status
    then d
    else record d { status = advance goals d; rejected_reason = "" }

-- The table after the turns of the decompositions `ds`.
write_each : List Goal → List Decomposition → List Decomposition → List Decomposition
write_each goals [] rows = rows
write_each goals (d ∷ ds) rows = write_each goals ds (
    if same_status (advance goals d) d.status
    then rows
    else update_key decomposition_key d.id
        (λ r. record r { status = advance goals d; rejected_reason = "" }) rows)

statuses_of_lem :
    (ids : List ℕ) (s : Store)
    → ((i : ℕ) → Memᴰ i ids → HasGoal s.goals i)
    → statuses_of ids s ≡ ok (map (status_of s.goals) ids)
unfolding statuses_of
statuses_of_lem [] s rows = refl
statuses_of_lem (i ∷ is) s rows =
    let (g, e) = rows i (Memᴰ.head refl) in
    ground (arith, statuses_of_lem is s (λ j m. rows j (Memᴰ.tail m)))

advance_each-write_each :
    (ds : List Decomposition) (s : Store)
    → ((d : Decomposition) → Memᴰ d ds → (i : ℕ) → Memᴰ i d.subgoal_ids → HasGoal s.goals i)
    → advance_each ds s ≡ (
      ok (map (advance s.goals) ds),
      record s { decompositions = write_each s.goals ds s.decompositions },
    )
unfolding advance_each advance write_each
advance_each-write_each [] s rows = refl
advance_each-write_each (d ∷ ds) s rows = ground (
  arith,
  statuses_of_lem d.subgoal_ids s (rows d (Memᴰ.head refl)),
  advance_each-write_each ds s later,
  advance_each-write_each ds (set_decomposition_status d.id here "" s) later,
)
  where
    here : DecompositionStatus
    here = decomposition_status_from d.status (map (status_of s.goals) d.subgoal_ids)

    later : (d' : Decomposition) → Memᴰ d' ds → (i : ℕ) → Memᴰ i d'.subgoal_ids → HasGoal s.goals i
    later d' m = rows d' (Memᴰ.tail m)

write_each-cons :
    (goals : List Goal) (ds : List Decomposition) (x : Decomposition) (rows : List Decomposition)
    → find_key decomposition_key x.id ds ≡ none
    → write_each goals ds (x ∷ rows) ≡ x ∷ write_each goals ds rows
unfolding write_each
write_each-cons goals [] x rows h = refl
write_each-cons goals (d ∷ ds) x rows h = ground (
  arith,
  write_each-cons goals ds x rows,
  write_each-cons goals ds x (
      update_key decomposition_key d.id
        (λ r. record r { status = advance goals d; rejected_reason = "" }) rows),
)

-- The turn of every decomposition that passes a test is a change of each such row.
write_each-filter_where :
    (goals : List Goal) (p : Decomposition → Bool) (rows : List Decomposition)
    → Distinct decomposition_key rows
    → write_each goals (filter_where p rows) rows
      ≡ map (λ r. if p r then advanced_row goals r else r) rows
unfolding write_each advanced_row
write_each-filter_where goals p [] h = refl
write_each-filter_where goals p (x ∷ rows) h = ground (
  arith,
  write_each-filter_where goals p rows h.1,
  absent-filter_where decomposition_key p x.id rows h.0,
  write_each-cons goals (filter_where p rows) x rows,
  write_each-cons goals (filter_where p rows) (advanced_row goals x) rows,
  update_key_absent decomposition_key x.id
      (λ r. record r { status = advance goals x; rejected_reason = "" }) rows h.0,
)

-- The store after the turns of the goal's decompositions.
unfoldable pub moved : ℕ → Store → Store
unfolding advanced_row
moved i s = record s {
  decompositions = map (λ r. if r.goal_id == i then advanced_row s.goals r else r) s.decompositions;
}

advance_each-moved :
    (i : ℕ) (s : Store)
    → Schema s
    → advance_each (decompositions_of i s) s
      ≡ (ok (map (advance s.goals) (decompositions_of i s)), moved i s)
unfolding moved decompositions_of
advance_each-moved i s h =
    rw
      (advance_each-write_each (filter_where (λ d. d.goal_id == i) s.decompositions) s λ d m.
        (h.routes d ((filter_where_iff (λ d. d.goal_id == i) d s.decompositions).0 m).0).subgoals)
      (rw (
        write_each-filter_where s.goals (λ d. d.goal_id == i) s.decompositions h.decomposition_ids))

-- The status that the rule gives the goal after these turns.
unfoldable pub target : ℕ → ℕ → Store → GoalStatus
target limit i s =
    goal_status_from (map (λ (a : Attempt). a.outcome) (attempts_of i s))
      (map (advance s.goals) (decompositions_of i s)) limit

module _ (limit budget : ℕ) (level : String) where
  -- The whole round.
  pub visit_lem :
      (i : ℕ) (s : Store)
      → Schema s
      → HasGoal s.goals i
      → visit limit budget level i s ≡ (
          if same_goal_status (target limit i s) (status_of s.goals i)
          then (ok [], moved i s)
          else let s' = set_goal_status budget level i (target limit i s) (moved i s) in
            (ok (parents_of i s'), s'))
  unfolding visit target goal attempts_of moved
  visit_lem i s h (g, e) = ground (arith, advance_each-moved i s h)
