-- ===== src/Proof/Store/Propagate/Potential.antt =====
-- What a round that writes a status uses up: a goal whose status is not the one that its stored rows
-- give, or a route that is still accepted.
use native.Mathlib.Decide.{ℕ_discrete}
use evo_harness_preview.Prelude.{
  ℕ, String, ◌≡◌, ◌≢◌, ◌+◌, ◌≤◌, ◌<◌, ◌&&◌, not, refl, ap, Bool, true, false, ◌⊎◌, List, [], ◌∷◌,
  map, Memᴰ, arith, filter_where, count, count-le-length, count-map_split, count-pos, count_mono,
  length, find_key, find_key_of_mem, mem_of_find_key, key_of_find_key, if◌then◌else◌, ◌==◌,
}
use evo_harness_preview.Proof.Graph.{
  Goal, Decomposition, Attempt, GoalStatus, accepted, completed, is_accepted, goal_status_from,
  decomposition_status_from,
}
use evo_harness_preview.Proof.Store.State.{Store, goal_key, decompositions_of, attempts_of}
use evo_harness_preview.Proof.Store.Schema.{HasGoal, Schema}
use evo_harness_preview.Proof.Store.Propagate.{
  same_goal_status, same_status, with_status, set_goal_status,
}
use evo_harness_preview.Proof.Store.Propagate.View.{status_of, advance, advanced_row, moved, target}
use evo_harness_preview.Proof.Store.Propagate.Settles.{advanced_row-status}
use evo_harness_preview.Proof.Store.Propagate.Round.{
  written, decompositions_of-moved_self, decompositions_of-moved_ne, rows_written,
}

-- The status that the rows give as they are stored.
stored : ℕ → ℕ → Store → GoalStatus
stored limit i s =
    goal_status_from (map (λ (a : Attempt). a.outcome) (attempts_of i s))
      (map (λ (d : Decomposition). d.status) (decompositions_of i s)) limit

abbrev stale_row : ℕ → Store → Goal → Bool
stale_row limit s r = not (same_goal_status r.status (stored limit r.id s))

abbrev moves : ℕ → Store → Decomposition → Bool
moves g s d = d.goal_id == g && not (same_status (advance s.goals d) d.status)

pub potential : ℕ → Store → ℕ
potential limit s =
    count (stale_row limit s) s.goals + count (λ d. is_accepted d.status) s.decompositions

pub potential-le :
    (limit : ℕ) (s : Store) → potential limit s ≤ length s.goals + length s.decompositions
unfolding potential
potential-le limit s = omega (
  arith,
  count-le-length (stale_row limit s) s.goals,
  count-le-length (λ (d : Decomposition). is_accepted d.status) s.decompositions,
)

pub advance_cases :
    (goals : List Goal) (d : Decomposition)
    → (advance goals d ≡ d.status) ⊎ (d.status ≡ accepted) × (advance goals d ≡ completed)
unfolding advance decomposition_status_from
advance_cases goals d = ground arith

accepted_moved :
    (g : ℕ) (s : Store)
    → count (λ d. is_accepted d.status) (moved g s).decompositions
        + count (λ d. moves g s d && is_accepted d.status) s.decompositions
      ≡ count (λ d. is_accepted d.status) s.decompositions
unfolding moved advanced_row
accepted_moved g s =
    count-map_split (λ d. is_accepted d.status) (λ d. is_accepted d.status) (moves g s)
      (λ r. if r.goal_id == g then advanced_row s.goals r else r)
      (λ d. ground (arith, advance_cases s.goals d)) s.decompositions

none_move :
    (g : ℕ) (s : Store) (rows : List Decomposition)
    → count (λ d. moves g s d && is_accepted d.status) rows ≡ 0
    → map (advance s.goals) (filter_where (λ d. d.goal_id == g) rows)
      ≡ map (λ d. d.status) (filter_where (λ d. d.goal_id == g) rows)
none_move g s [] h = refl
none_move g s (d ∷ rows) h = ground (arith, none_move g s rows, advance_cases s.goals d)

statuses_moved :
    (goals : List Goal) (ds : List Decomposition)
    → map (λ (d : Decomposition). d.status) (map (advanced_row goals) ds) ≡ map (advance goals) ds
statuses_moved goals [] = refl
statuses_moved goals (d ∷ ds) = ground (arith, statuses_moved goals ds, advanced_row-status goals d)

same_goal_status_refl : (a : GoalStatus) → same_goal_status a a ≡ true
same_goal_status_refl a = ground arith

same_goal_status_sym : (a b : GoalStatus) → same_goal_status a b ≡ same_goal_status b a
same_goal_status_sym a b = ground arith

module _ (limit budget : ℕ) (level : String) (g : ℕ) (s : Store) where
  abbrev after : Store
  after = written limit budget level g s

  attempts_after : (x : ℕ) → attempts_of x after ≡ attempts_of x s
  unfolding attempts_of set_goal_status moved
  attempts_after x = refl

  stored-after_self : stored limit g after ≡ target limit g s
  unfolding stored target
  stored-after_self = rw (
    attempts_after g,
    rows_written limit budget level g s g,
    decompositions_of-moved_self g s,
    statuses_moved s.goals (decompositions_of g s),
  )

  stored-after_ne : (x : ℕ) → x ≢ g → stored limit x after ≡ stored limit x s
  unfolding stored
  stored-after_ne x ne =
      rw (
        attempts_after x,
        rows_written limit budget level g s x,
        decompositions_of-moved_ne g x s ne,
      )

  stale_row-after :
      (r : Goal)
      → stale_row limit after
          (if r.id == g then with_status budget level (target limit g s) r else r)
        ≡ (if r.id == g then false else stale_row limit s r)
  stale_row-after r = elim (ℕ_discrete r.id g) [
    | yes here ↦ ground (
      arith,
      stored-after_self,
      ap (λ i. stored limit i after) here,
      same_goal_status_refl (target limit g s),
    )
    | no ne ↦ ground (arith, stored-after_ne r.id ne)
  ]

  stale_after :
      count (stale_row limit after) after.goals
        + count (λ r. r.id == g && stale_row limit s r) s.goals
      ≡ count (stale_row limit s) s.goals
  unfolding set_goal_status moved
  stale_after =
      count-map_split (stale_row limit s) (stale_row limit after) (λ r. r.id == g)
        (λ r. if r.id == g then with_status budget level (target limit g s) r else r)
        stale_row-after s.goals

  accepted_after :
      count (λ d. is_accepted d.status) after.decompositions
      ≡ count (λ d. is_accepted d.status) (moved g s).decompositions
  unfolding set_goal_status
  accepted_after = refl

  stored_of_none_move :
      count (λ d. moves g s d && is_accepted d.status) s.decompositions ≡ 0
      → stored limit g s ≡ target limit g s
  unfolding stored target decompositions_of
  stored_of_none_move h = rw (none_move g s s.decompositions h)

  -- A round that writes a status brings the potential down.
  pub potential-falls :
      HasGoal s.goals g
      → same_goal_status (target limit g s) (status_of s.goals g) ≡ false
      → potential limit after < potential limit s
  unfolding potential
  potential-falls (row, e) new = elim (ℕ_discrete freed 0) [
    | no some_move ↦ omega (arith, stale_after, accepted_after, accepted_moved g s)
    | yes still ↦ omega (
      arith,
      stale_after,
      accepted_after,
      accepted_moved g s,
      count-pos (λ r. r.id == g && stale_row limit s r) s.goals
          (mem_of_find_key goal_key g row s.goals e) (is_stale_row still),
    )
  ]
    where
      freed : ℕ
      freed = count (λ d. moves g s d && is_accepted d.status) s.decompositions

      is_stale_row :
          count (λ d. moves g s d && is_accepted d.status) s.decompositions ≡ 0
          → (row.id == g && stale_row limit s row) ≡ true
      is_stale_row still =
          let here = key_of_find_key goal_key g row s.goals e in
          ground (
            arith,
            here,
            ap (λ i. stored limit i s) here,
            stored_of_none_move still,
            same_goal_status_sym row.status (target limit g s),
            new,
          )

module _ (limit g : ℕ) (s : Store) (same : target limit g s ≡ status_of s.goals g)
    (h : Schema s) where
  attempts_moved : (x : ℕ) → attempts_of x (moved g s) ≡ attempts_of x s
  unfolding attempts_of moved
  attempts_moved x = refl

  stored-moved_self : stored limit g (moved g s) ≡ target limit g s
  unfolding stored target
  stored-moved_self = rw (
    attempts_moved g,
    decompositions_of-moved_self g s,
    statuses_moved s.goals (decompositions_of g s),
  )

  stored-moved_ne : (x : ℕ) → x ≢ g → stored limit x (moved g s) ≡ stored limit x s
  unfolding stored
  stored-moved_ne x ne = rw (attempts_moved x, decompositions_of-moved_ne g x s ne)

  stale_row-moved :
      (r : Goal)
      → Memᴰ r s.goals
      → stale_row limit (moved g s) r ≡ true
      → stale_row limit s r ≡ true
  stale_row-moved r m e = elim (ℕ_discrete r.id g) [
    | yes here ↦
        let row = find_key_of_mem goal_key r s.goals h.goal_ids m in
        absurd (
          ground (
            arith,
            here,
            row,
            same,
            ap (λ i. find_key goal_key i s.goals) here,
            ap (λ i. stored limit i (moved g s)) here,
            stored-moved_self,
            same_goal_status_refl (target limit g s),
          ))
    | no ne ↦ ground (arith, stored-moved_ne r.id ne)
  ]

  goals_moved : (moved g s).goals ≡ s.goals
  unfolding moved
  goals_moved = refl

  -- A round that leaves the status alone does not raise the potential.
  pub potential-moved-le : potential limit (moved g s) ≤ potential limit s
  unfolding potential
  potential-moved-le = omega (
    arith,
    ap (count (stale_row limit (moved g s))) goals_moved,
    count_mono (stale_row limit s) (stale_row limit (moved g s)) s.goals stale_row-moved,
    accepted_moved g s,
  )
