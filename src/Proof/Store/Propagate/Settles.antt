-- ===== src/Proof/Store/Propagate/Settles.antt =====
-- A goal is settled where a round of `propagate` would change nothing: its status is the one that
-- the rules derive, and none of its decompositions has to move. One round settles its goal and
-- disturbs no goal but the parents, which it queues.
use mathlib.Core.List.Memᴰ
use evo_harness_preview.Prelude.{
  ℕ, ◌≡◌, refl, sym, ◌∙◌, true, ◌↔◌, List, [], ◌∷◌, map, Memᴰ, arith, map-congr,
}
use evo_harness_preview.Proof.Graph.{
  Goal, Decomposition, GoalStatus, DecompositionStatus, decomposition_status_from,
}
use evo_harness_preview.Proof.Store.State.{Store, decompositions_of, attempts_of}
use evo_harness_preview.Proof.Store.Propagate.{same_goal_status, same_status}
use evo_harness_preview.Proof.Store.Propagate.View.{status_of, advance, advanced_row, target}

pub record IsSettled (limit : ℕ) (s : Store) (i : ℕ) : Type 0 where
  pub derived : status_of s.goals i ≡ target limit i s
  pub rested : (d : Decomposition) → Memᴰ d (decompositions_of i s) → advance s.goals d ≡ d.status

pub same_goal_status_iff : (a b : GoalStatus) → (same_goal_status a b ≡ true) ↔ (a ≡ b)
same_goal_status_iff a b = ground arith

same_status_iff : (a b : DecompositionStatus) → (same_status a b ≡ true) ↔ (a ≡ b)
same_status_iff a b = ground arith

pub advanced_row-status :
    (goals : List Goal) (d : Decomposition) → (advanced_row goals d).status ≡ advance goals d
unfolding advanced_row
advanced_row-status goals d = ground (arith, same_status_iff (advance goals d) d.status)

pub advanced_row-keeps :
    (goals : List Goal) (d : Decomposition)
    → ((advanced_row goals d).id ≡ d.id)
      × ((advanced_row goals d).goal_id ≡ d.goal_id)
      × ((advanced_row goals d).subgoal_ids ≡ d.subgoal_ids)
unfolding advanced_row
advanced_row-keeps goals d = ground arith

decomposition_status_from_twice :
    (c : DecompositionStatus) (l : List GoalStatus)
    → decomposition_status_from (decomposition_status_from c l) l ≡ decomposition_status_from c l
unfolding decomposition_status_from
decomposition_status_from_twice c l = ground arith

-- A second turn moves nothing.
pub advance-advanced_row :
    (goals : List Goal) (d : Decomposition) → advance goals (advanced_row goals d) ≡ advance goals d
unfolding advance
advance-advanced_row goals d =
    rw (advanced_row-status goals d, (advanced_row-keeps goals d).2)
      (decomposition_status_from_twice d.status (map (status_of goals) d.subgoal_ids))

module _ (limit : ℕ) (s s' : Store) (x : ℕ)
    (same_attempts : attempts_of x s' ≡ attempts_of x s) where
  target-congr :
      map (advance s'.goals) (decompositions_of x s')
        ≡ map (advance s.goals) (decompositions_of x s)
      → target limit x s' ≡ target limit x s
  unfolding target
  target-congr e = rw (same_attempts, e)

  -- What a goal's settling rests on: its attempts, its decompositions, and how these advance.
  pub IsSettled-congr :
      decompositions_of x s' ≡ decompositions_of x s
      → status_of s'.goals x ≡ status_of s.goals x
      → ((d : Decomposition)
          → Memᴰ d (decompositions_of x s)
          → advance s'.goals d ≡ advance s.goals d)
      → IsSettled limit s x
      → IsSettled limit s' x
  IsSettled-congr rows status moves h = record {
    derived =
        status
        ∙ h.derived
        ∙ sym (
            target-congr (
              rw rows
                (map-congr (advance s'.goals) (advance s.goals) (decompositions_of x s) moves)));
    rested = λ d m. let m' = (rw rows at m) in moves d m' ∙ h.rested d m';
  }

  -- Where its decompositions have moved and its status is the one derived, a goal is settled.
  pub IsSettled-moved :
      decompositions_of x s' ≡ map (advanced_row s.goals) (decompositions_of x s)
      → status_of s'.goals x ≡ target limit x s
      → ((d : Decomposition)
          → Memᴰ d (decompositions_of x s)
          → advance s'.goals (advanced_row s.goals d) ≡ advance s.goals d)
      → IsSettled limit s' x
  IsSettled-moved rows status moves = record {
    derived = status ∙ sym (target-congr (rw rows (map_moved (decompositions_of x s) moves)));
    rested = λ d m.
        let (d₀, m₀, e) =
          Memᴰ.of_map (advanced_row s.goals) (decompositions_of x s) (rw rows at m) in
        rw (← e) (moves d₀ m₀ ∙ sym (advanced_row-status s.goals d₀));
  }
    where
      map_moved :
          (ds : List Decomposition)
          → ((d : Decomposition)
              → Memᴰ d ds
              → advance s'.goals (advanced_row s.goals d) ≡ advance s.goals d)
          → map (advance s'.goals) (map (advanced_row s.goals) ds) ≡ map (advance s.goals) ds
      map_moved [] h = refl
      map_moved (d ∷ ds) h =
          ground (arith, h d (Memᴰ.head refl), map_moved ds (λ d m. h d (Memᴰ.tail m)))
