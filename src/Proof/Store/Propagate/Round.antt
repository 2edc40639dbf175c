-- ===== src/Proof/Store/Propagate/Round.antt =====
-- What one round leaves settled.
use mathlib.Core.List.Memᴰ
use native.Mathlib.Decide.{ℕ_discrete}
use evo_harness_preview.Prelude.{
  ℕ, String, ◌≡◌, ◌≢◌, refl, sym, ◌∙◌, ◌⊎◌, inl, inr, List, [], ◌∷◌, map, Memᴰ, arith, filter_where,
  find_key-update_key, if◌then◌else◌, ◌==◌, map-congr,
}
use evo_harness_preview.Proof.Graph.{Goal, Decomposition, GoalStatus}
use evo_harness_preview.Proof.Store.State.{
  Store, goal_key, decompositions_of, attempts_of, parents_of,
}
use evo_harness_preview.Proof.Store.State.Reads.{parents_of_iff, decompositions_of_iff}
use evo_harness_preview.Proof.Store.Schema.{HasGoal}
use evo_harness_preview.Proof.Store.Propagate.{with_status, set_goal_status}
use evo_harness_preview.Proof.Store.Propagate.View.{status_of, advance, advanced_row, moved, target}
use evo_harness_preview.Proof.Store.Propagate.Settles.{
  IsSettled, IsSettled-congr, IsSettled-moved, advanced_row-keeps, advance-advanced_row,
}

filter_where-moved_ne :
    (goals : List Goal) (g x : ℕ) (rows : List Decomposition)
    → x ≢ g
    → filter_where
        (λ d. d.goal_id == x)
        (map (λ r. if r.goal_id == g then advanced_row goals r else r) rows)
      ≡ filter_where (λ d. d.goal_id == x) rows
filter_where-moved_ne goals g x [] h = refl
filter_where-moved_ne goals g x (r ∷ rows) h =
    ground (arith, filter_where-moved_ne goals g x rows h, advanced_row-keeps goals r)

filter_where-moved_self :
    (goals : List Goal) (g : ℕ) (rows : List Decomposition)
    → filter_where
        (λ d. d.goal_id == g)
        (map (λ r. if r.goal_id == g then advanced_row goals r else r) rows)
      ≡ map (advanced_row goals) (filter_where (λ d. d.goal_id == g) rows)
filter_where-moved_self goals g [] = refl
filter_where-moved_self goals g (r ∷ rows) =
    ground (arith, filter_where-moved_self goals g rows, advanced_row-keeps goals r)

pub decompositions_of-moved_ne :
    (g x : ℕ) (s : Store) → x ≢ g → decompositions_of x (moved g s) ≡ decompositions_of x s
unfolding decompositions_of moved
decompositions_of-moved_ne g x s h = filter_where-moved_ne s.goals g x s.decompositions h

pub decompositions_of-moved_self :
    (g : ℕ) (s : Store)
    → decompositions_of g (moved g s) ≡ map (advanced_row s.goals) (decompositions_of g s)
unfolding decompositions_of moved
decompositions_of-moved_self g s = filter_where-moved_self s.goals g s.decompositions

module _ (budget : ℕ) (level : String) (g : ℕ) (st : GoalStatus) (s : Store) where
  pub status_of-set_self :
      HasGoal s.goals g → status_of (set_goal_status budget level g st s).goals g ≡ st
  unfolding set_goal_status
  status_of-set_self (row, e) = ground (
    arith,
    find_key-update_key goal_key g g (with_status budget level st) (λ r. ground arith) s.goals,
  )

  pub status_of-set_ne :
      (x : ℕ)
      → x ≢ g
      → status_of (set_goal_status budget level g st s).goals x ≡ status_of s.goals x
  unfolding set_goal_status
  status_of-set_ne x h = ground (
    arith,
    find_key-update_key goal_key x g (with_status budget level st) (λ r. ground arith) s.goals,
  )

  -- A decomposition that does not have the goal for a subgoal advances as before.
  advance-set_ne :
      (d : Decomposition)
      → ¬ Memᴰ g d.subgoal_ids
      → advance (set_goal_status budget level g st s).goals d ≡ advance s.goals d
  unfolding advance
  advance-set_ne d h = rw (
      map-congr (status_of (set_goal_status budget level g st s).goals) (status_of s.goals)
        d.subgoal_ids others)
    where
      others :
          (x : ℕ)
          → Memᴰ x d.subgoal_ids
          → status_of (set_goal_status budget level g st s).goals x ≡ status_of s.goals x
      others x m = status_of-set_ne x (λ e. h (rw (← e) m))

module _ (limit budget : ℕ) (level : String) (g : ℕ) (s : Store) where
  abbrev pub written : Store
  written = set_goal_status budget level g (target limit g s) (moved g s)

  IsSettled-other : (x : ℕ) → x ≢ g → (x ≡ g) ⊎ IsSettled limit s x → IsSettled limit s x
  IsSettled-other x ne (inl e) = absurd (ne e)
  IsSettled-other x ne (inr h) = h

  -- A round that leaves the status alone keeps every settled goal and settles its own.
  pub moved-IsSettled :
      target limit g s ≡ status_of s.goals g
      → (x : ℕ) → (x ≡ g) ⊎ IsSettled limit s x
      → IsSettled limit (moved g s) x
  unfolding attempts_of moved
  moved-IsSettled same x c = elim (ℕ_discrete x g) [
    | yes here ↦ rw here (
        IsSettled-moved limit s (moved g s) g refl (decompositions_of-moved_self g s) (sym same)
          (λ d _. advance-advanced_row s.goals d))
    | no ne ↦
        IsSettled-congr limit s (moved g s) x refl (decompositions_of-moved_ne g x s ne) refl
          (λ d _. refl) (IsSettled-other x ne c)
  ]

  pub rows_written : (x : ℕ) → decompositions_of x written ≡ decompositions_of x (moved g s)
  unfolding decompositions_of set_goal_status
  rows_written x = refl

  apart_below :
      (x : ℕ)
      → ¬ Memᴰ x (parents_of g written)
      → (d : Decomposition) → Memᴰ d (decompositions_of x (moved g s))
      → ¬ Memᴰ g d.subgoal_ids
  apart_below x apart d m sub =
      let (row, owner) = (decompositions_of_iff x written d).0 (rw (rows_written x) m) in
      apart ((parents_of_iff g x written).1 (d, row, owner, sub))

  -- A round that writes the status keeps every settled goal but the parents.
  pub written-IsSettled :
      HasGoal s.goals g
      → (x : ℕ) → (x ≡ g) ⊎ IsSettled limit s x
      → ¬ Memᴰ x (parents_of g written)
      → IsSettled limit written x
  unfolding attempts_of moved set_goal_status
  written-IsSettled row x c apart = elim (ℕ_discrete x g) [
    | yes here ↦ rw here (
        IsSettled-moved limit s written g refl (rows_written g ∙ decompositions_of-moved_self g s)
          (status_of-set_self budget level g (target limit g s) (moved g s) row)
          λ d m.
            advance-set_ne budget level g (target limit g s) (moved g s) (advanced_row s.goals d) (
              apart_below g (rw here at apart) (advanced_row s.goals d)
                (rw (decompositions_of-moved_self g s) (Memᴰ.map (advanced_row s.goals) m)))
            ∙ advance-advanced_row s.goals d)
    | no ne ↦
        IsSettled-congr limit s written x refl
          (rows_written x ∙ decompositions_of-moved_ne g x s ne)
          (status_of-set_ne budget level g (target limit g s) (moved g s) x ne)
          (λ d m.
            advance-set_ne budget level g (target limit g s) (moved g s) d
              (apart_below x apart d (rw (decompositions_of-moved_ne g x s ne) m)))
          (IsSettled-other x ne c)
  ]
