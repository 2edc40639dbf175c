-- ===== src/Proof/Store/Propagate/Fuel.antt =====
-- One round of `propagate`: what it leaves in its place, and that its fuel is enough for the rest.
use mathlib.Core.List.Memᴰ
use evo_harness_preview.Prelude.{
  ℕ, suc, String, ◌≡◌, ◌+◌, ◌*◌, ◌≤◌, ◌<◌, ap, false, ◌⊎◌, inl, inr, List, [], ◌∷◌, Memᴰ, arith,
  length, length-map, if◌then◌else◌, ◌==◌,
}
use evo_harness_preview.Proof.Store.State.{Store, parents_of}
use evo_harness_preview.Proof.Store.State.Reads.{length-parents_of-le}
use evo_harness_preview.Proof.Store.Schema.{
  HasGoal, HasGoal-map, Schema, Schema-map_goals, Schema-map_decompositions,
}
use evo_harness_preview.Proof.Store.Propagate.{
  same_goal_status, with_status, set_goal_status, push_all,
}
use evo_harness_preview.Proof.Store.Propagate.View.{status_of, advanced_row, moved, target}
use evo_harness_preview.Proof.Store.Propagate.Settles.{advanced_row-keeps}
use evo_harness_preview.Proof.Store.Propagate.Round.{written}
use evo_harness_preview.Proof.Store.Propagate.Potential.{
  potential, potential-falls, potential-moved-le,
}

length-push_all : (is pending : List ℕ) → length (push_all is pending) ≡ length is + length pending
length-push_all [] pending = omega arith
length-push_all (i ∷ is) pending = omega (arith, length-push_all is (i ∷ pending))

pub push_all-mem :
    (x : ℕ) (is pending : List ℕ) → Memᴰ x is ⊎ Memᴰ x pending → Memᴰ x (push_all is pending)
push_all-mem x [] pending (inl m) = absurd (Memᴰ.not-nil m)
push_all-mem x [] pending (inr m) = m
push_all-mem x (i ∷ is) pending (inl (Memᴰ.head e)) =
    push_all-mem x is (i ∷ pending) (inr (Memᴰ.head e))
push_all-mem x (i ∷ is) pending (inl (Memᴰ.tail m)) = push_all-mem x is (i ∷ pending) (inl m)
push_all-mem x (i ∷ is) pending (inr m) = push_all-mem x is (i ∷ pending) (inr (Memᴰ.tail m))

pub mem_of_push_all :
    (x : ℕ) (is pending : List ℕ) → Memᴰ x (push_all is pending) → Memᴰ x is ⊎ Memᴰ x pending
mem_of_push_all x [] pending m = inr m
mem_of_push_all x (i ∷ is) pending m = elim (mem_of_push_all x is (i ∷ pending) m) [
  | inl here ↦ inl (Memᴰ.tail here)
  | inr there ↦ elim (Memᴰ.cases_cons there) [ inl e ↦ inl (Memᴰ.head e) | inr old ↦ inr old ]
]

pub mul_le : {a b : ℕ} (n : ℕ) → a ≤ b → a * n ≤ b * n
mul_le n h = grind arith

mul_lt : {a b : ℕ} (n : ℕ) → a < b → a * n + n ≤ b * n
mul_lt n h = grind arith

decompositions-moved :
    (g : ℕ) (s : Store) → length (moved g s).decompositions ≡ length s.decompositions
unfolding moved
decompositions-moved g s =
    length-map (λ r. if r.goal_id == g then advanced_row s.goals r else r) s.decompositions

pub moved-Schema : (g : ℕ) (s : Store) → Schema s → Schema (moved g s)
unfolding moved
moved-Schema g s h =
    Schema-map_decompositions (λ r. if r.goal_id == g then advanced_row s.goals r else r)
      (λ d. ground (arith, advanced_row-keeps s.goals d))
      (λ d. ground (arith, advanced_row-keeps s.goals d))
      (λ d. ground (arith, advanced_row-keeps s.goals d)) s h

module _ (limit budget : ℕ) (level : String) where
  pub written-Schema : (g : ℕ) (s : Store) → Schema s → Schema (written limit budget level g s)
  unfolding set_goal_status
  written-Schema g s h =
      Schema-map_goals (λ r. if r.id == g then with_status budget level (target limit g s) r else r)
        (λ r. ground arith) (λ r. ground arith) (moved g s) (moved-Schema g s h)

  pub written-HasGoal :
      (g x : ℕ) (s : Store) → HasGoal s.goals x → HasGoal (written limit budget level g s).goals x
  unfolding set_goal_status moved
  written-HasGoal g x s h =
      HasGoal-map (λ r. if r.id == g then with_status budget level (target limit g s) r else r)
        (λ r. ground arith) x s.goals h

  decompositions-written :
      (g : ℕ) (s : Store)
      → length (written limit budget level g s).decompositions ≡ length s.decompositions
  unfolding set_goal_status moved
  decompositions-written g s =
      length-map (λ r. if r.goal_id == g then advanced_row s.goals r else r) s.decompositions

  pub room_moved :
      (g : ℕ) (rest : List ℕ) (s : Store) (fuel : ℕ)
      → target limit g s ≡ status_of s.goals g
      → Schema s
      → potential limit s * length s.decompositions + suc (length rest) ≤ suc fuel
      → potential limit (moved g s) * length (moved g s).decompositions + length rest ≤ fuel
  room_moved g rest s fuel same h le = omega (
    arith,
    ap (λ (n : ℕ). potential limit (moved g s) * n) (decompositions-moved g s),
    mul_le (length s.decompositions) (potential-moved-le limit g s same h),
  )

  pub room_written :
      (g : ℕ) (rest : List ℕ) (s : Store) (fuel : ℕ)
      → HasGoal s.goals g
      → same_goal_status (target limit g s) (status_of s.goals g) ≡ false
      → potential limit s * length s.decompositions + suc (length rest) ≤ suc fuel
      → potential limit (written limit budget level g s)
            * length (written limit budget level g s).decompositions
          + length (push_all (parents_of g (written limit budget level g s)) rest)
        ≤ fuel
  room_written g rest s fuel row new le =
      let s' = written limit budget level g s in
      omega (
        arith,
        ap (λ (n : ℕ). potential limit s' * n) (decompositions-written g s),
        decompositions-written g s,
        mul_lt (length s.decompositions) (potential-falls limit budget level g s row new),
        length-push_all (parents_of g s') rest,
        length-parents_of-le g s',
      )
