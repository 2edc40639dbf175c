-- ===== src/Proof/Store/Propagate/Loop.antt =====
-- The loop of `propagate`: its end within the fuel, and what holds there.
use mathlib.Core.List.Memᴰ
use native.Mathlib.Decide.{ℕ_discrete}
use evo_harness_preview.Prelude.{
  ℕ, zero, suc, String, ◌≡◌, ◌≢◌, ◌+◌, ◌*◌, ◌≤◌, refl, ◌⊎◌, inl, inr, List, [], ◌∷◌, Memᴰ, arith,
  length, Bool-cases, contains, contains_iff,
}
use evo_harness_preview.Proof.Store.State.{Store, ok, parents_of}
use evo_harness_preview.Proof.Store.State.Reads.{parents_of_iff}
use evo_harness_preview.Proof.Store.Schema.{HasGoal, Schema}
use evo_harness_preview.Proof.Store.Propagate.{
  same_goal_status, push_all, propagate_loop, propagate, enough_fuel,
}
use evo_harness_preview.Proof.Store.Propagate.View.{status_of, moved, target, visit_lem}
use evo_harness_preview.Proof.Store.Propagate.Settles.{IsSettled, same_goal_status_iff}
use evo_harness_preview.Proof.Store.Propagate.Round.{written, moved-IsSettled, written-IsSettled}
use evo_harness_preview.Proof.Store.Propagate.Potential.{potential, potential-le}
use evo_harness_preview.Proof.Store.Propagate.Fuel.{
  push_all-mem, mem_of_push_all, mul_le, moved-Schema, written-Schema, written-HasGoal, room_moved,
  room_written,
}

module _ (limit budget : ℕ) (level : String) where
  -- `P` holds of the store after the loop if every round keeps it.
  module _ (P : Store → Type 0) (keep_moved : (g : ℕ) (s : Store) → Schema s → P s → P (moved g s))
      (keep_written : (g : ℕ) (s : Store)
        → Schema s
        → HasGoal s.goals g
        → P s
        → P (written limit budget level g s)) where
    record Waiting (pending : List ℕ) (s : Store) : Type 0 where
      schema : Schema s
      rows : (x : ℕ) → Memᴰ x pending → HasGoal s.goals x
      settled : (x : ℕ) → IsSettled limit s x ⊎ Memᴰ x pending
      kept : P s

    pub record Finished (s : Store) : Type 0 where
      pub schema : Schema s
      pub settled : (x : ℕ) → IsSettled limit s x
      pub kept : P s

    front :
        (g : ℕ) (rest : List ℕ) (s : Store)
        → Waiting (g ∷ rest) s
        → (x : ℕ) → ((x ≡ g) ⊎ IsSettled limit s x) ⊎ Memᴰ x rest
    front g rest s h x = elim (h.settled x) [
      | inl done ↦ inl (inr done)
      | inr m ↦ elim (Memᴰ.cases_cons m) [ inl e ↦ inl (inl e) | inr later ↦ inr later ]
    ]

    Waiting-moved :
        (g : ℕ) (rest : List ℕ) (s : Store)
        → target limit g s ≡ status_of s.goals g
        → Waiting (g ∷ rest) s
        → Waiting rest (moved g s)
    unfolding moved
    Waiting-moved g rest s same h = record {
      schema = moved-Schema g s h.schema;
      rows = λ x m. h.rows x (Memᴰ.tail m);
      settled = λ x. elim (front g rest s h x) [
        | inl c ↦ inl (moved-IsSettled limit budget level g s same x c)
        | inr m ↦ inr m
      ];
      kept = keep_moved g s h.schema h.kept;
    }

    Waiting-written :
        (g : ℕ) (rest : List ℕ) (s : Store)
        → Waiting (g ∷ rest) s
        → Waiting
            (push_all (parents_of g (written limit budget level g s)) rest)
            (written limit budget level g s)
    Waiting-written g rest s h = record {
      schema = schema;
      rows = λ x m. elim (mem_of_push_all x (parents_of g s') rest m) [
        | inl parent ↦
            let (d, row, e, _) = (parents_of_iff g x s').0 parent in
            rw (← e) ((schema.routes d row).owner)
        | inr later ↦ written-HasGoal limit budget level g x s (h.rows x (Memᴰ.tail later))
      ];
      settled = λ x. elim (Bool-cases (contains x (parents_of g s'))) [
        | inl is ↦
            inr (
              push_all-mem x (parents_of g s') rest (inl ((contains_iff x (parents_of g s')).0 is)))
        | inr not_parent ↦ elim (front g rest s h x) [
          | inl c ↦ inl (
              written-IsSettled limit budget level g s row x c
                (λ m. ground (arith, contains_iff x (parents_of g s'))))
          | inr later ↦ inr (push_all-mem x (parents_of g s') rest (inr later))
        ]
      ];
      kept = keep_written g s h.schema row h.kept;
    }
      where
        s' : Store
        s' = written limit budget level g s

        row : HasGoal s.goals g
        row = h.rows g (Memᴰ.head refl)

        schema : Schema s'
        schema = written-Schema limit budget level g s h.schema

    finish : (s : Store) → Waiting [] s → Finished s
    finish s h = record {
      schema = h.schema;
      settled = λ x. all_settled x (h.settled x);
      kept = h.kept;
    }
      where
        all_settled : (x : ℕ) → IsSettled limit s x ⊎ Memᴰ x [] → IsSettled limit s x
        all_settled x (inl d) = d
        all_settled x (inr m) = absurd (Memᴰ.not-nil m)

    loop_ends :
        (fuel : ℕ) (pending : List ℕ) (s : Store)
        → potential limit s * length s.decompositions + length pending ≤ fuel
        → Waiting pending s
        → (s' : Store) × (propagate_loop limit budget level fuel pending s ≡ (ok tt, s'))
          × Finished s'
    unfolding propagate_loop
    loop_ends zero [] s le h = (s, refl, finish s h)
    loop_ends (suc fuel) [] s le h = (s, refl, finish s h)
    loop_ends zero (g ∷ rest) s le h = absurd (omega arith)
    loop_ends (suc fuel) (g ∷ rest) s le h =
        let round = visit_lem limit budget level g s h.schema (h.rows g (Memᴰ.head refl)) in
        elim (Bool-cases (same_goal_status (target limit g s) (status_of s.goals g))) [
          | inl same ↦
              let e = (same_goal_status_iff _ _).0 same in
              let (s', ends, f) =
                loop_ends fuel rest (moved g s)
                  (room_moved limit budget level g rest s fuel e h.schema le)
                  (Waiting-moved g rest s e h) in
              (s', ground arith, f)
          | inr new ↦
              let s₁ = written limit budget level g s in
              let (s', ends, f) =
                loop_ends fuel (push_all (parents_of g s₁) rest) s₁
                  (room_written limit budget level g rest s fuel (h.rows g (Memᴰ.head refl)) new le)
                  (Waiting-written g rest s h) in
              (s', ground arith, f)
        ]

    -- `propagate` returns, in a store where every goal is settled.
    pub propagate_ends :
        (g : ℕ) (s : Store)
        → Schema s
        → HasGoal s.goals g
        → ((x : ℕ) → (x ≢ g) → IsSettled limit s x)
        → P s
        → (s' : Store) × (propagate limit budget level g s ≡ (ok tt, s')) × Finished s'
    unfolding propagate
    propagate_ends g s h row others p =
        loop_ends (enough_fuel limit budget level s) (g ∷ []) s
          (omega (arith, mul_le (length s.decompositions) (potential-le limit s)))
          (record {
            schema = h;
            rows = λ x m. rw (Memᴰ.eq_of_singleton m) row;
            settled = λ x. elim (ℕ_discrete x g) [
              | yes here ↦ inr (Memᴰ.head here)
              | no ne ↦ inl (others x ne)
            ];
            kept = p;
          })
