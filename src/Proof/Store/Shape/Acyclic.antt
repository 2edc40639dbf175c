-- ===== src/Proof/Store/Shape/Acyclic.antt =====
-- Cycles, and `add_decomposition`.
use mathlib.Core.List.Memᴰ
use evo_harness_preview.Prelude.{
  ℕ, String, ◌≡◌, refl, sym, ap, ◌∙◌, subst, ◌⊎◌, inl, inr, Option, some, List, ◌∷◌, Memᴰ, find_key,
  map_option,
}
use evo_harness_preview.Prelude.Walk.{Below, one, more}
use evo_harness_preview.Proof.Graph.{Goal, Decomposition, DecompositionStatus}
use evo_harness_preview.Proof.Graph.Rules.{repeated_iff}
use evo_harness_preview.Proof.Store.State.{Store, Sketch, ok, goal_key}
use evo_harness_preview.Proof.Store.State.Reads.{parents_of_iff}
use evo_harness_preview.Proof.Store.Schema.{HasGoal, Schema}
use evo_harness_preview.Proof.Store.Shape.{subgoal_identities, add_decomposition}
use evo_harness_preview.Proof.Store.Shape.Rows.{
  Added, Checked, check_route-Checked, add_decomposition-Added,
}
use evo_harness_preview.Proof.Store.Shape.Walks.{above, ancestor_identities_lem}

-- No goal stands above itself.
abbrev pub IsAcyclic : Store → Type 0
IsAcyclic s = (x : ℕ) → ¬ Below (above s) x x

Below-trans : (next : ℕ → List ℕ) {a b c : ℕ} → Below next a b → Below next b c → Below next a c
Below-trans next p (one m) = more p m
Below-trans next p (more q m) = more (Below-trans next p q) m

above_row : (s : Store) → Schema s → {u v : ℕ} → Below (above s) u v → HasGoal s.goals v
above_row s h {u} {v} (one m) =
    let (d, row, owner, _) = (parents_of_iff u v s).0 m in
    subst (HasGoal s.goals) owner ((h.routes d row).owner)
above_row s h {v = v} (more {u = w} b m) =
    let (d, row, owner, _) = (parents_of_iff w v s).0 m in
    subst (HasGoal s.goals) owner ((h.routes d row).owner)

module _ (goal_id : ℕ) (subgoals : List (String × String)) (status : DecompositionStatus)
    (s s' : Store) (d : Decomposition) (h : Schema s)
    (a : Added goal_id subgoals status s d s') where
  edge_cases :
      (u p : ℕ) → Memᴰ p (above s' u) → Memᴰ p (above s u) ⊎ (Memᴰ u d.subgoal_ids × (p ≡ goal_id))
  edge_cases u p m =
      let (e, row, owner, sub) = (parents_of_iff u p s').0 m in
      elim (Memᴰ.append_cases s.decompositions (subst (Memᴰ e) a.rows row)) [
        | inl old ↦ inl ((parents_of_iff u p s).1 (e, old, owner, sub))
        | inr new ↦
            let same = Memᴰ.eq_of_singleton new in
            inr (
              subst (λ (r : Decomposition). Memᴰ u r.subgoal_ids) same sub,
              sym owner ∙ ap (λ (r : Decomposition). r.goal_id) same ∙ a.owner,
            )
      ]

  -- A subgoal is neither the goal nor above it: the check has compared the identities.
  subgoal_apart : (v : ℕ) → Memᴰ v d.subgoal_ids → ¬ ((v ≡ goal_id) ⊎ Below (above s) goal_id v)
  subgoal_apart v m c = elim c [
    | inl here ↦
        let same : g ≡ k.parent = same_row (
          sym row
          ∙ ap (λ i. find_key goal_key i s'.goals) here
          ∙ a.extends.old goal_id k.parent k.row) in
        none_repeated g.identity (Memᴰ.head (ap (λ (r : Goal). r.identity) same)) t
    | inr b ↦
        let (seen, walked, seen_iff) = ancestor_identities_lem s h goal_id in
        let (r, old) = above_row s h b in
        let same : r ≡ g = same_row (sym (a.extends.old v r old) ∙ row) in
        let found =
          (seen_iff r.identity).1 (v, b, ap (map_option (λ (x : Goal). x.identity)) old) in
        none_repeated g.identity
          (Memᴰ.tail (
            subst (λ (x : Goal). Memᴰ x.identity k.ancestors) same
              (subst (Memᴰ r.identity) (same_ok (sym walked ∙ k.walked)) found)))
          t
  ]
    where
      k : Checked goal_id (subgoal_identities subgoals) s
      k = check_route-Checked goal_id (subgoal_identities subgoals) s a.checked

      g : Goal
      g = (a.named v m).0

      row : find_key goal_key v s'.goals ≡ some g
      row = (a.named v m).1

      t : Memᴰ g.identity (subgoal_identities subgoals)
      t = (a.named v m).2

      same_ok : {l l' : List String} → ok l ≡ ok l' → l ≡ l'
      same_ok e = cc

      same_row : {x y : Goal} → some x ≡ some y → x ≡ y
      same_row e = cc

      none_repeated :
          (i : String)
          → Memᴰ i (k.parent.identity ∷ k.ancestors)
          → ¬ Memᴰ i (subgoal_identities subgoals)
      none_repeated i up down = Memᴰ.not-nil (
          subst (Memᴰ i) k.none_repeated (
            (repeated_iff (k.parent.identity ∷ k.ancestors) (subgoal_identities subgoals) i).1
              (up, down)))

  -- A way up in the new graph is one in the old, or passes the new edges once.
  abbrev Passes : ℕ → ℕ → Type 0
  Passes x y =
      (v : ℕ) × Memᴰ v d.subgoal_ids
      × ((x ≡ v) ⊎ Below (above s) x v)
      × ((y ≡ goal_id) ⊎ Below (above s) goal_id y)

  way_cases : {x y : ℕ} → Below (above s') x y → Below (above s) x y ⊎ Passes x y
  way_cases {x} {y} (one m) = elim (edge_cases x y m) [
    | inl old ↦ inl (one old)
    | inr (sub, top) ↦ inr (x, sub, inl refl, inl top)
  ]
  way_cases {x} {y} (more {u} b m) = elim (edge_cases u y m) [
    | inl old ↦ elim (way_cases b) [
      | inl way ↦ inl (more way old)
      | inr (v, sub, low, high) ↦ inr (v, sub, low, inr (climb high old))
    ]
    | inr (sub, top) ↦ elim (way_cases b) [
      | inl way ↦ inr (u, sub, inr way, inl top)
      | inr (v, sub_v, low, high) ↦ absurd (subgoal_apart u sub high)
    ]
  ]
    where
      climb :
          {w z : ℕ}
          → (w ≡ goal_id) ⊎ Below (above s) goal_id w
          → Memᴰ z (above s w)
          → Below (above s) goal_id z
      climb {z = z} (inl e) m = one (subst (λ x. Memᴰ z (above s x)) e m)
      climb (inr b) m = more b m

  meet :
      {x v : ℕ}
      → (x ≡ v) ⊎ Below (above s) x v
      → (x ≡ goal_id) ⊎ Below (above s) goal_id x
      → (v ≡ goal_id) ⊎ Below (above s) goal_id v
  meet (inl e) (inl f) = inl (sym e ∙ f)
  meet (inl e) (inr b) = inr (subst (Below (above s) goal_id) e b)
  meet {v = v} (inr b) (inl f) = inr (subst (λ x. Below (above s) x v) f b)
  meet (inr b) (inr c) = inr (Below-trans (above s) c b)

  Added-IsAcyclic : IsAcyclic s → IsAcyclic s'
  Added-IsAcyclic acyclic x b = elim (way_cases b) [
    | inl old ↦ acyclic x old
    | inr (v, sub, low, high) ↦ subgoal_apart v sub (meet low high)
  ]

-- In a store whose rows fit the schema and where no goal stands above itself, a call of
-- `add_decomposition` that returns leaves a store where no goal stands above itself.
pub add_decomposition-IsAcyclic :
    (draw : ℕ → ℕ) (goal_id : ℕ) (subgoals : List (String × String)) (sketch : Option Sketch)
    (status : DecompositionStatus) (s s' : Store) (d : Decomposition)
    → Schema s
    → IsAcyclic s
    → add_decomposition draw goal_id subgoals sketch status s ≡ (ok d, s')
    → IsAcyclic s'
add_decomposition-IsAcyclic draw goal_id subgoals sketch status s s' d h acyclic e =
    Added-IsAcyclic goal_id subgoals status s s' d h
      (add_decomposition-Added draw goal_id sketch status s subgoals d s' h e) acyclic
