-- ===== src/Proof/Store/Shape/Walks.antt =====
-- What the two walks of store.py return.
use mathlib.Core.List.Memᴰ
use evo_harness_preview.Prelude.{
  Option-cases, ℕ, suc, String, ◌≡◌, refl, sym, ap, ◌∙◌, subst, ◌↔◌, ◌⊎◌, inl, inr, some, List, [],
  ◌∷◌, map, Memᴰ, arith, length, length-map, count-le-length, find_key, map_option, mem_of_find_key,
  key_of_find_key, str_eq, str_eq_iff, ==_iff, ◌==◌, not,
}
use evo_harness_preview.Prelude.Walk.{is_seen, Below}
use evo_harness_preview.Prelude.Walk.Ends.{walk_ends}
use evo_harness_preview.Prelude.Walk.Finds.{walk_finds}
use evo_harness_preview.Proof.Graph.{Goal, Decomposition}
use evo_harness_preview.Proof.Store.State.{
  Store, ok, goal_key, find_identity, parents_of, decompositions_of,
}
use evo_harness_preview.Proof.Store.State.Reads.{parents_of_iff, decompositions_of_iff}
use evo_harness_preview.Proof.Store.Schema.{HasGoal, DistinctIdentities, Schema}
use evo_harness_preview.Proof.Store.Shape.{
  identity_of, all_subgoals, subgoals_below, ancestor_identities, reachable_from,
}

find_identity_of_mem :
    (g : Goal) (goals : List Goal)
    → DistinctIdentities goals
    → Memᴰ g goals
    → find_identity g.identity goals ≡ some g
find_identity_of_mem g [] d m = absurd (Memᴰ.not-nil m)
find_identity_of_mem g (x ∷ xs) d (Memᴰ.head e) = ground (arith, str_eq_iff x.identity g.identity)
find_identity_of_mem g (x ∷ xs) d (Memᴰ.tail m) = ground (
  arith,
  find_identity_of_mem g xs d.1 m,
  str_eq_iff x.identity g.identity,
  ap (λ (t : String). find_identity t xs),
)

abbrev pub above : Store → ℕ → List ℕ
above s v = parents_of v s

same_of_some : {a b : ℕ} → some a ≡ some b → a ≡ b
same_of_some e = cc

mem_all_subgoals :
    (v : ℕ) (ds : List Decomposition)
    → Memᴰ v (all_subgoals ds)
    → (d : Decomposition) × Memᴰ d ds × Memᴰ v d.subgoal_ids
mem_all_subgoals v [] m = absurd (Memᴰ.not-nil m)
mem_all_subgoals v (d ∷ ds) m = elim (Memᴰ.append_cases d.subgoal_ids m) [
  | inl here ↦ (d, Memᴰ.head refl, here)
  | inr there ↦ let (e, me, mv) = mem_all_subgoals v ds there in (e, Memᴰ.tail me, mv)
]

module _ (s : Store) (h : Schema s) where
  -- One identity stands for one goal.
  identity_of-inj :
      (u v : ℕ) (t : String) → identity_of s u ≡ some t → identity_of s v ≡ some t → u ≡ v
  identity_of-inj u v t e f = elim (Option-cases (find_key goal_key u s.goals)) [
    | inl missing ↦ absurd (ground arith)
    | inr (a, row_a) ↦ elim (Option-cases (find_key goal_key v s.goals)) [
      | inl missing ↦ absurd (ground arith)
      | inr (b, row_b) ↦ ground (
        arith,
        find_identity_of_mem a s.goals h.identities (mem_of_find_key goal_key u a s.goals row_a),
        find_identity_of_mem b s.goals h.identities (mem_of_find_key goal_key v b s.goals row_b),
        key_of_find_key goal_key u a s.goals row_a,
        key_of_find_key goal_key v b s.goals row_b,
      )
    ]
  ]

  abbrev identities : List String
  identities = map (λ (r : Goal). r.identity) s.goals

  above_rows :
      (u v : ℕ) → Memᴰ v (above s u) → (t : String) × (identity_of s v ≡ some t) × Memᴰ t identities
  above_rows u v m =
      let (d, row, owner, _) = (parents_of_iff u v s).0 m in
      let (g, e) = subst (HasGoal s.goals) owner ((h.routes d row).owner) in
      (
        g.identity,
        ap (map_option (λ (r : Goal). r.identity)) e,
        Memᴰ.map (λ (r : Goal). r.identity) (mem_of_find_key goal_key v g s.goals e),
      )

  -- Where the rows fit the schema, the walk upwards returns the identities of the goals above,
  -- all of them and no others.
  pub ancestor_identities_lem :
      (g : ℕ)
      → (seen : List String) × (ancestor_identities g s ≡ ok seen)
        × ((t : String)
            → Memᴰ t seen ↔ ((v : ℕ) × Below (above s) g v × (identity_of s v ≡ some t)))
  unfolding ancestor_identities
  ancestor_identities_lem g =
      let (seen, ends) =
        walk_ends str_eq str_eq_iff (identity_of s) (above s) identities above_rows
          (suc (length s.goals)) (record { seen = []; frontier = g ∷ [] })
          (omega (
            arith,
            count-le-length (λ k. not (is_seen str_eq (identity_of s) [] k)) identities,
            length-map (λ (r : Goal). r.identity) s.goals,
          )) in
      let (_, sound, full) =
        walk_finds str_eq str_eq_iff (identity_of s) identity_of-inj (above s) g []
          (suc (length s.goals)) seen (λ v m. absurd (Memᴰ.not-nil m.2)) ends in
      (
        seen,
        ground arith,
        λ t. (
          found t (sound t),
          λ b. let (k, e, m) = full b.0 b.1 in subst (λ j. Memᴰ j seen) (ground (arith, b.2)) m,
        ),
      )
    where
      found :
          {seen : List String} (t : String)
          → (Memᴰ t seen → Memᴰ t [] ⊎ ((v : ℕ) × Below (above s) g v × (identity_of s v ≡ some t)))
          → Memᴰ t seen
          → (v : ℕ) × Below (above s) g v × (identity_of s v ≡ some t)
      found t sound m = elim (sound m) [ inl start ↦ absurd (Memᴰ.not-nil start) | inr b ↦ b ]

  below_rows :
      (u v : ℕ)
      → Memᴰ v (subgoals_below s u)
      → (i : ℕ) × (some v ≡ some i) × Memᴰ i (map (λ (r : Goal). r.id) s.goals)
  below_rows u v m =
      let (d, md, mv) = mem_all_subgoals v (decompositions_of u s) m in
      let (g, e) = (h.routes d ((decompositions_of_iff u s d).0 md).0).subgoals v mv in
      (
        v,
        refl,
        subst (λ i. Memᴰ i (map (λ (r : Goal). r.id) s.goals))
            (key_of_find_key goal_key v g s.goals e)
            (Memᴰ.map (λ (r : Goal). r.id) (mem_of_find_key goal_key v g s.goals e)),
      )

  -- Where the rows fit the schema, the walk downwards returns the goal and the goals below it,
  -- all of them and no others.
  pub reachable_from_lem :
      (g : ℕ)
      → (seen : List ℕ) × (reachable_from g s ≡ ok seen)
        × ((i : ℕ) → Memᴰ i seen ↔ ((i ≡ g) ⊎ Below (subgoals_below s) g i))
  unfolding reachable_from
  reachable_from_lem g =
      let same = λ (i j : ℕ). i == j in
      let (seen, ends) =
        walk_ends same ==_iff some (subgoals_below s) (map (λ (r : Goal). r.id) s.goals) below_rows
          (suc (length s.goals)) (record { seen = g ∷ []; frontier = g ∷ [] })
          (omega (
            arith,
            count-le-length (λ k. not (is_seen same some (g ∷ []) k))
                (map (λ (r : Goal). r.id) s.goals),
            length-map (λ (r : Goal). r.id) s.goals,
          )) in
      let (start, sound, full) =
        walk_finds same ==_iff some (λ u v k e f. same_of_some (e ∙ sym f)) (subgoals_below s) g
          (g ∷ []) (suc (length s.goals)) seen
          (λ v m. same_of_some (m.1 ∙ ap some (Memᴰ.eq_of_singleton m.2))) ends in
      (seen, ground arith, λ i. (into i (sound i), out seen start full i))
    where
      into :
          {seen : List ℕ} (i : ℕ)
          → (Memᴰ i seen
              → Memᴰ i (g ∷ []) ⊎ ((v : ℕ) × Below (subgoals_below s) g v × (some v ≡ some i)))
          → Memᴰ i seen
          → (i ≡ g) ⊎ Below (subgoals_below s) g i
      into i sound m = elim (sound m) [
        | inl start ↦ inl (Memᴰ.eq_of_singleton start)
        | inr (v, b, e) ↦ inr (subst (Below (subgoals_below s) g) (same_of_some e) b)
      ]

      out :
          (seen : List ℕ)
          → ((k : ℕ) → Memᴰ k (g ∷ []) → Memᴰ k seen)
          → ((v : ℕ) → Below (subgoals_below s) g v → (k : ℕ) × (some v ≡ some k) × Memᴰ k seen)
          → (i : ℕ) → (i ≡ g) ⊎ Below (subgoals_below s) g i
          → Memᴰ i seen
      out seen start full i (inl e) = start i (Memᴰ.head e)
      out seen start full i (inr b) =
          let (k, e, m) = full i b in subst (λ j. Memᴰ j seen) (sym (same_of_some e)) m
