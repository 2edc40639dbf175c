-- ===== src/Proof/Store/State/Reads.antt =====
-- Which rows the reading methods of store.py return.
use mathlib.Core.List.Memᴰ
use evo_harness_preview.Prelude.{
  ℕ, ◌≡◌, Bool, not, List, [], ◌∷◌, map, Memᴰ, arith, ◌↔◌, filter_where, filter_where_iff, ◌==◌,
  Memᴰ-cons, contains, contains_iff, length, length-map, length-filter_where-le, ◌≤◌,
}
use evo_harness_preview.Proof.Graph.{Attempt, Decomposition}
use evo_harness_preview.Proof.Store.State.{
  Store, decompositions_of, attempts_of, parents_of, distinct,
}

pub decompositions_of_iff :
    (i : ℕ) (s : Store) (d : Decomposition)
    → Memᴰ d (decompositions_of i s) ↔ (Memᴰ d s.decompositions × (d.goal_id ≡ i))
unfolding decompositions_of
decompositions_of_iff i s d =
    ground (arith, filter_where_iff (λ (e : Decomposition). e.goal_id == i) d s.decompositions)

pub attempts_of_iff :
    (i : ℕ) (s : Store) (a : Attempt)
    → Memᴰ a (attempts_of i s) ↔ (Memᴰ a s.attempts × (a.goal_id ≡ i))
unfolding attempts_of
attempts_of_iff i s a =
    ground (arith, filter_where_iff (λ (b : Attempt). b.goal_id == i) a s.attempts)

distinct_iff : (i : ℕ) (l : List ℕ) → Memᴰ i (distinct l) ↔ Memᴰ i l
distinct_iff i [] = (λ m. m, λ m. m)
distinct_iff i (x ∷ l) = ground (
  arith,
  distinct_iff i l,
  Memᴰ-cons i x l,
  Memᴰ-cons i x (filter_where (λ y. not (y == x)) (distinct l)),
  filter_where_iff (λ y. not (y == x)) i (distinct l),
)

-- The parents are the owners of the decompositions that have the goal for a subgoal.
pub parents_of_iff :
    (g x : ℕ) (s : Store)
    → Memᴰ x (parents_of g s)
      ↔ ((d : Decomposition) × Memᴰ d s.decompositions × (d.goal_id ≡ x) × Memᴰ g d.subgoal_ids)
unfolding parents_of
parents_of_iff g x s = (to, from)
  where
    holds : Decomposition → Bool
    holds d = contains g d.subgoal_ids

    owner : Decomposition → ℕ
    owner d = d.goal_id

    to :
        Memᴰ x (distinct (map owner (filter_where holds s.decompositions)))
        → (d : Decomposition) × Memᴰ d s.decompositions × (d.goal_id ≡ x) × Memᴰ g d.subgoal_ids
    to m =
        let (d, md, e) =
          Memᴰ.of_map owner (filter_where holds s.decompositions) ((distinct_iff x _).0 m) in
        let (row, has) = (filter_where_iff holds d s.decompositions).0 md in
        (d, row, e, (contains_iff g d.subgoal_ids).0 has)

    from :
        ((d : Decomposition) × Memᴰ d s.decompositions × (d.goal_id ≡ x) × Memᴰ g d.subgoal_ids)
        → Memᴰ x (distinct (map owner (filter_where holds s.decompositions)))
    from (d, m, e, sub) = (distinct_iff x _).1 (
        rw (← e) (
          Memᴰ.map owner (
            (filter_where_iff holds d s.decompositions).1
              (m, (contains_iff g d.subgoal_ids).1 sub))))

length-distinct-le : (l : List ℕ) → length (distinct l) ≤ length l
length-distinct-le [] = omega arith
length-distinct-le (x ∷ l) =
    omega (arith, length-distinct-le l, length-filter_where-le (λ y. not (y == x)) (distinct l))

pub length-parents_of-le : (g : ℕ) (s : Store) → length (parents_of g s) ≤ length s.decompositions
unfolding parents_of
length-parents_of-le g s =
    let rows = filter_where (λ (d : Decomposition). contains g d.subgoal_ids) s.decompositions in
    omega (
      arith,
      length-distinct-le (map (λ (d : Decomposition). d.goal_id) rows),
      length-map (λ (d : Decomposition). d.goal_id) rows,
      length-filter_where-le (λ (d : Decomposition). contains g d.subgoal_ids) s.decompositions,
    )
