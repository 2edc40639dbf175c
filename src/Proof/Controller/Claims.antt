-- ===== src/Proof/Controller/Claims.antt =====
-- Which goals `solve` of controller.py may attack, and how it takes one.
use evo_harness_preview.Prelude.{
  ℕ, zero, suc, ◌+◌, ◌≤◌, ◌<◌, ◌≡◌, ◌↔◌, refl, sym, ◌∙◌, subst, Bool, false, not, ◌&&◌, ◌⊎◌, inl,
  inr, Option, none, some, List, [], ◌∷◌, Memᴰ, arith, any, any_of_mem, any-eq-true, contains_iff,
  length, filter_where, filter_where_iff, length-filter_where-lt, ◌==◌, Bool-cases, Option-cases,
  ==_refl,
}
use evo_harness_preview.Proof.Graph.{Goal, Decomposition, open_goal, is_open, is_live}
use evo_harness_preview.Proof.Store.State.{Store, ok, decompositions_of, open_goals}
use evo_harness_preview.Proof.Store.State.Reads.{decompositions_of_iff}
use evo_harness_preview.Proof.Store.Schema.{Schema}
use evo_harness_preview.Proof.Store.Leases.{claim}
use evo_harness_preview.Proof.Store.Leases.Exclusion.{IsHeld, claim-IsHeld, claim_refused}
use evo_harness_preview.Proof.Controller.{
  Outside, Settings, World, in_scope, claim_first, actionable_goals,
}

live_route : Store → ℕ → Bool
live_route s i = any (λ (d : Decomposition). is_live d.status) (decompositions_of i s)

live_route-eq-false_iff :
    (s : Store) (i : ℕ)
    → (live_route s i ≡ false)
      ↔ ((d : Decomposition) → Memᴰ d s.decompositions → d.goal_id ≡ i → is_live d.status ≡ false)
unfolding live_route
live_route-eq-false_iff s i = (
  λ e d m owner. elim (Bool-cases (is_live d.status)) [
    | inl live ↦ absurd (
        ground (
          arith,
          any_of_mem (λ (r : Decomposition). is_live r.status) (decompositions_of i s)
              ((decompositions_of_iff i s d).1 (m, owner)) live,
        ))
    | inr dead ↦ dead
  ],
  λ all. elim (Bool-cases (any (λ (d : Decomposition). is_live d.status) (decompositions_of i s))) [
    | inr none_live ↦ none_live
    | inl live ↦
        let (d, m, e) =
          any-eq-true (λ (r : Decomposition). is_live r.status) (decompositions_of i s) live in
        let (row, owner) = (decompositions_of_iff i s d).0 m in
        absurd (ground (arith, all d row owner))
  ],
)

-- A goal is actionable exactly if its row is there, it is open, it stands in the scope, and none of
-- its decompositions is live.
pub actionable_goals_iff :
    (scope : List ℕ) (s : Store) (g : Goal)
    → Memᴰ g (actionable_goals (some scope) s) ↔ (
        Memᴰ g s.goals
        × (g.status ≡ open_goal)
        × Memᴰ g.id scope
        × ((d : Decomposition)
            → Memᴰ d s.decompositions
            → d.goal_id ≡ g.id
            → is_live d.status ≡ false))
unfolding actionable_goals open_goals live_route
actionable_goals_iff scope s g =
    let is_free_goal = λ (x : Goal). in_scope (some scope) x.id && not (live_route s x.id) in
    ground (
      arith,
      filter_where_iff is_free_goal g (filter_where (λ (x : Goal). is_open x.status) s.goals),
      filter_where_iff (λ (x : Goal). is_open x.status) g s.goals,
      contains_iff g.id scope,
      live_route-eq-false_iff s g.id,
    )

module _ (o : Outside) (c : Settings)
    (picks : (l : List Goal) (g : Goal) → o.select l ≡ some g → Memᴰ g l) where
  -- If `select` picks one of the goals that it is given, the rows fit the schema, and the fuel is at
  -- least the number of candidates, then the loop over the candidates returns: either it takes the
  -- lease of a candidate, which its owner holds until the time of the claim and `lease_ttl_s` have
  -- passed, or it takes none and leaves the store as it was.
  pub claim_first_ends :
      (fuel : ℕ) (candidates : List Goal) (w : World)
      → length candidates ≤ fuel
      → Schema w.store
      → (found : Option Goal) × (w' : World) × (claim_first o c fuel candidates w ≡ (ok found, w'))
        × (((found ≡ none) × (w'.store ≡ w.store))
            ⊎ ((g : Goal) × (found ≡ some g)
                × Memᴰ g candidates
                × ((n : ℕ) × (w'.moment ≡ suc n)
                    × ((now : ℕ)
                        → now < o.clock n + c.lease_ttl_s
                        → IsHeld w'.store g.id c.owner now))))
  unfolding claim_first
  claim_first_ends zero [] w le h = (none, w, refl, inl (refl, refl))
  claim_first_ends (suc fuel) [] w le h = (none, w, refl, inl (refl, refl))
  claim_first_ends zero (x ∷ xs) w le h = absurd (omega arith)
  claim_first_ends (suc fuel) (x ∷ xs) w le h = elim (Option-cases (o.select (x ∷ xs))) [
    | inl nobody ↦ (none, w, ground arith, inl (refl, refl))
    | inr (choice, picked) ↦
        let run = claim choice.id c.owner c.lease_ttl_s (o.clock w.moment) w.store in
        let w₁ : World = record { store = run.1; moment = suc w.moment } in
        elim (Bool-cases run.0) [
          | inl won ↦ (
            some choice,
            w₁,
            ground arith,
            inr (
              choice,
              refl,
              picks (x ∷ xs) choice picked,
              (
                w.moment,
                refl,
                claim-IsHeld choice.id c.owner c.lease_ttl_s (o.clock w.moment) w.store h won,
              ),
            ),
          )
          | inr lost ↦
              let same : run.1 ≡ w.store =
                claim_refused choice.id c.owner c.lease_ttl_s (o.clock w.moment) w.store h lost in
              let left = filter_where (λ (g : Goal). not (g.id == choice.id)) (x ∷ xs) in
              let fewer : length left < length (x ∷ xs) =
                length-filter_where-lt (λ (g : Goal). not (g.id == choice.id)) (x ∷ xs)
                  (picks (x ∷ xs) choice picked) (ground (arith, ==_refl choice.id)) in
              let (found, w', ends, why) =
                claim_first_ends fuel left w₁ (omega (arith, fewer, le))
                  (subst Schema (sym same) h) in
              (
                found,
                w',
                ground arith,
                elim why [
                  | inl (empty, unchanged) ↦ inl (empty, unchanged ∙ same)
                  | inr (g, e, m, held) ↦ inr (
                    g,
                    e,
                    ((filter_where_iff (λ (y : Goal). not (y.id == choice.id)) g (x ∷ xs)).0 m).0,
                    held,
                  )
                ],
              )
        ]
  ]
