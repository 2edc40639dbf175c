-- ===== src/Proof/Tests/StoreCases.antt =====
-- The store's theorems at the small proof graph.
use mathlib.Core.List.Memᴰ
use evo_harness_preview.Prelude.{
  ℕ, String, ◌≡◌, ◌≢◌, ◌↔◌, refl, true, false, ◌⊎◌, some, List, Memᴰ, arith,
}
use evo_harness_preview.Proof.Graph.{GoalStatus, proposed}
use evo_harness_preview.Proof.Store.State.{Store, parents_of, ok}
use evo_harness_preview.Proof.Store.Schema.{HasGoal}
use evo_harness_preview.Proof.Store.Proves.{Proves}
use evo_harness_preview.Proof.Store.Write.{upsert_goal}
use evo_harness_preview.Proof.Store.Shape.{
  ancestor_identities, reachable_from, identity_of, subgoals_below,
}
use evo_harness_preview.Proof.Store.Shape.Acyclic.{IsAcyclic, add_decomposition-IsAcyclic}
use evo_harness_preview.Prelude.Walk.{Below, one, more}
use evo_harness_preview.Proof.Store.Shape.Rows.{Added, add_decomposition-Added}
use evo_harness_preview.Proof.Store.Shape.Walks.{above, ancestor_identities_lem, reachable_from_lem}
use evo_harness_preview.Proof.Store.Leases.{claim, release}
use evo_harness_preview.Proof.Store.Leases.Exclusion.{claim_excludes, claim-release}
use evo_harness_preview.Proof.Store.Propagate.{propagate}
use evo_harness_preview.Proof.Store.Propagate.View.{status_of}
use evo_harness_preview.Proof.Store.Propagate.Correct.{IsCurrent, propagate_correct}
use evo_harness_preview.Proof.Store.Current.Rows.{upsert_goal-IsCurrent, claim-IsCurrent}
use evo_harness_preview.Proof.Store.Current.Route.{add_decomposition-IsCurrent}
use evo_harness_preview.Proof.Tests.{
  tried_once, tried_once-IsPending, one_goal, one_goal-IsCurrent, draw, lemmas, the_sketch, routed,
  the_route, route_added, root_open, routed-IsCurrent,
}

propagate_correct_example :
    (s' : Store) × (propagate 3 7 "lean" 1 tried_once ≡ (ok tt, s'))
    × IsCurrent 3 s'
    × (s'.attempts ≡ tried_once.attempts)
    × ((x : ℕ) → (status_of s'.goals x ≡ GoalStatus.proved) ↔ Proves s' x)
propagate_correct_example =
    propagate_correct 3 7 "lean" 1 tried_once tried_once-IsPending.schema tried_once-IsPending.sound
      tried_once-IsPending.row tried_once-IsPending.others

no_parent : (a x : ℕ) → ¬ Memᴰ x (parents_of a one_goal)
unfolding parents_of upsert_goal
no_parent a x m = Memᴰ.not-nil m

one_goal-IsAcyclic : IsAcyclic one_goal
one_goal-IsAcyclic x (one m) = absurd (no_parent x x m)
one_goal-IsAcyclic x (more {u} b m) = absurd (no_parent u x m)

add_decomposition-IsAcyclic_example : IsAcyclic routed
add_decomposition-IsAcyclic_example =
    add_decomposition-IsAcyclic draw 1 lemmas (some the_sketch) proposed one_goal routed the_route
      one_goal-IsCurrent.schema one_goal-IsAcyclic route_added

add_decomposition-Added_example : Added 1 lemmas proposed one_goal the_route routed
add_decomposition-Added_example =
    add_decomposition-Added draw 1 (some the_sketch) proposed one_goal lemmas the_route routed
      one_goal-IsCurrent.schema route_added

add_decomposition-IsCurrent_example : IsCurrent 3 routed
add_decomposition-IsCurrent_example =
    add_decomposition-IsCurrent 3 draw 1 lemmas (some the_sketch) one_goal routed the_route
      one_goal-IsCurrent root_open route_added

-- The lease of the root.
abbrev leased_root : Store
leased_root = (claim 1 "worker" 600 5 one_goal).1

claimed : claim 1 "worker" 600 5 one_goal ≡ (true, leased_root)
unfolding claim upsert_goal
claimed = refl

claim_excludes_example :
    ((other : String) (ttl' : ℕ) → claim 1 other ttl' 604 leased_root ≡ (false, leased_root))
    × ((other : String) → other ≢ "worker" → release 1 other leased_root ≡ leased_root)
claim_excludes_example =
    claim_excludes 1 "worker" 600 5 one_goal leased_root one_goal-IsCurrent.schema claimed 604
      (omega arith)

leased_row : HasGoal leased_root.goals 1
unfolding claim upsert_goal
leased_row = (_, refl)

leased_row-owner : leased_row.0.lease_owner ≡ some "worker"
unfolding leased_row
leased_row-owner = refl

claim-release_example : (claim 1 "other" 600 6 (release 1 "worker" leased_root)).0 ≡ true
claim-release_example =
    claim-release 1 "worker" "other" 600 6 leased_root leased_row.0
      (claim-IsCurrent 3 one_goal one_goal-IsCurrent 1 "worker" 600 5).schema leased_row.1
      leased_row-owner

ancestor_identities_example :
    (seen : List String) × (ancestor_identities 11 routed ≡ ok seen)
    × ((t : String)
        → Memᴰ t seen ↔ ((v : ℕ) × Below (above routed) 11 v × (identity_of routed v ≡ some t)))
ancestor_identities_example = ancestor_identities_lem routed routed-IsCurrent.schema 11

reachable_from_example :
    (seen : List ℕ) × (reachable_from 1 routed ≡ ok seen)
    × ((i : ℕ) → Memᴰ i seen ↔ ((i ≡ 1) ⊎ Below (subgoals_below routed) 1 i))
reachable_from_example = reachable_from_lem routed routed-IsCurrent.schema 1

upsert_goal-IsCurrent_example : IsCurrent 3 (upsert_goal 2 "lemma" "theorem lemma : r" one_goal).1
upsert_goal-IsCurrent_example =
    upsert_goal-IsCurrent 3 one_goal one_goal-IsCurrent 2 "lemma" "theorem lemma : r"
