-- ===== src/Proof/Tests/PremiseCases.antt =====
-- The theorems on policies, scopes and routes of assembly, at examples.
use evo_harness_preview.Prelude.{
  ℕ, String, ◌≡◌, ◌≢◌, ◌↔◌, ◌⊎◌, refl, Bool, true, false, Option, none, some, List, [], ◌∷◌, Memᴰ,
  arith,
}
use evo_harness_preview.Proof.Graph.{Decomposition, completed}
use evo_harness_preview.Proof.Store.State.{Store, empty_store, ok, decomposition}
use evo_harness_preview.Proof.Policy.{
  Trust, audited, claimed, AxiomPolicy, new_policy, classify, accepts, blocking, unverified_native,
  sorry_axiom,
}
use evo_harness_preview.Proof.Policy.Blocking.{classify-accepts, mem-blocking_lem}
use evo_harness_preview.Proof.Scope.{GraphScope, under, new_scope, settle_scope}
use evo_harness_preview.Proof.Scope.Settling.{Agrees, settle_scope_lem}
use evo_harness_preview.Proof.Assembly.{chosen, pinned, pin_map, route_for}
use evo_harness_preview.Proof.Assembly.Routes.{route_for_lem, pin_map_lem}

abbrev policy : AxiomPolicy
policy = record { minimum_trust = audited }

abbrev axioms : List String
axioms = "propext" ∷ "sorryAx" ∷ "f._native.native_decide.ax_1" ∷ []

abbrev no_recheck : String → Option Bool
no_recheck name = none

classify-accepts_example :
    (t : Trust) × (classify axioms no_recheck ≡ some t)
    × ((accepts policy t ≡ true) ↔ (blocking policy axioms no_recheck ≡ []))
classify-accepts_example = classify-accepts policy axioms no_recheck

policy_passes : new_policy audited ≡ some policy
unfolding new_policy
policy_passes = refl

mem-blocking_example :
    (Memᴰ sorry_axiom axioms → Memᴰ sorry_axiom (blocking policy axioms no_recheck))
    × (audited ≢ claimed
        → (a : String) → Memᴰ a (unverified_native axioms no_recheck)
        → Memᴰ a (blocking policy axioms no_recheck))
mem-blocking_example = mem-blocking_lem policy axioms no_recheck audited policy_passes

abbrev scope : GraphScope
scope = record {
  environment = "local:bare";
  minimum_trust = "audited";
  identity_hasher = "exact-text";
  preamble_sha256 = "e3b0";
  base_id = "";
  axiom_policy_version = 1;
  envelope_schema_version = 1;
  goalkey_schema_version = 1;
  scope_version = 1;
}

abbrev no_scope : Option GraphScope
no_scope = none

abbrev two : ℕ
two = 2

opened : settle_scope (some scope) true 2 none ≡ (under (some scope), some scope)
unfolding settle_scope
opened = refl

settle_scope_example :
    (some scope ≡ some scope)
    × Agrees scope scope
    × ((no_scope ≡ some scope)
        ⊎ ((no_scope ≡ none) × (scope ≡ scope) × ((two ≡ 0) ⊎ (true ≡ true))))
settle_scope_example = settle_scope_lem scope true two no_scope (some scope) scope opened

never_opened : (s : Option GraphScope) → (settle_scope (some scope) false 2 none).0 ≢ under s
unfolding settle_scope
never_opened s e = absurd (ground arith)

scope_passes : new_scope scope ≡ some scope
unfolding new_scope
scope_passes = refl

abbrev closing_route : Decomposition
closing_route = record {
  id = 4;
  goal_id = 1;
  subgoal_ids = 2 ∷ [];
  status = completed;
  rejected_reason = "";
}

abbrev closed : Store
closed = record empty_store { decompositions = closing_route ∷ [] }

route_found : route_for 1 [] closed ≡ chosen (some closing_route)
unfolding route_for
route_found = refl

route_for_example :
    Memᴰ closing_route closed.decompositions
    × (closing_route.goal_id ≡ 1)
    × (completed ≡ completed)
    × ((pinned [] 1 ≡ some closing_route.id)
        ⊎ ((pinned [] 1 ≡ none)
            × ((e : Decomposition)
                → Memᴰ e closed.decompositions
                → e.goal_id ≡ 1
                → e.status ≡ completed
                → e ≡ closing_route)))
route_for_example = route_for_lem 1 [] closed closing_route route_found

pins_found : pin_map closed (4 ∷ []) ≡ chosen ((1, 4) ∷ [])
unfolding pin_map
pins_found = refl

pin_map_example :
    (d : Decomposition) × (decomposition 4 closed ≡ ok d)
    × (d.status ≡ completed)
    × (pinned ((1, 4) ∷ []) d.goal_id ≡ some 4)
pin_map_example = pin_map_lem closed (4 ∷ []) ((1, 4) ∷ []) pins_found 4 (Memᴰ.head refl)
