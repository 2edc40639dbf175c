-- ===== src/Proof/Assembly.antt =====
-- evoharness/proof/assembly.py: which proof or route a goal is assembled from. The text itself, its
-- compilation and its certificate are not modelled.
pub mod Routes
use evo_harness_preview.Prelude.{
  ℕ, String, Bool, true, false, not, ◌&&◌, Option, none, some, List, [], ◌∷◌, map, find_key,
  filter_where, ◌==◌, str_eq, if◌then◌else◌,
}
use evo_harness_preview.Proof.Graph.{Decomposition, Attempt, Outcome, is_proof, is_completed}
use evo_harness_preview.Proof.Store.State.{
  Store, Result, ok, err, decomposition, decompositions_of, attempts_of,
}
use evo_harness_preview.Proof.Solver.{has_text}

-- What these functions raise: AssemblyError, AmbiguousRoute with its routes, and the store's
-- KeyError.
pub data AssemblyFault : Type 0 where
  assembly_error no_such_row : AssemblyFault
  ambiguous_route : List ℕ → AssemblyFault

pub data Chosen {ℓ} (A : Type ℓ) : Type ℓ where
  chosen : A → Chosen A
  refused : AssemblyFault → Chosen A

-- A dictionary from goals to routes, as a list of pairs without a key twice.
abbrev pin_key : ℕ × ℕ → ℕ
pin_key p = p.0

abbrev pub pinned : List (ℕ × ℕ) → ℕ → Option ℕ
pinned pins goal_id = elim (find_key pin_key goal_id pins) [ none ↦ none | some p ↦ some p.1 ]

-- The loop of `_pin_map`, with the pins so far; a pin set again is the same pin.
unfoldable pub pin_each : Store → List ℕ → List (ℕ × ℕ) → Chosen (List (ℕ × ℕ))
unfolding decomposition
pin_each s [] pins = chosen pins
pin_each s (route_id ∷ routes) pins = elim (decomposition route_id s) [
  | err e ↦ refused no_such_row
  | ok d ↦
      let kept = pin_each s routes pins in
      let added = pin_each s routes ((d.goal_id, route_id) ∷ pins) in
      if not (is_completed d.status) then refused assembly_error else elim (pinned pins d.goal_id) [
        | none ↦ added
        | some already ↦ if already == route_id then kept else refused assembly_error
      ]
]

unfoldable pub pin_map : Store → List ℕ → Chosen (List (ℕ × ℕ))
unfolding pin_each
pin_map s routes = pin_each s routes []

abbrev pub completed_of : ℕ → Store → List Decomposition
completed_of goal_id s =
    filter_where (λ (d : Decomposition). is_completed d.status) (decompositions_of goal_id s)

abbrev pub find_route : ℕ → List Decomposition → Option Decomposition
find_route route_id ds = find_key (λ (d : Decomposition). d.id) route_id ds

abbrev pub only_route : List Decomposition → Chosen (Option Decomposition)
only_route [] = chosen none
only_route (d ∷ []) = chosen (some d)
only_route (d ∷ e ∷ rest) =
    refused (ambiguous_route (map (λ (r : Decomposition). r.id) (d ∷ e ∷ rest)))

unfoldable pub route_for : ℕ → List (ℕ × ℕ) → Store → Chosen (Option Decomposition)
unfolding decompositions_of
route_for goal_id pins s =
    let completed = completed_of goal_id s in
    elim (pinned pins goal_id) [
      | some route_id ↦ elim (find_route route_id completed) [
        | some d ↦ chosen (some d)
        | none ↦ refused assembly_error
      ]
      | none ↦ only_route completed
    ]

abbrev pub first_proof : List Attempt → Chosen (Option String)
first_proof [] = chosen none
first_proof (a ∷ rest) =
    let later = first_proof rest in
    if is_proof a.outcome
    then if has_text a.proof_text then chosen a.proof_text else refused assembly_error
    else later

unfoldable pub direct_proof : ℕ → Store → Chosen (Option String)
unfolding attempts_of
direct_proof goal_id s = first_proof (attempts_of goal_id s)

-- The route that `assemble` uses for the goal itself.
unfoldable top_route : ℕ → List (ℕ × ℕ) → Store → Chosen (Option Decomposition)
unfolding direct_proof route_for
top_route goal_id pins s = elim (pinned pins goal_id) [
  | some _ ↦ route_for goal_id pins s
  | none ↦ elim (direct_proof goal_id s) [
    | refused e ↦ refused e
    | chosen (some _) ↦ chosen none
    | chosen none ↦ route_for goal_id pins s
  ]
]
