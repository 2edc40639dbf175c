-- ===== src/Prelude/Walk.antt =====
-- A walk over the nodes that a graph reaches from one of them, by a stack and a list of the marks
-- seen. `mark v` is `none` where a node's row is missing, and the walk raises there.
pub mod Ends
pub mod Finds
use Prim.Native.Nat.{ℕ, zero, suc}
use mathlib.Core.Path.{◌≡◌}
use mathlib.Core.Bool.{Bool}
use mathlib.Core.Option.{Option, none, some}
use mathlib.Core.List.{List, [], ◌∷◌, Memᴰ}
use evo_harness_preview.Prelude.Tests.{if◌then◌else◌}
use evo_harness_preview.Prelude.Lists.{any}

pub record Walking (K : Type 0) : Type 0 where
  pub seen : List K
  pub frontier : List ℕ

pub data Walked (K : Type 0) : Type 0 where
  visited : List K → Walked K
  missing_row out_of_fuel : Walked K

module _ {K : Type 0} (same : K → K → Bool) (mark : ℕ → Option K) where
  abbrev pub is_seen : List K → K → Bool
  is_seen seen k = any (λ j. same j k) seen

  -- The body of the inner loop: a node whose mark is new is marked and put on the stack.
  unfoldable pub offer : K → ℕ → Walking K → Walking K
  offer k v w =
      if is_seen w.seen k then w else record { seen = k ∷ w.seen; frontier = v ∷ w.frontier }

  unfoldable pub scan : List ℕ → Walking K → Option (Walking K)
  unfolding offer
  scan [] w = some w
  scan (v ∷ vs) w = elim (mark v) [ none ↦ none | some k ↦ scan vs (offer k v w) ]

  module _ (next : ℕ → List ℕ) where
    unfoldable pub walk : ℕ → Walking K → Walked K
    unfolding scan
    walk zero w = elim w.frontier [ [] ↦ visited w.seen | _ ∷ _ ↦ out_of_fuel ]
    walk (suc fuel) w = elim w.frontier [
      | [] ↦ visited w.seen
      | u ∷ rest ↦ elim (scan (next u) (record w { frontier = rest })) [
        | none ↦ missing_row
        | some w' ↦ walk fuel w'
      ]
    ]

-- The nodes that one step or more leads to.
pub data Below (next : ℕ → List ℕ) (src : ℕ) : ℕ → Type 0 where
  one : {v : ℕ} → Memᴰ v (next src) → Below next src v
  more : {u v : ℕ} → Below next src u → Memᴰ v (next u) → Below next src v
