-- ===== src/Prelude/Walk/Ends.antt =====
-- The end of the walk, where every node has its row.
use Prim.Native.Nat.{ℕ, zero, suc, ◌+◌, ◌≤◌, ◌<◌}
use mathlib.Core.List.Memᴰ
use mathlib.Core.Path.{◌≡◌, refl, ap}
use mathlib.Core.Logic.{◌↔◌, inl, inr}
use mathlib.Core.Bool.{Bool, true, false, not}
use mathlib.Core.Option.{Option, some}
use mathlib.Core.List.{List, [], ◌∷◌, Memᴰ}
use native.Mathlib.Omega.{arith}
use evo_harness_preview.Prelude.Tests.{List-cases}
use evo_harness_preview.Prelude.Lists.{count, length}
use evo_harness_preview.Prelude.Walk.{Walking, visited, is_seen, offer, scan, walk}

module _ {K : Type 0} (same : K → K → Bool) (same_iff : (j k : K) → (same j k ≡ true) ↔ (j ≡ k))
    (mark : ℕ → Option K) (next : ℕ → List ℕ) (marks : List K) where
  -- The marks that are not seen yet.
  abbrev unseen : List K → List K → ℕ
  unseen seen = count (λ k. not (is_seen same mark seen k))

  unseen_mono : (k : K) (seen ks : List K) → unseen (k ∷ seen) ks ≤ unseen seen ks
  unseen_mono k seen [] = omega arith
  unseen_mono k seen (j ∷ ks) = ground (arith, unseen_mono k seen ks)

  unseen_falls :
      (k : K) (seen ks : List K)
      → Memᴰ k ks
      → is_seen same mark seen k ≡ false
      → unseen (k ∷ seen) ks < unseen seen ks
  unseen_falls k seen [] m new = absurd (Memᴰ.not-nil m)
  unseen_falls k seen (j ∷ ks) (Memᴰ.head e) new =
      ground (arith, (same_iff k j).1 e, ap (is_seen same mark seen) e, unseen_mono k seen ks)
  unseen_falls k seen (j ∷ ks) (Memᴰ.tail m) new = ground (arith, unseen_falls k seen ks m new)

  abbrev work : Walking K → ℕ
  work w = unseen w.seen marks + length w.frontier

  offer-work-le :
      (k : K) (v : ℕ) (w : Walking K) → Memᴰ k marks → work (offer same mark k v w) ≤ work w
  unfolding offer
  offer-work-le k v w m = ground (arith, unseen_falls k w.seen marks m)

  scan_total :
      (vs : List ℕ) (w : Walking K)
      → ((v : ℕ) → Memᴰ v vs → (k : K) × (mark v ≡ some k) × Memᴰ k marks)
      → (w' : Walking K) × (scan same mark vs w ≡ some w') × (work w' ≤ work w)
  unfolding scan
  scan_total [] w rows = (w, refl, omega arith)
  scan_total (v ∷ vs) w rows =
      let (k, e, m) = rows v (Memᴰ.head refl) in
      let (w', e', le) = scan_total vs (offer same mark k v w) (λ u mu. rows u (Memᴰ.tail mu)) in
      (w', rw (e, scan) e', omega (arith, offer-work-le k v w m))

  -- Fuel for the unseen marks and the stack is enough.
  pub walk_ends :
      ((u v : ℕ) → Memᴰ v (next u) → (k : K) × (mark v ≡ some k) × Memᴰ k marks)
      → (fuel : ℕ) (w : Walking K) → work w ≤ fuel
      → (seen : List K) × (walk same mark next fuel w ≡ visited seen)
  unfolding walk
  walk_ends rows zero w h = (w.seen, ground arith)
  walk_ends rows (suc fuel) w h = elim (List-cases w.frontier) [
    | inl empty ↦ (w.seen, ground arith)
    | inr (u, rest, e) ↦
        let (w', e', le) = scan_total (next u) (record w { frontier = rest }) (rows u) in
        let (seen, ends) = walk_ends rows fuel w' (omega (arith, ap length e)) in
        (seen, rw (e, e', walk) ends)
  ]
