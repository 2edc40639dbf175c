-- ===== src/Population/Migration.antt =====
-- evoharness/core/population.py: `maybe_migrate`, the moves of candidates between islands.
--
-- `choose idx len n` is what the generator draws for an island: `n` positions among its `len`
-- eligible candidates, each with the position that it draws among the other islands. A position
-- that is out of range, which `rng.choice` never gives, moves nobody.
pub mod Draws
pub mod Moves
pub mod Elite
use Prim.Native.Nat.{◌%◌}
use evo_harness_preview.Prelude.{
  ℕ, zero, suc, ◌+◌, Bool, true, false, not, ◌&&◌, ◌||◌, Option, none, some, List, [], ◌∷◌, ◌++◌,
  length, filter_where, update_key, ltb, leb, ◌==◌, if◌then◌else◌,
}
use evo_harness_preview.Population.{
  Candidate, Metadata, PopulationConfig, Population, Result, ok, err, zero_division_error,
  has_passed, fitness,
}
use evo_harness_preview.Population.Rows.{candidate_key, writing, island_view, max_by}

abbrev pub nth {ℓ} : {A : Type ℓ} → List A → ℕ → Option A
nth [] k = none
nth (c ∷ cs) zero = some c
nth (c ∷ cs) (suc k) = nth cs k

-- `range(n)`, upwards from `first`.
abbrev pub islands_from : ℕ → ℕ → List ℕ
islands_from first zero = []
islands_from first (suc n) = first ∷ islands_from (suc first) n

-- A candidate as it was read, where it stands, and where it goes.
pub record Move : Type 0 where
  pub candidate : Candidate
  pub source : ℕ
  pub target : ℕ

-- The row of a move: a new island, and one entry more in the history that was read.
abbrev pub moved : ℕ → Move → Candidate → Candidate
moved generation m row =
    let meta = m.candidate.metadata in
    record row {
      island_idx = some m.target;
      metadata = record meta {
        migration_history = meta.migration_history ++ (generation, m.source, m.target) ∷ [];
      };
    }

module _ (cfg : PopulationConfig) (choose : ℕ → ℕ → ℕ → List (ℕ × ℕ)) where
  unfoldable pub elite_of : ℕ → Population → Option Candidate
  unfolding island_view has_passed fitness
  elite_of idx p = max_by (fitness cfg) (filter_where has_passed (island_view idx p))

  -- With elitism the best of an island stays.
  abbrev pub is_elite : Option Candidate → Candidate → Bool
  is_elite none c = false
  is_elite (some top) c = cfg.island_elitism && (c.id == top.id)

  unfoldable pub eligible_on : ℕ → Population → List Candidate
  unfolding elite_of island_view has_passed
  eligible_on idx p =
      filter_where (λ c. ltb 0 c.generation && not (is_elite (elite_of idx p) c))
        (filter_where has_passed (island_view idx p))

  -- `min(max(1, int(len * rate)), len(eligible))`
  unfoldable pub migrants : ℕ → Population → ℕ
  unfolding eligible_on island_view
  migrants idx p =
      let share = cfg.migration_share (length (island_view idx p)) in
      let wanted = if leb share 1 then 1 else share in
      let there = length (eligible_on idx p) in if leb wanted there then wanted else there

  -- `[d for d in range(cfg.num_islands) if d != idx]`
  unfoldable pub targets_of : ℕ → List ℕ
  targets_of idx = filter_where (λ d. not (d == idx)) (islands_from 0 cfg.num_islands)

  abbrev pub move_of : ℕ → Option Candidate → Option ℕ → List Move
  move_of idx (some c) (some target) = record { candidate = c; source = idx; target = target } ∷ []
  move_of idx _ _ = []

  unfoldable pub pick_each : ℕ → List Candidate → List (ℕ × ℕ) → List Move
  unfolding targets_of
  pick_each idx eligible [] = []
  pick_each idx eligible ((k, j) ∷ rest) =
      move_of idx (nth eligible k) (nth (targets_of idx) j) ++ pick_each idx eligible rest

  unfoldable pub moves_from : ℕ → Population → List Move
  unfolding eligible_on migrants pick_each
  moves_from idx p =
      let eligible = eligible_on idx p in
      if length eligible == 0
      then []
      else pick_each idx eligible (choose idx (length eligible) (migrants idx p))

  -- All moves are drawn from the rows as they were, and then written.
  unfoldable pub all_moves : ℕ → ℕ → Population → List Move
  unfolding moves_from
  all_moves zero idx p = []
  all_moves (suc n) idx p = moves_from idx p ++ all_moves n (suc idx) p

  unfoldable pub apply_moves : ℕ → List Move → List Candidate → List Candidate
  apply_moves generation [] rows = rows
  apply_moves generation (m ∷ ms) rows =
      apply_moves generation ms (update_key candidate_key m.candidate.id (moved generation m) rows)

  unfoldable pub maybe_migrate : ℕ → Population → Result (ℕ × Population)
  unfolding all_moves apply_moves
  maybe_migrate generation p =
      let moves = all_moves cfg.num_islands 0 p in
      writing p (
        if not cfg.has_migration || ltb cfg.num_islands 2
        then ok (0, p)
        else if generation == 0
        then ok (0, p)
        else if cfg.migration_interval == 0
        then err zero_division_error
        else if not (generation % cfg.migration_interval == 0)
        then ok (0, p)
        else ok (length moves, record p { candidates = apply_moves generation moves p.candidates }))
