-- ===== src/Population/Migration/Elite.antt =====
-- With elitism the best candidate of an island does not move.
use evo_harness_preview.Prelude.{
  ℕ, ◌≡◌, inl, inr, ap, ◌∙◌, true, false, some, List, Memᴰ, Distinct, arith, filter_where,
  filter_where_iff,
}
use evo_harness_preview.Population.{
  Candidate, PopulationConfig, Population, ok, has_passed, fitness,
}
use evo_harness_preview.Population.Rows.{candidate_key, island_view}
use evo_harness_preview.Population.Rows.Repairs.{max_by_lem}
use evo_harness_preview.Population.Archive.Counting.{same_row}
use evo_harness_preview.Population.Migration.{Move, elite_of, is_elite, maybe_migrate}
use evo_harness_preview.Population.Migration.Draws.{view_lem, on_lem}
use evo_harness_preview.Population.Migration.Moves.{kept_id, maybe_migrate-IsAfter}

module _ (cfg : PopulationConfig) (choose : ℕ → ℕ → ℕ → List (ℕ × ℕ)) where
  elite_lem :
      (idx : ℕ) (p : Population) (top : Candidate)
      → elite_of cfg choose idx p ≡ some top
      → Memᴰ top p.candidates × (top.island_idx ≡ some idx)
  unfolding elite_of
  elite_lem idx p top h =
      let (m, _) = max_by_lem (fitness cfg) (filter_where has_passed (island_view idx p)) top h in
      let (listed, _) = (filter_where_iff has_passed top (island_view idx p)).0 m in
      let (there, on) = view_lem idx p top listed in (there, on_lem idx top on)

  not_moved :
      (idx : ℕ) (p : Population) (top : Candidate) (m : Move)
      → cfg.island_elitism ≡ true
      → elite_of cfg choose idx p ≡ some top
      → top.island_idx ≡ some idx
      → m.candidate ≡ top
      → m.candidate.island_idx ≡ some m.source
      → ¬ (is_elite cfg choose (elite_of cfg choose m.source p) m.candidate ≡ false)
  not_moved idx p top m elitism best on same at stays =
      let here : m.source ≡ idx = ground (arith, on, at, ap Candidate.island_idx same) in
      ground
        (arith, elitism, best, stays, ap (λ i. elite_of cfg choose i p) here, ap Candidate.id same)

  -- Whatever the generator draws, if the ids are distinct and elitism is on, the best passed
  -- candidate of an island is after a migration that returns as it was.
  pub maybe_migrate_elite :
      (generation : ℕ) (p p' : Population) (n idx : ℕ) (top row : Candidate)
      → Distinct candidate_key p.candidates
      → cfg.island_elitism ≡ true
      → elite_of cfg choose idx p ≡ some top
      → maybe_migrate cfg choose generation p ≡ ok (n, p')
      → Memᴰ row p'.candidates
      → row.id ≡ top.id
      → row ≡ top
  maybe_migrate_elite generation p p' n idx top row d elitism best h m e =
      let (r, there, was) = maybe_migrate-IsAfter cfg choose generation p p' n d h row m in
      let (listed, on) = elite_lem idx p top best in
      let same : r ≡ top =
        same_row p.candidates d r top there listed
          (kept_id cfg choose generation row r p was ∙ e) in
      elim was [
        | inl stayed ↦ stayed ∙ same
        | inr (move, (_, _, _, at, stays, _, _), is, _) ↦
            absurd (not_moved idx p top move elitism best on (is ∙ same) at stays)
      ]
