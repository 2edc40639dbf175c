-- ===== src/Population/Tests.antt =====
-- The theorems on the population, at a small one.
use mathlib.Core.List.Memᴰ
use evo_harness_preview.Prelude.{
  ℕ, zero, suc, ap, ◌≤◌, ◌≡◌, ◌⊎◌, inl, refl, Bool, true, false, none, some, List, [], ◌∷◌, Memᴰ,
  count, Distinct, arith,
}
use evo_harness_preview.Population.{Candidate, Metadata, PopulationConfig, Population, ok}
use evo_harness_preview.Population.Rows.{
  candidate_key, insert, latest_failed, mark_repair_attempted,
}
use evo_harness_preview.Population.Rows.Islands.{ArePlaced, IsIsland, insert-ArePlaced}
use evo_harness_preview.Population.Rows.Repairs.{waits, latest_failed-mark}
use evo_harness_preview.Population.Archive.{refresh_archive}
use evo_harness_preview.Population.Archive.Best.{refresh_archive-le}
use evo_harness_preview.Population.Migration.{elite_of, maybe_migrate}
use evo_harness_preview.Population.Migration.Moves.{IsAfter, maybe_migrate-IsAfter}
use evo_harness_preview.Population.Migration.Elite.{maybe_migrate_elite}

abbrev cfg : PopulationConfig
cfg = record {
  num_islands = 2;
  archive_size = 1;
  feature_buckets = false;
  archive_feature_metric = "";
  archive_feature_quality = "";
  archive_feature_reserve = 0;
  has_bucket = false;
  bucket = λ v. v;
  zero_fitness = 0;
  has_migration = true;
  migration_interval = 1;
  migration_share = λ n. 1;
  island_elitism = true;
}

abbrev fresh : Metadata
fresh = record {
  quarantined = false;
  repair_attempted = false;
  seed_copy_of = none;
  migration_history = [];
}

abbrev graded : ℕ → ℕ → Bool → Candidate
graded id score passed = record {
  id = id;
  code = "pass";
  generation = 1;
  parent_id = none;
  island_idx = some 0;
  operator = "revise";
  change_title = "";
  change_summary = "";
  report = some (record { fitness = score; passed = passed; visible_metrics = λ key. none });
  behavior_signature = none;
  behavior_duplicate = false;
  children_count = 0;
  in_archive = false;
  metadata = fresh;
  timestamp = id;
  workspace_kind = "file";
}

-- Two that passed and one that failed, all on island 0.
abbrev population : Population
population = record {
  readonly = false;
  candidates = graded 1 5 true ∷ graded 2 9 true ∷ graded 3 0 false ∷ [];
}

abbrev distinct : Distinct candidate_key population.candidates
distinct = (refl, (refl, (refl, tt)))

population-IsIsland : (c : Candidate) → Memᴰ c population.candidates → IsIsland cfg c.island_idx
population-IsIsland c (Memᴰ.head e) = (0, ap Candidate.island_idx e, omega arith)
population-IsIsland c (Memᴰ.tail (Memᴰ.head e)) = (0, ap Candidate.island_idx e, omega arith)
population-IsIsland c (Memᴰ.tail (Memᴰ.tail (Memᴰ.head e))) =
    (0, ap Candidate.island_idx e, omega arith)
population-IsIsland c (Memᴰ.tail (Memᴰ.tail (Memᴰ.tail m))) = absurd (Memᴰ.not-nil m)

abbrev newcomer : Candidate
newcomer = record (graded 4 8 true) { island_idx = none }

abbrev joined : Population
joined = record {
  readonly = false;
  candidates =
      graded 1 5 true
      ∷ graded 2 9 true
      ∷ graded 3 0 false
      ∷ record (graded 4 8 true) { island_idx = some 1 }
      ∷ [];
}

inserted : insert cfg 0 7 newcomer population ≡ ok joined
unfolding insert
inserted = refl

insert-ArePlaced_example : ArePlaced cfg joined.candidates
insert-ArePlaced_example =
    insert-ArePlaced cfg 0 7 newcomer population joined (omega arith) (inl refl)
      (distinct, population-IsIsland) inserted

offered : latest_failed population ≡ some (graded 3 0 false)
unfolding latest_failed
offered = refl

latest_failed-mark_example :
    Memᴰ (graded 3 0 false) population.candidates
    × (waits (graded 3 0 false) ≡ true)
    × ((d : Candidate) → Memᴰ d population.candidates → (waits d ≡ false) ⊎ (d.timestamp ≤ 3))
    × (p' : Population) × (mark_repair_attempted 3 population ≡ ok p')
    × (suc (count waits p'.candidates) ≡ count waits population.candidates)
latest_failed-mark_example = latest_failed-mark population (graded 3 0 false) refl distinct offered

abbrev archived : Population
archived = record {
  readonly = false;
  candidates =
      graded 1 5 true ∷ record (graded 2 9 true) { in_archive = true } ∷ graded 3 0 false ∷ [];
}

refreshed : refresh_archive cfg population ≡ ok archived
unfolding refresh_archive
refreshed = refl

refresh_archive-le_example : count (λ c. c.in_archive) archived.candidates ≤ 1
refresh_archive-le_example = refresh_archive-le cfg population archived distinct refreshed

-- The generator moves the first eligible candidate of island 0 to the first other island.
abbrev choose : ℕ → ℕ → ℕ → List (ℕ × ℕ)
choose zero len n = (0, 0) ∷ []
choose (suc idx) len n = []

abbrev traveller : Candidate
traveller = record (graded 1 5 true) {
  island_idx = some 1;
  metadata = record fresh { migration_history = (3, 0, 1) ∷ [] };
}

abbrev spread : Population
spread = record {
  readonly = false;
  candidates = traveller ∷ graded 2 9 true ∷ graded 3 0 false ∷ [];
}

migrated : maybe_migrate cfg choose 3 population ≡ ok (1, spread)
unfolding maybe_migrate
migrated = refl

maybe_migrate-IsAfter_example : IsAfter cfg choose 3 population traveller
maybe_migrate-IsAfter_example =
    maybe_migrate-IsAfter cfg choose 3 population spread 1 distinct migrated traveller
      (Memᴰ.head refl)

top : elite_of cfg choose 0 population ≡ some (graded 2 9 true)
unfolding elite_of
top = refl

maybe_migrate_elite_example : graded 2 9 true ≡ graded 2 9 true
maybe_migrate_elite_example =
    maybe_migrate_elite cfg choose 3 population spread 1 0 (graded 2 9 true) (graded 2 9 true)
      distinct refl top migrated (Memᴰ.tail (Memᴰ.head refl)) refl
