-- ===== src/Population.antt =====
-- evoharness/core/population.py: candidates on islands, the elite archive, and migration.
--
-- An id is a number in the order of the texts, and an unassigned island, which the code writes as a
-- negative number, is none. A fitness, a metric and a time are numbers in a fine unit, in their
-- order; a numeric metric is none where `_metric` gives None. SQLite keeps the rows in the order of
-- their insertion and gives rows that tie in that order. The columns for the embedding, the model and
-- the inspirations are left out; nothing here reads them.
pub mod Rows
pub mod Archive
pub mod Migration
pub mod Tests
use evo_harness_preview.Prelude.{
  ℕ, String, Bool, true, false, not, ◌&&◌, Option, none, some, List, str_eq, if◌then◌else◌,
}

pub record Report : Type 0 where
  pub fitness : ℕ
  pub passed : Bool
  pub visible_metrics : String → Option ℕ

-- The keys of a candidate's metadata that the store reads or writes.
pub record Metadata : Type 0 where
  pub quarantined : Bool
  pub repair_attempted : Bool
  pub seed_copy_of : Option ℕ
  pub migration_history : List (ℕ × ℕ × ℕ)

pub record Candidate : Type 0 where
  pub id : ℕ
  pub code : String
  pub generation : ℕ
  pub parent_id : Option ℕ
  pub island_idx : Option ℕ
  pub operator : String
  pub change_title : String
  pub change_summary : String
  pub report : Option Report
  pub behavior_signature : Option String
  pub behavior_duplicate : Bool
  pub children_count : ℕ
  pub in_archive : Bool
  pub metadata : Metadata
  pub timestamp : ℕ
  pub workspace_kind : String

-- `migration_share n` is `int(n * migration_rate)`, and `zero_fitness` the 0.0 of a candidate without
-- a report. `bucket v` is `math.floor(v / archive_feature_bucket)`.
pub record PopulationConfig : Type 0 where
  pub num_islands : ℕ
  pub archive_size : ℕ
  pub feature_buckets : Bool
  pub archive_feature_metric : String
  pub archive_feature_quality : String
  pub archive_feature_reserve : ℕ
  pub has_bucket : Bool
  pub bucket : ℕ → ℕ
  pub zero_fitness : ℕ
  pub has_migration : Bool
  pub migration_interval : ℕ
  pub migration_share : ℕ → ℕ
  pub island_elitism : Bool

pub data Error : Type 0 where
  permission_error integrity_error zero_division_error : Error

-- The rows, and whether the store was opened for reading alone.
pub record Population : Type 0 where
  pub readonly : Bool
  pub candidates : List Candidate

pub data Result {ℓ} (A : Type ℓ) : Type ℓ where
  ok : A → Result A
  err : Error → Result A

-- `report is not None and report.passed`, and not quarantined: Candidate.passed, _SELECTABLE_SQL and
-- _ARCHIVE_ELIGIBLE_SQL.
abbrev report_passed : Option Report → Bool
report_passed none = false
report_passed (some r) = r.passed

unfoldable pub has_passed : Candidate → Bool
has_passed c = report_passed c.report && not c.metadata.quarantined

-- _REPAIRABLE_SQL, of a row with a report.
abbrev report_failed : Option Report → Bool
report_failed none = false
report_failed (some r) = not r.passed

unfoldable pub is_repairable : Candidate → Bool
is_repairable c = report_failed c.report && not c.metadata.quarantined

module _ (cfg : PopulationConfig) where
  abbrev fitness_in : Option Report → ℕ
  fitness_in none = cfg.zero_fitness
  fitness_in (some r) = r.fitness

  unfoldable pub fitness : Candidate → ℕ
  fitness c = fitness_in c.report

-- `_metric`
abbrev metric_in : String → Option Report → Option ℕ
metric_in key none = none
metric_in key (some r) = if str_eq key "" then none else r.visible_metrics key

unfoldable pub metric : Candidate → String → Option ℕ
metric c key = metric_in key c.report
