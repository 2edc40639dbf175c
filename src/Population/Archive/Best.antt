-- ===== src/Population/Archive/Best.antt =====
-- Who stands in the archive after a refresh.
use mathlib.Core.List.Memᴰ
use evo_harness_preview.Prelude.{
  ℕ, ◌≤◌, ◌≡◌, List, map, count, contains, Memᴰ, Distinct, arith, filter_where,
}
use evo_harness_preview.Prelude.Sorting.{sort}
use evo_harness_preview.Population.{Candidate, PopulationConfig, Population, ok}
use evo_harness_preview.Population.Rows.{candidate_key}
use evo_harness_preview.Population.Archive.{beats, is_eligible, keep_of, refresh_archive, archived}
use evo_harness_preview.Population.Archive.Kept.{length-keep_of}
use evo_harness_preview.Population.Archive.Counting.{count-map, count-contains}

module _ (cfg : PopulationConfig) where
  abbrev ranked : List Candidate → List Candidate
  ranked rows = sort (beats cfg) (filter_where is_eligible rows)

  in_archive-archived :
      (keep : List ℕ) (rows : List Candidate)
      → count (λ c. c.in_archive) (map (archived cfg keep) rows)
        ≡ count (λ c. contains c.id keep) rows
  in_archive-archived keep rows = count-map (λ c. c.in_archive) (archived cfg keep) rows

  refreshed :
      (p p' : Population)
      → refresh_archive cfg p ≡ ok p'
      → p'.candidates ≡ map (archived cfg (keep_of cfg p.candidates)) p.candidates
  unfolding refresh_archive
  refreshed p p' h = ground (arith, h)

  -- A refresh of a population whose ids are distinct leaves no more candidates in the archive
  -- than it has places, with feature buckets or without.
  pub refresh_archive-le :
      (p p' : Population)
      → Distinct candidate_key p.candidates
      → refresh_archive cfg p ≡ ok p'
      → count (λ c. c.in_archive) p'.candidates ≤ cfg.archive_size
  refresh_archive-le p p' d h = rw (refreshed p p' h) (
      omega (
        arith,
        in_archive-archived (keep_of cfg p.candidates) p.candidates,
        count-contains (keep_of cfg p.candidates) p.candidates d,
        length-keep_of cfg p.candidates,
      ))
