-- ===== src/Population/Archive.antt =====
-- evoharness/core/population.py: the elite archive, with slots that are kept for feature buckets. A
-- reserve below 0 is one of 0.
pub mod Counting
pub mod Kept
pub mod Best
use evo_harness_preview.Prelude.{
  ℕ, suc, String, Bool, true, false, not, ◌&&◌, ◌||◌, Option, none, some, List, [], ◌∷◌, ◌++◌, map,
  length, contains, filter_where, find_key, ltb, leb, ◌==◌, str_eq, if◌then◌else◌,
}
use evo_harness_preview.Prelude.Sorting.{sort, take}
use evo_harness_preview.Population.{
  Candidate, PopulationConfig, Population, Result, ok, has_passed, fitness, metric,
}
use evo_harness_preview.Population.Rows.{writing}

-- `-feature`, with the infinite cost where there is no feature: less is better.
abbrev is_cheaper : Option ℕ → Option ℕ → Bool
is_cheaper none b = false
is_cheaper (some a) none = true
is_cheaper (some a) (some b) = ltb a b

-- WHERE passed, not quarantined, and no duplicate.
unfoldable pub is_eligible : Candidate → Bool
unfolding has_passed
is_eligible c = has_passed c && not c.behavior_duplicate

module _ (cfg : PopulationConfig) where
  unfoldable pub feature : Candidate → Option ℕ
  unfolding metric
  feature c = metric c cfg.archive_feature_metric

  abbrev or_fitness : Candidate → Option ℕ → ℕ
  or_fitness c none = fitness cfg c
  or_fitness c (some value) = value

  unfoldable quality : Candidate → ℕ
  unfolding metric
  quality c = or_fitness c (metric c cfg.archive_feature_quality)

  -- The sort of `refresh_archive`, greatest first: fitness, cost, id.
  unfoldable pub beats : Candidate → Candidate → Bool
  unfolding feature fitness
  beats a b =
      ltb (fitness cfg b) (fitness cfg a)
      || (fitness cfg a == fitness cfg b)
        && (is_cheaper (feature a) (feature b)
            || not (is_cheaper (feature b) (feature a)) && ltb b.id a.id)

  -- `(quality, id)`, greatest first.
  unfoldable is_finer : Candidate → Candidate → Bool
  unfolding quality
  is_finer a b = ltb (quality b) (quality a) || (quality a == quality b) && ltb b.id a.id

  -- The best of each bucket, as a table from the bucket.
  abbrev bucket_of : (ℕ × Candidate) → ℕ
  bucket_of (idx, c) = idx

  abbrev put_best : ℕ → Candidate → List (ℕ × Candidate) → List (ℕ × Candidate)
  unfolding is_finer
  put_best idx c [] = (idx, c) ∷ []
  put_best idx c ((i, held) ∷ rest) =
      if i == idx
      then (if is_finer c held then (idx, c) ∷ rest else (i, held) ∷ rest)
      else (i, held) ∷ put_best idx c rest

  abbrev bucket_best : List Candidate → List (ℕ × Candidate) → List (ℕ × Candidate)
  unfolding feature is_finer
  bucket_best [] best = best
  bucket_best (c ∷ cs) best =
      bucket_best cs
        (elim (feature c) [ none ↦ best | some value ↦ put_best (cfg.bucket value) c best ])

  abbrev candidate_of : (ℕ × Candidate) → Candidate
  candidate_of (idx, c) = c

  unfoldable pub bucket_elites : List Candidate → List Candidate
  unfolding bucket_best
  bucket_elites cands =
      if str_eq cfg.archive_feature_metric "" || not cfg.has_bucket
      then []
      else sort is_finer (map candidate_of (bucket_best cands []))

  -- `keep[cand.id] = None` of a dict.
  abbrev pub add_key : ℕ → List ℕ → List ℕ
  add_key id keep = if contains id keep then keep else keep ++ id ∷ []

  abbrev pub add_all : List Candidate → List ℕ → List ℕ
  add_all [] keep = keep
  add_all (c ∷ cs) keep = add_all cs (add_key c.id keep)

  -- The loop that breaks at the size; from there on it adds nothing more.
  abbrev pub fill : ℕ → List Candidate → List ℕ → List ℕ
  fill size [] keep = keep
  fill size (c ∷ cs) keep =
      fill size cs (if leb size (length keep) then keep else add_key c.id keep)

  abbrev min_of : ℕ → ℕ → ℕ
  min_of a b = if leb a b then a else b

  -- The slots of the buckets come first.
  unfoldable pub reserved : List Candidate → List ℕ
  unfolding bucket_elites
  reserved cands =
      if cfg.feature_buckets
      then add_all
          (take (min_of cfg.archive_feature_reserve cfg.archive_size) (bucket_elites cands)) []
      else []

  unfoldable pub keep_of : List Candidate → List ℕ
  unfolding reserved beats is_eligible
  keep_of rows =
      let cands = sort beats (filter_where is_eligible rows) in
      fill cfg.archive_size cands (reserved cands)

  abbrev pub archived : List ℕ → Candidate → Candidate
  archived keep c = record c { in_archive = contains c.id keep }

  unfoldable pub refresh_archive : Population → Result Population
  unfolding keep_of
  refresh_archive p =
      let keep = keep_of p.candidates in
      writing p (ok (record p { candidates = map (archived keep) p.candidates }))
