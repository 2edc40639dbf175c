-- ===== src/Population/Archive/Kept.antt =====
-- Which ids the archive keeps, and how many.
use mathlib.Core.List.Memᴰ
use evo_harness_preview.Prelude.{
  ℕ, zero, suc, ◌+◌, ◌≤◌, ◌≡◌, refl, Bool, false, ◌||◌, none, List, [], ◌∷◌, ◌++◌, length, any,
  contains, Memᴰ, find_key, Distinct, arith, leb, ◌==◌, if◌then◌else◌, any-concat, length-append,
  filter_where, ap,
}
use evo_harness_preview.Prelude.Sorting.{take, sort}
use evo_harness_preview.Population.{Candidate, PopulationConfig}
use evo_harness_preview.Population.Rows.{candidate_key}
use evo_harness_preview.Population.Archive.{
  add_key, add_all, fill, min_of, reserved, keep_of, bucket_elites, beats, is_eligible,
}

length-if : (b : Bool) (l : List ℕ) (n : ℕ) → length l ≤ n → length (if b then l else []) ≤ n
length-if b l n h = ground (arith, h)

module _ (cfg : PopulationConfig) where
  length-add_key : (id : ℕ) (keep : List ℕ) → length (add_key cfg id keep) ≤ suc (length keep)
  length-add_key id keep = ground (arith, length-append keep (id ∷ []))

  length-add_all :
      (n : ℕ) (cs : List Candidate) (keep : List ℕ)
      → length (add_all cfg (take n cs) keep) ≤ n + length keep
  length-add_all zero cs keep = omega arith
  length-add_all (suc n) [] keep = omega arith
  length-add_all (suc n) (c ∷ cs) keep =
      omega (arith, length-add_all n cs (add_key cfg c.id keep), length-add_key c.id keep)

  length-fill :
      (size : ℕ) (cs : List Candidate) (keep : List ℕ)
      → length keep ≤ size
      → length (fill cfg size cs keep) ≤ size
  length-fill size [] keep h = h
  length-fill size (c ∷ cs) keep h =
      length-fill size cs _ (ground (arith, length-add_key c.id keep))

  min_of-le : (a b : ℕ) → min_of cfg a b ≤ b
  min_of-le a b = ground arith

  length-reserved : (cs : List Candidate) → length (reserved cfg cs) ≤ cfg.archive_size
  unfolding reserved
  length-reserved cs = length-if cfg.feature_buckets _ cfg.archive_size (
      omega (
        arith,
        length-add_all (min_of cfg cfg.archive_feature_reserve cfg.archive_size)
            (bucket_elites cfg cs) [],
        min_of-le cfg.archive_feature_reserve cfg.archive_size,
      ))

  -- No more ids than the archive has places.
  pub length-keep_of : (rows : List Candidate) → length (keep_of cfg rows) ≤ cfg.archive_size
  unfolding keep_of
  length-keep_of rows =
      let cands = sort (beats cfg) (filter_where is_eligible rows) in
      length-fill cfg.archive_size cands (reserved cfg cands) (length-reserved cands)

  -- A full archive takes nothing more.
  fill_full :
      (size : ℕ) (cs : List Candidate) (keep : List ℕ)
      → size ≤ length keep
      → fill cfg size cs keep ≡ keep
  fill_full size [] keep h = refl
  fill_full size (c ∷ cs) keep h =
      let stays : (if leb size (length keep) then keep else add_key cfg c.id keep) ≡ keep =
        ground (arith, h) in
      rw stays (fill_full size cs keep h)

  differs :
      (k : ℕ) (c : Candidate) (cs : List Candidate)
      → find_key candidate_key k cs ≡ none
      → Memᴰ c cs
      → (k == c.id) ≡ false
  differs k c [] h m = absurd (Memᴰ.not-nil m)
  differs k c (x ∷ cs) h (Memᴰ.head e) = ground (arith, h, ap Candidate.id e)
  differs k c (x ∷ cs) h (Memᴰ.tail m) = differs k c cs (ground (arith, h)) m

  -- The ids of a list without repetition that is filled in behind others.
  pub contains-fill :
      (id size room : ℕ) (cs : List Candidate) (keep : List ℕ)
      → length keep + room ≡ size
      → Distinct candidate_key cs
      → ((c : Candidate) → Memᴰ c cs → contains c.id keep ≡ false)
      → contains id (fill cfg size cs keep)
        ≡ (contains id keep || any (λ c. c.id == id) (take room cs))
  contains-fill id size zero cs keep fits d new =
      rw (fill_full size cs keep (omega (arith, fits))) (ground arith)
  contains-fill id size (suc room) [] keep fits d new = ground arith
  contains-fill id size (suc room) (c ∷ cs) keep fits (apart, d) new =
      let absent = new c (Memᴰ.head refl) in
      let step : (if leb size (length keep) then keep else add_key cfg c.id keep)
          ≡ keep ++ c.id ∷ [] =
        ground (arith, fits, absent) in
      let rest =
        contains-fill id size room cs (keep ++ c.id ∷ [])
          (omega (arith, fits, length-append keep (c.id ∷ []))) d
          (λ c' m. ground (
            arith,
            new c' (Memᴰ.tail m),
            differs c.id c' cs apart m,
            any-concat (λ n. n == c'.id) keep c.id,
          )) in
      rw step (ground (arith, rest, any-concat (λ n. n == id) keep c.id))
