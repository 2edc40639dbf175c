-- ===== src/Population/Rows.antt =====
-- evoharness/core/population.py: the methods that add candidates, read them and mark them.
--
-- A number that `np.random.randint` draws, and the ids of `new_id`, come from outside.
pub mod Islands
pub mod Repairs
use evo_harness_preview.Prelude.{
  ℕ, zero, suc, ◌+◌, String, Bool, true, false, not, ◌&&◌, ◌||◌, Option, none, some, List, [], ◌∷◌,
  ◌++◌, map, any, filter_where, find_key, update_key, ltb, leb, ◌==◌, if◌then◌else◌, length,
}
use evo_harness_preview.Prelude.Sorting.{sort}
use evo_harness_preview.Population.{
  Candidate, Metadata, PopulationConfig, Population, Error, permission_error, integrity_error,
  Result, ok, err, has_passed, is_repairable, fitness,
}

abbrev pub candidate_key : Candidate → ℕ
candidate_key c = c.id

-- `_assert_writable` before the body of a method.
abbrev pub writing {ℓ} : {A : Type ℓ} → Population → Result A → Result A
writing p r = if p.readonly then err permission_error else r

unfoldable pub get : ℕ → Population → Option Candidate
get id p = find_key candidate_key id p.candidates

unfoldable note_attempt : ℕ → Population → Result Population
note_attempt parent_id p = writing p (
    ok (record p {
      candidates =
          update_key candidate_key parent_id
            (λ c. record c { children_count = c.children_count + 1 }) p.candidates;
    }))

-- `island_idx = ?` for a stored row.
abbrev pub is_on : ℕ → Candidate → Bool
is_on idx c = elim c.island_idx [ none ↦ false | some i ↦ i == idx ]

-- The first of `n` islands from `idx` on that holds no selectable candidate.
unfoldable pub first_empty : ℕ → ℕ → List Candidate → Option ℕ
unfolding has_passed
first_empty zero idx rows = none
first_empty (suc n) idx rows =
    let rest = first_empty n (suc idx) rows in
    if any (λ c. is_on idx c && has_passed c) rows then rest else some idx

abbrev parent_island : Option ℕ → List Candidate → Option Candidate
parent_island none rows = none
parent_island (some parent) rows = find_key candidate_key parent rows

abbrev pub is_unassigned : Option ℕ → Bool
is_unassigned none = true
is_unassigned (some _) = false

module _ (cfg : PopulationConfig) where
  abbrev or_drawn : Option ℕ → ℕ → ℕ
  or_drawn none drawn = drawn
  or_drawn (some idx) drawn = idx

  unfoldable pub assign_island : ℕ → Candidate → List Candidate → Option ℕ
  unfolding first_empty has_passed
  assign_island drawn c rows = elim (parent_island c.parent_id rows) [
    | some parent ↦ parent.island_idx
    | none ↦
        some (if has_passed c then or_drawn (first_empty cfg.num_islands 0 rows) drawn else drawn)
  ]

  -- The row of a candidate, with an island and with the time, which `_to_row` writes for a 0.
  unfoldable pub placed : (drawn now : ℕ) → Candidate → List Candidate → Candidate
  unfolding assign_island
  placed drawn now c rows = record c {
    island_idx = if is_unassigned c.island_idx then assign_island drawn c rows else c.island_idx;
    timestamp = if c.timestamp == 0 then now else c.timestamp;
  }

  -- PRIMARY KEY refuses an id that is there.
  unfoldable pub insert : (drawn now : ℕ) → Candidate → Population → Result Population
  unfolding placed
  insert drawn now c p = writing p (elim (find_key candidate_key c.id p.candidates) [
    | some _ ↦ err integrity_error
    | none ↦ ok (record p { candidates = p.candidates ++ placed drawn now c p.candidates ∷ [] })
  ])

  -- A copy of the seed for one island; `fresh` is a new id.
  unfoldable seed_copy : Candidate → ℕ → ℕ → Candidate
  seed_copy seed idx fresh =
      let at_home = is_on idx seed in
      record seed {
        id = if at_home then seed.id else fresh;
        generation = 0;
        parent_id = none;
        island_idx = some idx;
        operator = "seed";
        behavior_duplicate = false;
        children_count = 0;
        in_archive = false;
        metadata =
            if at_home
            then seed.metadata
            else record (seed.metadata) { seed_copy_of = some seed.id };
        timestamp = 0;
      }

  -- The loop over the islands, each with the id that `new_id` would draw for it.
  unfoldable seed_islands : (now : ℕ) → Candidate → List (ℕ × ℕ) → Population → Result Population
  unfolding insert seed_copy
  seed_islands now seed [] p = ok p
  seed_islands now seed ((idx, fresh) ∷ rest) p = elim (insert 0 now (seed_copy seed idx fresh) p) [
    | err e ↦ err e
    | ok p' ↦ seed_islands now seed rest p'
  ]

  unfoldable seed_all_islands :
      (now : ℕ) → Candidate → List (ℕ × ℕ) → Population → Result Population
  unfolding seed_islands
  seed_all_islands now seed islands p = writing p (seed_islands now seed islands p)

-- `ORDER BY generation, timestamp`
unfoldable pub earlier : Candidate → Candidate → Bool
earlier a b =
    ltb a.generation b.generation || (a.generation == b.generation) && ltb a.timestamp b.timestamp

unfoldable all_candidates : Population → List Candidate
unfolding earlier
all_candidates p = sort earlier p.candidates

abbrev is_reported : Candidate → Bool
is_reported c = elim c.report [ none ↦ false | some _ ↦ true ]

-- `island_view(idx).candidates`
unfoldable pub island_view : ℕ → Population → List Candidate
unfolding earlier
island_view idx p = sort earlier (filter_where (λ c. is_on idx c && is_reported c) p.candidates)

-- `max(…, key=…)`: the first of those with the greatest value.
abbrev pub max_by : (Candidate → ℕ) → List Candidate → Option Candidate
max_by value [] = none
max_by value (c ∷ cs) = elim (max_by value cs) [
  | none ↦ some c
  | some best ↦ some (if leb (value best) (value c) then c else best)
]

unfoldable pub best : PopulationConfig → Population → Option Candidate
unfolding has_passed fitness
best cfg p = max_by (fitness cfg) (filter_where has_passed p.candidates)

-- `ORDER BY timestamp DESC LIMIT 1`
abbrev latest_of : List Candidate → Option Candidate
latest_of cs = max_by (λ c. c.timestamp) cs

unfoldable pub latest_failed : Population → Option Candidate
unfolding is_repairable
latest_failed p =
    latest_of (filter_where (λ c. is_repairable c && not c.metadata.repair_attempted) p.candidates)

unfoldable pub mark_repair_attempted : ℕ → Population → Result Population
mark_repair_attempted id p = writing p (elim (find_key candidate_key id p.candidates) [
  | none ↦ ok p
  | some c ↦ ok (record p {
    candidates =
        update_key candidate_key id
          (λ row. record row { metadata = record (c.metadata) { repair_attempted = true } })
          p.candidates;
  })
])

-- The flags that observers set on a candidate.
unfoldable update_candidate_flags : Candidate → Population → Result Population
update_candidate_flags c p = writing p (
    ok (record p {
      candidates =
          update_key candidate_key c.id
            (λ row. record row {
              behavior_signature = c.behavior_signature;
              behavior_duplicate = c.behavior_duplicate;
              metadata = c.metadata;
            })
            p.candidates;
    }))
