-- ===== src/Population/Rows/Islands.antt =====
-- Every row has an id of its own and an island that is there, and an insertion keeps it so.
use mathlib.Core.List.Memᴰ
use evo_harness_preview.Prelude.{
  ℕ, zero, suc, ◌+◌, ◌≤◌, ◌<◌, ◌≡◌, ◌⊎◌, inl, inr, true, false, ◌&&◌, Bool-cases, Option, none,
  some, Option-cases, List, [], ◌∷◌, ◌++◌, Memᴰ, Memᴰ-append, Memᴰ-cons, any, find_key,
  mem_of_find_key, Distinct, Distinct-concat, arith, ◌==◌, ==_iff, subst, sym, ap, ◌∙◌,
}
use evo_harness_preview.Population.{Candidate, PopulationConfig, Population, ok, has_passed}
use evo_harness_preview.Population.Rows.{
  candidate_key, is_on, first_empty, parent_island, is_unassigned, assign_island, placed, insert,
}

from_next :
    (j idx i : ℕ) (rows : List Candidate)
    → any (λ c. is_on idx c && has_passed c) rows ≡ true
    → (j < suc idx) ⊎ (i ≤ j) ⊎ (any (λ c. is_on j c && has_passed c) rows ≡ true)
    → (j < idx) ⊎ (i ≤ j) ⊎ (any (λ c. is_on j c && has_passed c) rows ≡ true)
from_next j idx i rows full (inr later) = inr later
from_next j idx i rows full (inl low) = elim (Bool-cases (j == idx)) [
  | inl e ↦ inr (
      inr (
        subst (λ (k : ℕ). any (λ c. is_on k c && has_passed c) rows ≡ true)
          (sym ((==_iff j idx).0 e)) full))
  | inr e ↦ inl (ground (arith, low, e))
]

-- The first empty island of a range, if there is one: it is empty, and none before it is.
first_empty_lem :
    (n idx : ℕ) (rows : List Candidate) (i : ℕ)
    → first_empty n idx rows ≡ some i
    → (idx ≤ i)
      × (i < idx + n)
      × (any (λ c. is_on i c && has_passed c) rows ≡ false)
      × ((j : ℕ) → (j < idx) ⊎ (i ≤ j) ⊎ (any (λ c. is_on j c && has_passed c) rows ≡ true))
unfolding first_empty
first_empty_lem zero idx rows i h = cc
first_empty_lem (suc n) idx rows i h =
    elim (Bool-cases (any (λ c. is_on idx c && has_passed c) rows)) [
      | inl full ↦
          let (low, high, empty, before) =
            first_empty_lem n (suc idx) rows i (ground (arith, h, full)) in
          (omega arith, omega arith, empty, λ j. from_next j idx i rows full (before j))
      | inr empty ↦
          let same : idx ≡ i = ground (arith, h, empty) in
          (
            omega (arith, same),
            omega (arith, same),
            subst (λ (k : ℕ). any (λ c. is_on k c && has_passed c) rows ≡ false) same empty,
            λ j. ground (arith, same),
          )
    ]

module _ (cfg : PopulationConfig) where
  abbrev pub IsIsland : Option ℕ → Type 0
  IsIsland island = (i : ℕ) × (island ≡ some i) × (i < cfg.num_islands)

  abbrev pub ArePlaced : List Candidate → Type 0
  ArePlaced rows =
      Distinct candidate_key rows × ((c : Candidate) → Memᴰ c rows → IsIsland c.island_idx)

  parent_of :
      (o : Option ℕ) (rows : List Candidate) (parent : Candidate)
      → parent_island o rows ≡ some parent
      → Memᴰ parent rows
  parent_of none rows parent h = absurd (ground arith)
  parent_of (some id) rows parent h = mem_of_find_key candidate_key id parent rows h

  assign_island-IsIsland :
      (drawn : ℕ) (c : Candidate) (rows : List Candidate)
      → drawn < cfg.num_islands
      → ArePlaced rows
      → IsIsland (assign_island cfg drawn c rows)
  unfolding assign_island
  assign_island-IsIsland drawn c rows low (distinct, there) =
      elim (Option-cases (parent_island c.parent_id rows)) [
        | inl orphan ↦ elim (Option-cases (first_empty cfg.num_islands 0 rows)) [
          | inl full ↦ (drawn, ground (arith, orphan, full), low)
          | inr (i, found) ↦
              let (from, below, empty, before) = first_empty_lem cfg.num_islands 0 rows i found in
              elim (Bool-cases (has_passed c)) [
                | inl passed ↦ (i, ground (arith, orphan, found, passed), omega arith)
                | inr failed ↦ (drawn, ground (arith, orphan, failed), low)
              ]
        ]
        | inr (parent, found) ↦
            let (i, at, below) = there parent (parent_of c.parent_id rows parent found) in
            (i, ground (arith, found, at), below)
      ]

  placed-IsIsland :
      (drawn now : ℕ) (c : Candidate) (rows : List Candidate)
      → drawn < cfg.num_islands
      → (is_unassigned c.island_idx ≡ true) ⊎ IsIsland c.island_idx
      → ArePlaced rows
      → IsIsland (placed cfg drawn now c rows).island_idx
  unfolding placed
  placed-IsIsland drawn now c rows low (inl open_one) there =
      let (i, at, below) = assign_island-IsIsland drawn c rows low there in
      (i, ground (arith, open_one, at), below)
  placed-IsIsland drawn now c rows low (inr (i, at, below)) there = (i, ground (arith, at), below)

  -- If the drawn island is one that is there, and the candidate brings none or one that is there,
  -- an insertion that returns keeps the ids distinct and every row on an island that is there.
  pub insert-ArePlaced :
      (drawn now : ℕ) (c : Candidate) (p p' : Population)
      → drawn < cfg.num_islands
      → (is_unassigned c.island_idx ≡ true) ⊎ IsIsland c.island_idx
      → ArePlaced p.candidates
      → insert cfg drawn now c p ≡ ok p'
      → ArePlaced p'.candidates
  unfolding insert
  insert-ArePlaced drawn now c p p' low island (distinct, there) h =
      elim (Option-cases (find_key candidate_key c.id p.candidates)) [
        | inl new ↦
            let row = placed cfg drawn now c p.candidates in
            let added : p'.candidates ≡ p.candidates ++ row ∷ [] = ground (arith, h, new) in
            rw added (
              Distinct-concat candidate_key row p.candidates distinct new,
              λ r m. elim ((Memᴰ-append r p.candidates (row ∷ [])).0 m) [
                | inl old ↦ there r old
                | inr last ↦ elim ((Memᴰ-cons r row []).0 last) [
                  | inl same ↦
                      let (i, at, below) =
                        placed-IsIsland drawn now c p.candidates low island (distinct, there) in
                      (i, ap Candidate.island_idx same ∙ at, below)
                  | inr none_left ↦ absurd (Memᴰ.not-nil none_left)
                ]
              ],
            )
        | inr (old, found) ↦ absurd (ground (arith, h, found))
      ]
