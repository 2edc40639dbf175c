-- ===== src/Population/Migration/Moves.antt =====
-- What a migration does to the rows.
use mathlib.Core.List.Memᴰ
use evo_harness_preview.Prelude.{
  ℕ, ◌≡◌, ◌⊎◌, inl, inr, refl, sym, ap, ◌∙◌, subst, Bool-cases, List, [], ◌∷◌, Memᴰ, Distinct,
  arith, ◌==◌, ==_iff, if◌then◌else◌,
}
use evo_harness_preview.Population.{Candidate, PopulationConfig, Population, ok}
use evo_harness_preview.Population.Rows.{candidate_key}
use evo_harness_preview.Population.Archive.Counting.{same_row}
use evo_harness_preview.Population.Migration.{Move, moved, all_moves, apply_moves, maybe_migrate}
use evo_harness_preview.Population.Migration.Draws.{IsMove, AreMoves, all_moves-AreMoves}

module _ (cfg : PopulationConfig) (choose : ℕ → ℕ → ℕ → List (ℕ × ℕ)) where
  abbrev Was : ℕ → Candidate → Candidate → Population → Type 0
  Was generation row r p =
      (row ≡ r)
      ⊎ (m : Move) × IsMove cfg choose p m × (m.candidate ≡ r) × (row ≡ moved generation m r)

  -- A row after a migration: it is as it was, or it was moved.
  abbrev pub IsAfter : ℕ → Population → Candidate → Type 0
  IsAfter generation p row = (r : Candidate) × Memᴰ r p.candidates × Was generation row r p

  pub kept_id :
      (generation : ℕ) (row r : Candidate) (p : Population) → Was generation row r p → r.id ≡ row.id
  kept_id generation row r p (inl e) = ap Candidate.id (sym e)
  kept_id generation row r p (inr (m', move, same, e)) = ap Candidate.id (sym e)

  again :
      (generation : ℕ) (row r : Candidate) (m : Move) (p : Population)
      → Was generation row r p
      → moved generation m row ≡ moved generation m r
  again generation row r m p (inl e) = ap (moved generation m) e
  again generation row r m p (inr (m', move, same, e)) = ap (moved generation m) e

  write-IsAfter :
      (generation : ℕ) (p : Population) (m : Move)
      → Distinct candidate_key p.candidates
      → IsMove cfg choose p m
      → (row : Candidate) → IsAfter generation p row
      → IsAfter generation p (if row.id == m.candidate.id then moved generation m row else row)
  write-IsAfter generation p m d move row (r, there, was) =
      elim (Bool-cases (row.id == m.candidate.id)) [
        | inr e ↦ rw e (r, there, was)
        | inl e ↦
            let same : r ≡ m.candidate =
              same_row p.candidates d r m.candidate there move.0
                (kept_id generation row r p was ∙ (==_iff row.id m.candidate.id).0 e) in
            rw e (r, there, inr (m, move, sym same, again generation row r m p was))
      ]

  apply_moves-IsAfter :
      (generation : ℕ) (p : Population) (ms : List Move) (rows : List Candidate)
      → Distinct candidate_key p.candidates
      → AreMoves cfg choose p ms
      → ((row : Candidate) → Memᴰ row rows → IsAfter generation p row)
      → (row : Candidate) → Memᴰ row (apply_moves cfg choose generation ms rows)
      → IsAfter generation p row
  unfolding apply_moves
  apply_moves-IsAfter generation p [] rows d moves was row h = was row h
  apply_moves-IsAfter generation p (m ∷ ms) rows d moves was row h =
      apply_moves-IsAfter generation p ms _ d (λ m' n. moves m' (Memᴰ.tail n))
        (λ row' n.
          let (r, there, e) =
            Memᴰ.of_map (λ c. if c.id == m.candidate.id then moved generation m c else c) rows n in
          subst (IsAfter generation p) e
            (write-IsAfter generation p m d (moves m (Memᴰ.head refl)) r (was r there)))
        row h

  migrated :
      (generation : ℕ) (p p' : Population) (n : ℕ)
      → maybe_migrate cfg choose generation p ≡ ok (n, p')
      → (p'.candidates ≡ p.candidates)
        ⊎ (p'.candidates
            ≡ apply_moves cfg choose generation
                (all_moves cfg choose cfg.num_islands 0 p)
                p.candidates)
  unfolding maybe_migrate
  migrated generation p p' n h = ground (arith, h)

  -- Whatever the generator draws, if the ids are distinct, every row after a migration that
  -- returns is a row from before, as it was or moved: then it had passed, was no seed, was not the
  -- elite that stays, and stands on another island that is there, with one entry more in its
  -- history and nothing else changed.
  pub maybe_migrate-IsAfter :
      (generation : ℕ) (p p' : Population) (n : ℕ)
      → Distinct candidate_key p.candidates
      → maybe_migrate cfg choose generation p ≡ ok (n, p')
      → (row : Candidate) → Memᴰ row p'.candidates
      → IsAfter generation p row
  maybe_migrate-IsAfter generation p p' n d h row m = elim (migrated generation p p' n h) [
    | inl same ↦ (row, subst (λ l. Memᴰ row l) same m, inl refl)
    | inr wrote ↦
        apply_moves-IsAfter generation p (all_moves cfg choose cfg.num_islands 0 p) p.candidates d
          (all_moves-AreMoves cfg choose p cfg.num_islands 0) (λ r there. (r, there, inl refl)) row
          (subst (λ l. Memᴰ row l) wrote m)
  ]
