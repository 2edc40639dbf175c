-- ===== src/Population/Migration/Draws.antt =====
-- The moves that a migration draws.
use mathlib.Core.List.Memᴰ
use evo_harness_preview.Prelude.{
  ℕ, zero, suc, ◌+◌, ◌<◌, Option, ◌≡◌, ◌≢◌, inl, inr, refl, sym, subst, true, false, not, ◌&&◌,
  Bool-cases, none, some, Option-cases, List, [], ◌∷◌, length, Memᴰ, Memᴰ-cons, Memᴰ-append, arith,
  ltb, ◌==◌, filter_where, filter_where_iff,
}
use evo_harness_preview.Prelude.Sorting.{Memᴰ-sort}
use evo_harness_preview.Population.{Candidate, PopulationConfig, Population, has_passed}
use evo_harness_preview.Population.Rows.{is_on, island_view, earlier}
use evo_harness_preview.Population.Migration.{
  nth, islands_from, Move, targets_of, move_of, elite_of, is_elite, eligible_on, migrants,
  pick_each, moves_from, all_moves,
}

mem-nth {ℓ} : {A : Type ℓ} (cs : List A) (k : ℕ) (c : A) → nth cs k ≡ some c → Memᴰ c cs
mem-nth [] k c h = absurd (ground arith)
mem-nth (x ∷ cs) zero c h = Memᴰ.head (ground (arith, h))
mem-nth (x ∷ cs) (suc k) c h = Memᴰ.tail (mem-nth cs k c h)

pub view_lem :
    (idx : ℕ) (p : Population) (c : Candidate)
    → Memᴰ c (island_view idx p)
    → Memᴰ c p.candidates × (is_on idx c ≡ true)
unfolding island_view
view_lem idx p c m =
    let on = λ (c : Candidate). is_on idx c && (elim c.report [ none ↦ false | some _ ↦ true ]) in
    let (there, yes_on) =
      (filter_where_iff on c p.candidates).0
        ((Memᴰ-sort earlier c (filter_where on p.candidates)).0 m) in
    (there, ground (arith, yes_on))

pub on_lem : (idx : ℕ) (c : Candidate) → is_on idx c ≡ true → c.island_idx ≡ some idx
on_lem idx c h = elim (Option-cases c.island_idx) [
  | inl none_at ↦ absurd (ground (arith, h, none_at))
  | inr (i, at) ↦ ground (arith, h, at)
]

-- The islands from `first` on.
islands_from_lem : (d first n : ℕ) → Memᴰ d (islands_from first n) → d < first + n
islands_from_lem d first zero m = absurd (Memᴰ.not-nil m)
islands_from_lem d first (suc n) m = elim ((Memᴰ-cons d first (islands_from (suc first) n)).0 m) [
  | inl here ↦ omega (arith, here)
  | inr later ↦ omega (arith, islands_from_lem d (suc first) n later)
]

module _ (cfg : PopulationConfig) (choose : ℕ → ℕ → ℕ → List (ℕ × ℕ)) where
  -- A move of a row: it passed, is no seed, stands on the source and is not its elite.
  abbrev pub IsMove : Population → Move → Type 0
  IsMove p m =
      Memᴰ m.candidate p.candidates
      × (has_passed m.candidate ≡ true)
      × (0 < m.candidate.generation)
      × (m.candidate.island_idx ≡ some m.source)
      × (is_elite cfg choose (elite_of cfg choose m.source p) m.candidate ≡ false)
      × (m.target < cfg.num_islands)
      × (m.target ≢ m.source)

  eligible_lem :
      (idx : ℕ) (p : Population) (c : Candidate)
      → Memᴰ c (eligible_on cfg choose idx p)
      → Memᴰ c p.candidates
        × (has_passed c ≡ true)
        × (0 < c.generation)
        × (c.island_idx ≡ some idx)
        × (is_elite cfg choose (elite_of cfg choose idx p) c ≡ false)
  unfolding eligible_on
  eligible_lem idx p c m =
      let (m1, open_to) =
        (filter_where_iff
            (λ c. ltb 0 c.generation && not (is_elite cfg choose (elite_of cfg choose idx p) c)) c
            (filter_where has_passed (island_view idx p))).0
          m in
      let (m2, passed) = (filter_where_iff has_passed c (island_view idx p)).0 m1 in
      let (m3, on) = view_lem idx p c m2 in
      (m3, passed, ground (arith, open_to), on_lem idx c on, ground (arith, open_to))

  -- All the moves of a list are such.
  abbrev pub AreMoves : Population → List Move → Type 0
  AreMoves p ms = (m : Move) → Memᴰ m ms → IsMove p m

  -- A target is another island that is there.
  targets_of_lem :
      (idx target : ℕ)
      → Memᴰ target (targets_of cfg choose idx)
      → (target < cfg.num_islands) × (target ≢ idx)
  unfolding targets_of
  targets_of_lem idx target m =
      let (there, other) =
        (filter_where_iff (λ d. not (d == idx)) target (islands_from 0 cfg.num_islands)).0 m in
      (omega (arith, islands_from_lem target 0 cfg.num_islands there), ground (arith, other))

  move_of-AreMoves :
      (p : Population) (idx : ℕ) (c : Option Candidate) (target : Option ℕ)
      → ((x : Candidate) → c ≡ some x → Memᴰ x (eligible_on cfg choose idx p))
      → ((d : ℕ) → target ≡ some d → Memᴰ d (targets_of cfg choose idx))
      → AreMoves p (move_of cfg choose idx c target)
  move_of-AreMoves p idx none target eligible others m h = absurd (Memᴰ.not-nil h)
  move_of-AreMoves p idx (some c) none eligible others m h = absurd (Memᴰ.not-nil h)
  move_of-AreMoves p idx (some c) (some target) eligible others m h =
      let (there, passed, old, on, stays) = eligible_lem idx p c (eligible c refl) in
      let (low, other) = targets_of_lem idx target (others target refl) in
      subst (IsMove p) (sym (Memᴰ.eq_of_singleton h)) (there, passed, old, on, stays, low, other)

  pick_each-AreMoves :
      (p : Population) (idx : ℕ) (picks : List (ℕ × ℕ))
      → AreMoves p (pick_each cfg choose idx (eligible_on cfg choose idx p) picks)
  unfolding pick_each
  pick_each-AreMoves p idx [] m h = absurd (Memᴰ.not-nil h)
  pick_each-AreMoves p idx ((k, j) ∷ picks) m h =
      let eligible = eligible_on cfg choose idx p in
      let targets = targets_of cfg choose idx in
      elim ((Memᴰ-append m (move_of cfg choose idx (nth eligible k) (nth targets j))
          (pick_each cfg choose idx eligible picks)).0
        h) [
          | inl here ↦
              move_of-AreMoves p idx (nth eligible k) (nth targets j) (λ x. mem-nth eligible k x)
                (λ d. mem-nth targets j d) m here
          | inr later ↦ pick_each-AreMoves p idx picks m later
        ]

  nobody :
      (p : Population) (idx : ℕ)
      → (length (eligible_on cfg choose idx p) == 0) ≡ true
      → moves_from cfg choose idx p ≡ []
  unfolding moves_from
  nobody p idx e = ground (arith, e)

  somebody :
      (p : Population) (idx : ℕ)
      → (length (eligible_on cfg choose idx p) == 0) ≡ false
      → moves_from cfg choose idx p
        ≡ pick_each cfg choose idx
            (eligible_on cfg choose idx p)
            (choose idx (length (eligible_on cfg choose idx p)) (migrants cfg choose idx p))
  unfolding moves_from
  somebody p idx e = ground (arith, e)

  moves_from-AreMoves : (p : Population) (idx : ℕ) → AreMoves p (moves_from cfg choose idx p)
  moves_from-AreMoves p idx m h =
      let eligible = eligible_on cfg choose idx p in
      let n = migrants cfg choose idx p in
      elim (Bool-cases (length eligible == 0)) [
        | inl e ↦ absurd (Memᴰ.not-nil (subst (λ l. Memᴰ m l) (nobody p idx e) h))
        | inr e ↦
            pick_each-AreMoves p idx (choose idx (length eligible) n) m
              (subst (λ l. Memᴰ m l) (somebody p idx e) h)
      ]

  pub all_moves-AreMoves : (p : Population) (n idx : ℕ) → AreMoves p (all_moves cfg choose n idx p)
  unfolding all_moves
  all_moves-AreMoves p zero idx m h = absurd (Memᴰ.not-nil h)
  all_moves-AreMoves p (suc n) idx m h =
      elim ((Memᴰ-append m (moves_from cfg choose idx p) (all_moves cfg choose n (suc idx) p)).0
        h) [
          | inl first ↦ moves_from-AreMoves p idx m first
          | inr later ↦ all_moves-AreMoves p n (suc idx) m later
        ]
