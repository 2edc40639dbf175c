-- ===== src/Proof/Assembly/Routes.antt =====
-- What a goal that is marked proved is assembled from.
use mathlib.Core.List.Memᴰ
use native.Mathlib.Decide.{ℕ_discrete}
use evo_harness_preview.Prelude.{
  ℕ, ◌≡◌, ◌≢◌, ◌↔◌, ◌⊎◌, sym, ap, ◌∙◌, subst, inl, inr, none, some, List, [], ◌∷◌, Memᴰ, arith,
  mem_of_find_key, key_of_find_key, filter_where_iff, ◌==◌, Bool-cases, Option-cases,
}
use evo_harness_preview.Proof.Graph.{
  GoalStatus, Decomposition, Attempt, Outcome, completed, is_completed, is_proof,
}
use evo_harness_preview.Proof.Store.State.{
  Store, Result-cases, ok, decomposition, decompositions_of, attempts_of,
}
use evo_harness_preview.Proof.Store.State.Reads.{decompositions_of_iff, attempts_of_iff}
use evo_harness_preview.Proof.Store.Propagate.View.{status_of}
use evo_harness_preview.Proof.Store.Propagate.Exact.{target-eq-proved}
use evo_harness_preview.Proof.Store.Propagate.Correct.{IsCurrent}
use evo_harness_preview.Proof.Assembly.{
  chosen, pin_each, pin_map, pinned, completed_of, find_route, only_route, route_for, first_proof,
  direct_proof,
}

completed_of_iff :
    (g : ℕ) (s : Store) (d : Decomposition)
    → Memᴰ d (completed_of g s)
      ↔ (Memᴰ d s.decompositions × (d.goal_id ≡ g) × (d.status ≡ completed))
completed_of_iff g s d = ground (
  arith,
  filter_where_iff (λ (r : Decomposition). is_completed r.status) d (decompositions_of g s),
  decompositions_of_iff g s d,
)

only_route_lem :
    (l : List Decomposition) (d : Decomposition)
    → only_route l ≡ chosen (some d)
    → Memᴰ d l × ((e : Decomposition) → Memᴰ e l → e ≡ d)
only_route_lem [] d e = absurd (ground arith)
only_route_lem (x ∷ []) d e =
    let same : x ≡ d = ground arith in (Memᴰ.head (sym same), λ y m. Memᴰ.eq_of_singleton m ∙ same)
only_route_lem (x ∷ y ∷ l) d e = absurd (ground arith)

-- A route that `route_for` chooses is a completed decomposition of the goal: the one that was pinned,
-- or, where none was, the only completed one there is.
pub route_for_lem :
    (g : ℕ) (pins : List (ℕ × ℕ)) (s : Store) (d : Decomposition)
    → route_for g pins s ≡ chosen (some d)
    → Memᴰ d s.decompositions
      × (d.goal_id ≡ g)
      × (d.status ≡ completed)
      × ((pinned pins g ≡ some d.id)
          ⊎ ((pinned pins g ≡ none)
              × ((e : Decomposition)
                  → Memᴰ e s.decompositions
                  → e.goal_id ≡ g
                  → e.status ≡ completed
                  → e ≡ d)))
unfolding route_for
route_for_lem g pins s d e = elim (Option-cases (pinned pins g)) [
  | inr (route_id, pin) ↦ elim (Option-cases (find_route route_id (completed_of g s))) [
    | inl missing ↦ absurd (ground arith)
    | inr (r, found) ↦
        let same : r ≡ d = ground arith in
        let (row, owner, st) =
          (completed_of_iff g s r).0
            (mem_of_find_key (λ (x : Decomposition). x.id) route_id r (completed_of g s) found) in
        subst
          (λ x.
            Memᴰ x s.decompositions
            × (x.goal_id ≡ g)
            × (x.status ≡ completed)
            × ((pinned pins g ≡ some x.id)
                ⊎ ((pinned pins g ≡ none)
                    × ((y : Decomposition)
                        → Memᴰ y s.decompositions
                        → y.goal_id ≡ g
                        → y.status ≡ completed
                        → y ≡ x))))
          same
          (
            row,
            owner,
            st,
            inl (
                pin
                ∙ ap some (
                    sym (
                      key_of_find_key (λ (x : Decomposition). x.id) route_id r (completed_of g s)
                        found))),
          )
  ]
  | inl free ↦
      let (m, alone) = only_route_lem (completed_of g s) d (ground arith) in
      let (row, owner, st) = (completed_of_iff g s d).0 m in
      (
        row,
        owner,
        st,
        inr (free, λ y my own sty. alone y ((completed_of_iff g s y).1 (my, own, sty))),
      )
]

first_proof-ne :
    (a : Attempt) (l : List Attempt)
    → Memᴰ a l
    → a.outcome ≡ Outcome.proved
    → first_proof l ≢ chosen none
first_proof-ne a [] m o e = Memᴰ.not-nil m
first_proof-ne a (x ∷ l) (Memᴰ.head same) o e =
    let here : x.outcome ≡ Outcome.proved = ground arith in
    elim (Option-cases x.proof_text) [
      | inl missing ↦ absurd (ground arith)
      | inr (t, there) ↦ absurd (ground arith)
    ]
first_proof-ne a (x ∷ l) (Memᴰ.tail m) o e = elim (Bool-cases (is_proof x.outcome)) [
  | inr other ↦ first_proof-ne a l m o (ground arith)
  | inl proof ↦ elim (Option-cases x.proof_text) [
    | inl missing ↦ absurd (ground arith)
    | inr (t, there) ↦ absurd (ground arith)
  ]
]

-- In a current store a goal that is marked proved has a proof of its own, or a completed
-- decomposition: what `assemble` calls proved without either does not occur.
assembled_of_proved :
    (limit g : ℕ) (s : Store)
    → IsCurrent limit s
    → status_of s.goals g ≡ GoalStatus.proved
    → (direct_proof g s ≢ chosen none) ⊎ ((d : Decomposition) × Memᴰ d (completed_of g s))
unfolding direct_proof
assembled_of_proved limit g s c e =
    let here = c.settled g in
    elim ((target-eq-proved limit g s).0 (sym here.derived ∙ e)) [
      | inl (a, m, owner, o) ↦
          inl (first_proof-ne a (attempts_of g s) ((attempts_of_iff g s a).1 (m, owner)) o)
      | inr (d, m, owner, adv) ↦
          let st : d.status ≡ completed =
            sym (here.rested d ((decompositions_of_iff g s d).1 (m, owner))) ∙ adv in
          inr (d, (completed_of_iff g s d).1 (m, owner, st))
    ]

pin_each_lem :
    (s : Store) (routes : List ℕ) (pins pins' : List (ℕ × ℕ))
    → pin_each s routes pins ≡ chosen pins'
    → ((g r : ℕ) → pinned pins g ≡ some r → pinned pins' g ≡ some r)
      × ((r : ℕ)
          → Memᴰ r routes
          → (d : Decomposition) × (decomposition r s ≡ ok d)
            × (d.status ≡ completed)
            × (pinned pins' d.goal_id ≡ some r))
unfolding pin_each
pin_each_lem s [] pins pins' e = (λ g r p. ground arith, λ r m. absurd (Memᴰ.not-nil m))
pin_each_lem s (x ∷ routes) pins pins' e = elim (Result-cases (decomposition x s)) [
  | inl (y, missing) ↦ absurd (ground arith)
  | inr (d, row) ↦ elim (Bool-cases (is_completed d.status)) [
    | inr other ↦ absurd (ground arith)
    | inl done ↦
        let st : d.status ≡ completed = ground arith in
        elim (Option-cases (pinned pins d.goal_id)) [
          | inl free ↦
              let (keep, all) =
                pin_each_lem s routes ((d.goal_id, x) ∷ pins) pins' (ground arith) in
              (
                λ g r p. keep g r (elim (ℕ_discrete d.goal_id g) [
                  | yes here ↦ absurd (ground arith)
                  | no ne ↦ ground arith
                ]),
                λ r m. elim (Memᴰ.cases_cons m) [
                  | inl here ↦ (d, rw here row, st, keep d.goal_id r (ground arith))
                  | inr later ↦ all r later
                ],
              )
          | inr (already, pin) ↦ elim (Bool-cases (already == x)) [
            | inr differ ↦ absurd (ground arith)
            | inl same ↦
                let (keep, all) = pin_each_lem s routes pins pins' (ground arith) in
                (
                  keep,
                  λ r m. elim (Memᴰ.cases_cons m) [
                    | inl here ↦ (d, rw here row, st, keep d.goal_id r (ground arith))
                    | inr later ↦ all r later
                  ],
                )
          ]
        ]
  ]
]

-- If `_pin_map` returns, every route that was named is a completed decomposition, and its goal is
-- pinned to it: none is dropped for another.
pub pin_map_lem :
    (s : Store) (routes : List ℕ) (pins : List (ℕ × ℕ))
    → pin_map s routes ≡ chosen pins
    → (r : ℕ) → Memᴰ r routes
    → (d : Decomposition) × (decomposition r s ≡ ok d)
      × (d.status ≡ completed)
      × (pinned pins d.goal_id ≡ some r)
unfolding pin_map
pin_map_lem s routes pins e = (pin_each_lem s routes [] pins e).1
