-- ===== src/Proof/Controller/Offers.antt =====
-- How often FixedDecompositions of controller.py offers a route.
use evo_harness_preview.Prelude.{
  String, ◌≡◌, refl, ap, inl, inr, true, false, none, some, List, [], ◌∷◌, arith, any, count, ◌≤◌,
  count-absent, str_eq, str_eq_iff, Bool-cases, Option-cases,
}
use evo_harness_preview.Proof.Graph.{Goal}
use evo_harness_preview.Proof.Store.State.{Sketch}
use evo_harness_preview.Proof.Controller.{find_sketch, propose_fixed}

-- The identities of the goals that were offered their route, in the order of the offers, when the
-- source is asked for each goal in turn.
abbrev pub offers : List (String × Sketch) → List Goal → List String → List String
offers table [] used = []
offers table (g ∷ goals) used =
    let rest = offers table goals (propose_fixed table g used).1 in
    elim (propose_fixed table g used).0 [ none ↦ rest | some _ ↦ g.identity ∷ rest ]

used-absent :
    (table : List (String × Sketch)) (goals : List Goal) (used : List String) (t : String)
    → any (str_eq t) used ≡ true
    → any (str_eq t) (offers table goals used) ≡ false
unfolding propose_fixed
used-absent table [] used t h = refl
used-absent table (g ∷ goals) used t h = elim (Bool-cases (any (str_eq g.identity) used)) [
  | inl old ↦ ground (arith, used-absent table goals used t h)
  | inr fresh ↦ elim (Option-cases (find_sketch g.identity table)) [
    | inl missing ↦ ground (arith, used-absent table goals used t h)
    | inr (k, found) ↦ elim (Bool-cases (str_eq t g.identity)) [
      | inl same ↦ absurd (
          ground
            (arith, ap (λ (x : String). any (str_eq x) used) ((str_eq_iff t g.identity).0 same)))
      | inr other ↦ ground (arith, used-absent table goals (g.identity ∷ used) t (ground arith))
    ]
  ]
]

-- Whatever goals the source is asked for, and however often, it offers no identity twice.
pub offers_once :
    (table : List (String × Sketch)) (goals : List Goal) (used : List String) (t : String)
    → count (str_eq t) (offers table goals used) ≤ 1
unfolding propose_fixed
offers_once table [] used t = omega arith
offers_once table (g ∷ goals) used t = elim (Bool-cases (any (str_eq g.identity) used)) [
  | inl old ↦ ground (arith, offers_once table goals used t)
  | inr fresh ↦ elim (Option-cases (find_sketch g.identity table)) [
    | inl missing ↦ ground (arith, offers_once table goals used t)
    | inr (k, found) ↦ elim (Bool-cases (str_eq t g.identity)) [
      | inl same ↦ ground (
        arith,
        count-absent (str_eq t) (offers table goals (g.identity ∷ used)),
        used-absent table goals (g.identity ∷ used) t (ground arith),
      )
      | inr other ↦ ground (arith, offers_once table goals (g.identity ∷ used) t)
    ]
  ]
]
