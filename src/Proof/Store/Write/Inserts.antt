-- ===== src/Proof/Store/Write/Inserts.antt =====
-- What an insert of goals keeps: old rows as they are, the new ones open, the keys unique.
use evo_harness_preview.Prelude.{
  ℕ, String, ◌≡◌, refl, subst, ◌⊎◌, inl, inr, none, some, List, [], ◌∷◌, ◌++◌, arith, Distinct,
  Distinct-concat, find_key, find_key-append, str_eq, str_eq_iff, Option-cases, Bool-cases,
}
use evo_harness_preview.Proof.Graph.{Goal, open_goal}
use evo_harness_preview.Proof.Store.State.{ok, goal_key, find_identity}
use evo_harness_preview.Proof.Store.Schema.{DistinctIdentities}
use evo_harness_preview.Proof.Store.Write.{fresh_goal, insert_goal}

pub record Extends (goals goals' : List Goal) : Type 0 where
  pub ids : Distinct goal_key goals'
  pub identities : DistinctIdentities goals'
  pub old :
      (k : ℕ) (g : Goal) → find_key goal_key k goals ≡ some g → find_key goal_key k goals' ≡ some g
  pub new :
      (k : ℕ) (g : Goal)
      → find_key goal_key k goals' ≡ some g
      → (find_key goal_key k goals ≡ some g)
        ⊎ ((g.status ≡ open_goal) × (find_key goal_key k goals ≡ none))

pub Extends-trans : (a b c : List Goal) → Extends a b → Extends b c → Extends a c
Extends-trans a b c x y = record {
  ids = y.ids;
  identities = y.identities;
  old = λ k g e. y.old k g (x.old k g e);
  new = λ k g e. elim (y.new k g e) [
    | inl there ↦ x.new k g there
    | inr (fresh, absent) ↦ elim (Option-cases (find_key goal_key k a)) [
      | inl none_a ↦ inr (fresh, none_a)
      | inr (r, e') ↦ absurd (ground (arith, x.old k r e'))
    ]
  ];
}

find_identity-append :
    (t : String) (xs ys : List Goal)
    → find_identity t (xs ++ ys)
      ≡ (elim (find_identity t xs) [ none ↦ find_identity t ys | some x ↦ some x ])
find_identity-append t [] ys = refl
find_identity-append t (x ∷ xs) ys = ground (arith, find_identity-append t xs ys)

DistinctIdentities-concat :
    (x : Goal) (xs : List Goal)
    → DistinctIdentities xs
    → find_identity x.identity xs ≡ none
    → DistinctIdentities (xs ++ x ∷ [])
DistinctIdentities-concat x [] d h = ground arith
DistinctIdentities-concat x (y ∷ xs) d h = ground (
  arith,
  find_identity-append y.identity xs (x ∷ []),
  DistinctIdentities-concat x xs d.1,
  str_eq_iff y.identity x.identity,
  str_eq_iff x.identity y.identity,
)

-- A row that is found by its identity has it, and is found by its id.
pub find_identity-row :
    (t : String) (g : Goal) (xs : List Goal)
    → Distinct goal_key xs
    → find_identity t xs ≡ some g
    → (g.identity ≡ t) × (find_key goal_key g.id xs ≡ some g)
find_identity-row t g [] d e = ground arith
find_identity-row t g (x ∷ xs) d e = elim (Bool-cases (str_eq x.identity t)) [
  | inl here ↦ ground (arith, str_eq_iff x.identity t)
  | inr there ↦
      let (same, row) = find_identity-row t g xs d.1 (ground arith) in (same, ground arith)
]

module _ (goals : List Goal) (d : Distinct goal_key goals) (u : DistinctIdentities goals) where
  pub Extends-refl : Extends goals goals
  Extends-refl = record { ids = d; identities = u; old = λ k g e. e; new = λ k g e. inl e }

  Extends-concat :
      (x : Goal)
      → x.status ≡ open_goal
      → find_key goal_key x.id goals ≡ none
      → find_identity x.identity goals ≡ none
      → Extends goals (goals ++ x ∷ [])
  Extends-concat x fresh no_id no_identity = record {
    ids = Distinct-concat goal_key x goals d no_id;
    identities = DistinctIdentities-concat x goals u no_identity;
    old = λ k g e. ground (arith, find_key-append goal_key k goals (x ∷ []));
    new = λ k g e. elim (Option-cases (find_key goal_key k goals)) [
      | inl absent ↦ inr (ground (arith, find_key-append goal_key k goals (x ∷ [])), absent)
      | inr (r, there) ↦ inl (ground (arith, find_key-append goal_key k goals (x ∷ [])))
    ];
  }

  -- The insert keeps the rows, and the identity has a row behind it.
  pub insert_goal-Extends :
      (new_id : ℕ) (identity statement : String) {goals' : List Goal}
      → insert_goal new_id identity statement goals ≡ ok goals'
      → Extends goals goals' × ((g : Goal) × (find_identity identity goals' ≡ some g))
  unfolding insert_goal
  insert_goal-Extends new_id identity statement {goals'} e =
      elim (Option-cases (find_identity identity goals)) [
        | inr (g, there) ↦ (subst (Extends goals) (ground arith) Extends-refl, (g, ground arith))
        | inl new_identity ↦ elim (Option-cases (find_key goal_key new_id goals)) [
          | inr (g, taken) ↦ absurd (ground arith)
          | inl new_key ↦
              let x = fresh_goal new_id identity statement in
              let same : goals ++ x ∷ [] ≡ goals' = ground arith in
              (
                subst (Extends goals) same (Extends-concat x refl new_key new_identity),
                (
                  x,
                  subst (λ l. find_identity identity l ≡ some x) same
                      (ground (
                        arith,
                        find_identity-append identity goals (x ∷ []),
                        str_eq_iff identity identity,
                      )),
                ),
              )
        ]
      ]
