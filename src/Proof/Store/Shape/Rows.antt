-- ===== src/Proof/Store/Shape/Rows.antt =====
-- The rows that `add_decomposition` writes, and what it keeps.
use mathlib.Core.List.Memᴰ
use mathlib.Core.Path.{subst₂}
use evo_harness_preview.Prelude.{
  ℕ, suc, String, ◌≡◌, ◌≢◌, refl, ap, subst, inl, inr, Option, none, some, List, [], ◌∷◌, ◌++◌,
  Memᴰ, arith, Distinct, find_key, Option-cases,
}
use evo_harness_preview.Proof.Graph.{Goal, Decomposition, DecompositionStatus, repeated}
use evo_harness_preview.Proof.Store.State.{
  Error, goal, Store, Sketch, Result-cases, ok, err, goal_key, decomposition_key, find_identity,
}
use evo_harness_preview.Proof.Store.Schema.{HasGoal, DistinctIdentities, Schema}
use evo_harness_preview.Proof.Store.Write.{insert_goal}
use evo_harness_preview.Proof.Store.Write.Inserts.{
  Extends, Extends-refl, Extends-trans, insert_goal-Extends, find_identity-row,
}
use evo_harness_preview.Proof.Store.Shape.Writes.{
  new_row, written, write_fails, write_taken, write_new,
}
use evo_harness_preview.Proof.Store.Shape.{
  insert_subgoals, subgoal_identities, write_decomposition, check_route, add_decomposition,
  ancestor_identities,
}

-- Every id that the loop returns is a row's, under one of the identities asked for.
abbrev Named : List Goal → List String → ℕ → Type 0
Named goals identities i =
    (g : Goal) × (find_key goal_key i goals ≡ some g) × Memᴰ g.identity identities

-- The ids are those of the rows with these identities, one by one and in order.
abbrev pub Matches : List Goal → List ℕ → List String → Type 0
Matches goals [] [] = Unit
Matches goals (i ∷ is) (t ∷ ts) =
    ((g : Goal) × (find_key goal_key i goals ≡ some g) × (g.identity ≡ t)) × Matches goals is ts
Matches goals _ _ = ⊥

record Inserted (subgoals : List (String × String)) (goals : List Goal) (ids : List ℕ)
    (goals' : List Goal) : Type 0 where
  extends : Extends goals goals'
  named : (i : ℕ) → Memᴰ i ids → Named goals' (subgoal_identities subgoals) i
  some_id : subgoals ≢ [] → ids ≢ []
  matches : Matches goals' ids (subgoal_identities subgoals)

Inserted-cons :
    (t statement : String) (rest : List (String × String)) (goals goals₁ goals₂ : List Goal)
    (ids : List ℕ) (g : Goal)
    → Extends goals goals₁
    → find_identity t goals₁ ≡ some g
    → Inserted rest goals₁ ids goals₂
    → Inserted ((t, statement) ∷ rest) goals (g.id ∷ ids) goals₂
Inserted-cons t statement rest goals goals₁ goals₂ ids g x found h =
    let (same, row) = find_identity-row t g goals₁ x.ids found in
    record {
      extends = Extends-trans goals goals₁ goals₂ x h.extends;
      named = λ i m. elim (Memᴰ.cases_cons m) [
        | inl here ↦ (g, rw here (h.extends.old g.id g row), Memᴰ.head same)
        | inr there ↦ let (r, e, mr) = h.named i there in (r, e, Memᴰ.tail mr)
      ];
      some_id = λ _ e. cc;
      matches = ((g, h.extends.old g.id g row, same), h.matches);
    }

insert_subgoals-Inserted :
    (draw : ℕ → ℕ) (n : ℕ) (subgoals : List (String × String)) (goals : List Goal)
    → Distinct goal_key goals
    → DistinctIdentities goals
    → (ids : List ℕ) (goals' : List Goal) → insert_subgoals draw n subgoals goals ≡ (ok ids, goals')
    → Inserted subgoals goals ids goals'
unfolding insert_subgoals
insert_subgoals-Inserted draw n [] goals d u ids goals' e = record {
  extends = subst (Extends goals) (ground arith) (Extends-refl goals d u);
  named = λ i m. absurd (Memᴰ.not-nil (subst (Memᴰ i) (ground arith) m));
  some_id = λ some_subgoal. absurd (some_subgoal refl);
  matches =
      (let nothing : [] ≡ ids = ground arith in subst (λ is. Matches goals' is []) nothing tt);
}
insert_subgoals-Inserted draw n ((t, statement) ∷ rest) goals d u ids goals' e =
    elim (Result-cases (insert_goal (draw n) t statement goals)) [
      | inl (x, failed) ↦ absurd (ground arith)
      | inr (goals₁, inserted) ↦
          let (x₁, (g, found)) = insert_goal-Extends goals d u (draw n) t statement inserted in
          let looped = insert_subgoals draw (suc n) rest goals₁ in
          let goals₂ = looped.1 in
          elim (Result-cases looped.0) [
            | inl (x, failed) ↦ absurd (ground arith)
            | inr (ids₂, through) ↦
                let whole : looped ≡ (ok ids₂, goals₂) = ground arith in
                let same_ids : g.id ∷ ids₂ ≡ ids = ground arith in
                let same_goals : goals₂ ≡ goals' = ground arith in
                let h =
                  insert_subgoals-Inserted draw (suc n) rest goals₁ x₁.ids x₁.identities ids₂ goals₂
                    whole in
                subst₂ (λ is gs. Inserted ((t, statement) ∷ rest) goals is gs) same_ids same_goals
                  (Inserted-cons t statement rest goals goals₁ goals₂ ids₂ g x₁ found h)
          ]
    ]

-- What a call of `add_decomposition` that returns has written.
pub record Added (goal_id : ℕ) (subgoals : List (String × String)) (status : DecompositionStatus)
    (s : Store) (d : Decomposition) (s' : Store) : Type 0 where
  pub extends : Extends s.goals s'.goals
  pub rows : s'.decompositions ≡ s.decompositions ++ d ∷ []
  pub attempts : s'.attempts ≡ s.attempts
  pub owner : d.goal_id ≡ goal_id
  pub status_row : d.status ≡ status
  pub new_id : find_key decomposition_key d.id s.decompositions ≡ none
  pub some_subgoal : d.subgoal_ids ≢ []
  pub named : (i : ℕ) → Memᴰ i d.subgoal_ids → Named s'.goals (subgoal_identities subgoals) i
  pub matches : Matches s'.goals d.subgoal_ids (subgoal_identities subgoals)
  pub parent : HasGoal s.goals goal_id
  pub checked : check_route goal_id (subgoal_identities subgoals) s ≡ ok tt

-- What `check_acyclic` has seen when it does not raise.
pub record Checked (goal_id : ℕ) (identities : List String) (s : Store) : Type 0 where
  pub parent : Goal
  pub row : find_key goal_key goal_id s.goals ≡ some parent
  pub ancestors : List String
  pub walked : ancestor_identities goal_id s ≡ ok ancestors
  pub none_repeated : repeated (parent.identity ∷ ancestors) identities ≡ []

pub check_route-Checked :
    (goal_id : ℕ) (identities : List String) (s : Store)
    → check_route goal_id identities s ≡ ok tt
    → Checked goal_id identities s
unfolding check_route goal
check_route-Checked goal_id identities s e =
    elim (Option-cases (find_key goal_key goal_id s.goals)) [
      | inl missing ↦ absurd (ground arith)
      | inr (g, row) ↦ elim (Result-cases (ancestor_identities goal_id s)) [
        | inl (x, failed) ↦ absurd (ground arith)
        | inr (ancestors, walked) ↦ record {
          parent = g;
          row = row;
          ancestors = ancestors;
          walked = walked;
          none_repeated = ground arith;
        }
      ]
    ]

module _ (draw : ℕ → ℕ) (goal_id : ℕ) (subgoals : List (String × String)) (sketch : Option Sketch)
    (status : DecompositionStatus) (s : Store) where
  write_decomposition-Added :
      Schema s
      → subgoals ≢ []
      → check_route goal_id (subgoal_identities subgoals) s ≡ ok tt
      → (d : Decomposition) (s' : Store)
      → write_decomposition draw goal_id subgoals sketch status s ≡ (ok d, s')
      → Added goal_id subgoals status s d s'
  write_decomposition-Added c some_subgoal checked d s' e =
      let loop = insert_subgoals draw 1 subgoals s.goals in
      elim (Result-cases loop.0) [
        | inl (x, failed) ↦
            let wrote = write_fails draw goal_id subgoals sketch status s x failed in
            absurd (ground arith)
        | inr (ids, inserted) ↦
            let whole : loop ≡ (ok ids, loop.1) = ground arith in
            let h =
              insert_subgoals-Inserted draw 1 subgoals s.goals c.goal_ids c.identities ids loop.1
                whole in
            elim (Option-cases (find_key decomposition_key (draw 0) s.decompositions)) [
              | inr (r, taken) ↦
                  let wrote =
                    write_taken draw goal_id subgoals sketch status s ids r inserted taken in
                  absurd (ground arith)
              | inl new ↦
                  let wrote =
                    write_new draw goal_id subgoals sketch status s ids loop.1 whole new in
                  let row : new_row draw goal_id subgoals sketch status s ids ≡ d = ground arith in
                  let store : written draw goal_id subgoals sketch status s ids loop.1 ≡ s' =
                    ground arith in
                  subst₂ (λ d s'. Added goal_id subgoals status s d s') row store
                    (record {
                      extends = h.extends;
                      rows = refl;
                      attempts = refl;
                      owner = refl;
                      status_row = refl;
                      new_id = new;
                      some_subgoal = h.some_id some_subgoal;
                      named = h.named;
                      matches = h.matches;
                      parent =
                          (let k =
                              check_route-Checked goal_id (subgoal_identities subgoals) s checked in
                            (k.parent, k.row));
                      checked = checked;
                    })
            ]
      ]

module _ (draw : ℕ → ℕ) (goal_id : ℕ) (subgoals : List (String × String)) (sketch : Option Sketch)
    (status : DecompositionStatus) (s : Store) where
  write_decomposition_atomic :
      (e : Error)
      → (write_decomposition draw goal_id subgoals sketch status s).0 ≡ err e
      → (write_decomposition draw goal_id subgoals sketch status s).1 ≡ s
  write_decomposition_atomic e raised =
      let loop = insert_subgoals draw 1 subgoals s.goals in
      elim (Result-cases loop.0) [
        | inl (x, failed) ↦
            ap (λ r. r.1) (write_fails draw goal_id subgoals sketch status s x failed)
        | inr (ids, inserted) ↦
            elim (Option-cases (find_key decomposition_key (draw 0) s.decompositions)) [
              | inr (r, taken) ↦
                  ap (λ r. r.1)
                    (write_taken draw goal_id subgoals sketch status s ids r inserted taken)
              | inl new ↦
                  let whole : loop ≡ (ok ids, loop.1) = ground arith in
                  let wrote =
                    write_new draw goal_id subgoals sketch status s ids loop.1 whole new in
                  absurd (ground arith)
            ]
      ]

module _ (draw : ℕ → ℕ) (goal_id : ℕ) (sketch : Option Sketch) (status : DecompositionStatus)
    (s : Store) where
  -- A call of `add_decomposition` that raises leaves the store as it was.
  pub add_decomposition_atomic :
      (subgoals : List (String × String)) (e : Error)
      → (add_decomposition draw goal_id subgoals sketch status s).0 ≡ err e
      → (add_decomposition draw goal_id subgoals sketch status s).1 ≡ s
  unfolding add_decomposition
  add_decomposition_atomic [] e h = refl
  add_decomposition_atomic (p ∷ ps) e h =
      elim (Result-cases (check_route goal_id (subgoal_identities (p ∷ ps)) s)) [
        | inl (x, failed) ↦ ground arith
        | inr (_, checked) ↦
            let kept = write_decomposition_atomic draw goal_id (p ∷ ps) sketch status s e in
            ground arith
      ]

  -- In a store whose rows fit the schema, a call of add_decomposition that returns has found the
  -- goal and passed the acyclicity check, and has put one decomposition behind the others, of the
  -- goal and with the status that were asked for, under an id that no other has; its subgoals
  -- are, one by one and in order, rows with the identities that were proposed, and there is one.
  -- Every goal that was there is as it was, every other is open and new, ids and identities stay
  -- distinct, and the attempts are as they were.
  pub add_decomposition-Added :
      (subgoals : List (String × String)) (d : Decomposition) (s' : Store)
      → Schema s
      → add_decomposition draw goal_id subgoals sketch status s ≡ (ok d, s')
      → Added goal_id subgoals status s d s'
  unfolding add_decomposition
  add_decomposition-Added [] d s' c e = absurd (ground arith)
  add_decomposition-Added (p ∷ ps) d s' c e =
      elim (Result-cases (check_route goal_id (subgoal_identities (p ∷ ps)) s)) [
        | inl (x, failed) ↦ absurd (ground arith)
        | inr (_, checked) ↦
            write_decomposition-Added draw goal_id (p ∷ ps) sketch status s c (λ empty. cc) checked
              d s' (ground arith)
      ]
