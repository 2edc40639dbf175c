-- ===== src/Proof/Store/Schema.antt =====
-- What the schema of store.py promises of the rows, beyond their types: primary keys, the unique
-- identity, the references, and that no decomposition lacks subgoals.
use mathlib.Core.List.Memᴰ
use evo_harness_preview.Prelude.{
  ℕ, String, ◌≡◌, ◌≢◌, none, some, List, [], ◌∷◌, Memᴰ, find_key, Distinct, map, map_id, refl, ap,
  ◌∙◌, arith, inl, inr, Bool-cases, map_option, find_key-map, Distinct-map, str_eq,
}
use evo_harness_preview.Proof.Graph.{Goal, Decomposition, Attempt}
use evo_harness_preview.Proof.Store.State.{Store, goal_key, decomposition_key, find_identity}

abbrev pub HasGoal : List Goal → ℕ → Type 0
HasGoal goals i = (g : Goal) × (find_key goal_key i goals ≡ some g)

-- `UNIQUE`
abbrev pub DistinctIdentities : List Goal → Type 0
DistinctIdentities [] = Unit
DistinctIdentities (g ∷ gs) = (find_identity g.identity gs ≡ none) × DistinctIdentities gs

pub record Refers (goals : List Goal) (d : Decomposition) : Type 0 where
  pub owner : HasGoal goals d.goal_id
  pub subgoals : (i : ℕ) → Memᴰ i d.subgoal_ids → HasGoal goals i
  pub some_subgoal : d.subgoal_ids ≢ []

pub record Schema (s : Store) : Type 0 where
  pub goal_ids : Distinct goal_key s.goals
  pub identities : DistinctIdentities s.goals
  pub decomposition_ids : Distinct decomposition_key s.decompositions
  pub routes : (d : Decomposition) → Memᴰ d s.decompositions → Refers s.goals d
  pub tried : (a : Attempt) → Memᴰ a s.attempts → HasGoal s.goals a.goal_id

module _ (f : Goal → Goal) (same_id : (g : Goal) → (f g).id ≡ g.id) where
  pub HasGoal-map : (i : ℕ) (goals : List Goal) → HasGoal goals i → HasGoal (map f goals) i
  HasGoal-map i goals (g, e) = (f g, find_key-map goal_key f same_id i goals ∙ ap (map_option f) e)

  find_identity-map :
      (same : (g : Goal) → (f g).identity ≡ g.identity) (t : String) (goals : List Goal)
      → find_identity t goals ≡ none
      → find_identity t (map f goals) ≡ none
  find_identity-map same t [] h = refl
  find_identity-map same t (g ∷ gs) h = elim (Bool-cases (str_eq g.identity t)) [
    | inl found ↦ absurd (ground arith)
    | inr other ↦ rw (same g) (rw other (find_identity-map same t gs (ground arith)))
  ]

  DistinctIdentities-map :
      (same : (g : Goal) → (f g).identity ≡ g.identity) (goals : List Goal)
      → DistinctIdentities goals
      → DistinctIdentities (map f goals)
  DistinctIdentities-map same [] h = tt
  DistinctIdentities-map same (g ∷ gs) h =
      (rw (same g) (find_identity-map same g.identity gs h.0), DistinctIdentities-map same gs h.1)

-- Writes to columns that the schema does not speak of keep it.
module _ (f : Goal → Goal) (same_id : (g : Goal) → (f g).id ≡ g.id)
    (same_identity : (g : Goal) → (f g).identity ≡ g.identity) (h : Decomposition → Decomposition)
    (same_key : (d : Decomposition) → (h d).id ≡ d.id)
    (same_owner : (d : Decomposition) → (h d).goal_id ≡ d.goal_id)
    (same_subgoals : (d : Decomposition) → (h d).subgoal_ids ≡ d.subgoal_ids) where
  Schema-map :
      (s : Store)
      → Schema s
      → Schema (record s { goals = map f s.goals; decompositions = map h s.decompositions })
  Schema-map s c = record {
    goal_ids = Distinct-map goal_key f same_id s.goals c.goal_ids;
    identities = DistinctIdentities-map f same_id same_identity s.goals c.identities;
    decomposition_ids =
        Distinct-map decomposition_key h same_key s.decompositions c.decomposition_ids;
    routes = λ d' m.
        let (d, md, e) = Memᴰ.of_map h s.decompositions m in
        let r = c.routes d md in
        rw (← e) (record {
          owner = rw same_owner (HasGoal-map f same_id d.goal_id s.goals r.owner);
          subgoals =
              λ i mi. HasGoal-map f same_id i s.goals (r.subgoals i (rw same_subgoals at mi));
          some_subgoal = rw same_subgoals r.some_subgoal;
        });
    tried = λ a m. HasGoal-map f same_id a.goal_id s.goals (c.tried a m);
  }

module _ (f : Goal → Goal) (same_id : (g : Goal) → (f g).id ≡ g.id)
    (same_identity : (g : Goal) → (f g).identity ≡ g.identity) where
  pub Schema-map_goals : (s : Store) → Schema s → Schema (record s { goals = map f s.goals })
  Schema-map_goals s c =
      rw (map_id s.decompositions) at
        (Schema-map f same_id same_identity (λ d. d) (λ d. refl) (λ d. refl) (λ d. refl) s c)

module _ (h : Decomposition → Decomposition) (same_key : (d : Decomposition) → (h d).id ≡ d.id)
    (same_owner : (d : Decomposition) → (h d).goal_id ≡ d.goal_id)
    (same_subgoals : (d : Decomposition) → (h d).subgoal_ids ≡ d.subgoal_ids) where
  pub Schema-map_decompositions :
      (s : Store) → Schema s → Schema (record s { decompositions = map h s.decompositions })
  Schema-map_decompositions s c =
      rw (map_id s.goals) at
        (Schema-map (λ g. g) (λ g. refl) (λ g. refl) h same_key same_owner same_subgoals s c)
