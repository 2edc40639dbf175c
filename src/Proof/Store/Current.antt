-- ===== src/Proof/Store/Current.antt =====
-- Which writes of store.py keep a store current, and which leave one goal to `propagate`.
pub mod Rows
pub mod Route
pub mod Pending
pub mod Ruled
use evo_harness_preview.Prelude.{
  ℕ, String, ◌≡◌, refl, sym, ap, ◌∙◌, Bool, inl, inr, Option, none, some, List, [], ◌∷◌, map, Memᴰ,
  arith, find_key, find_key-map, map_option, map-congr, Option-cases,
}
use evo_harness_preview.Proof.Graph.{Goal, GoalStatus, Decomposition, open_goal}
use evo_harness_preview.Proof.Store.State.{Store, goal_key, decompositions_of, attempts_of}
use evo_harness_preview.Proof.Store.Schema.{HasGoal, Schema, Schema-map_goals}
use evo_harness_preview.Proof.Store.Write.Inserts.{Extends}
use evo_harness_preview.Proof.Store.Proves.{Keeps, Proves-mono, ProvesAll-mono}
use evo_harness_preview.Proof.Store.Propagate.View.{status_of, advance}
use evo_harness_preview.Proof.Store.Propagate.Settles.{IsSettled, IsSettled-congr}
use evo_harness_preview.Proof.Store.Propagate.Exact.{IsSound}
use evo_harness_preview.Proof.Store.Propagate.Correct.{IsCurrent}

-- A change that no status of a goal shows leaves every goal settled whose rows it leaves alone.
pub IsSettled-frame :
    (limit : ℕ) (s s' : Store) (x : ℕ)
    → attempts_of x s' ≡ attempts_of x s
    → decompositions_of x s' ≡ decompositions_of x s
    → ((i : ℕ) → status_of s'.goals i ≡ status_of s.goals i)
    → IsSettled limit s x
    → IsSettled limit s' x
IsSettled-frame limit s s' x attempts rows status h =
    IsSettled-congr limit s s' x attempts rows (status x)
      (λ d m.
        unfold advance in
        rw (map-congr (status_of s'.goals) (status_of s.goals) d.subgoal_ids (λ i mi. status i)))
      h

pub status_of-Extends :
    (goals goals' : List Goal)
    → Extends goals goals'
    → (i : ℕ) → status_of goals' i ≡ status_of goals i
status_of-Extends goals goals' x i = elim (Option-cases (find_key goal_key i goals')) [
  | inr (g, e) ↦ elim (x.new i g e) [ inl same ↦ ground arith | inr (fresh, absent) ↦ ground arith ]
  | inl missing ↦ elim (Option-cases (find_key goal_key i goals)) [
    | inl none_before ↦ ground arith
    | inr (g, e) ↦ absurd (ground (arith, x.old i g e))
  ]
]

-- Writes to a goal's columns other than its status, such as the leases, keep a store current.
module _ (f : Goal → Goal) (same_id : (g : Goal) → (f g).id ≡ g.id)
    (same_identity : (g : Goal) → (f g).identity ≡ g.identity)
    (same_status : (g : Goal) → (f g).status ≡ g.status) where
  pub status_of-map : (goals : List Goal) (i : ℕ) → status_of (map f goals) i ≡ status_of goals i
  status_of-map goals i = elim (Option-cases (find_key goal_key i goals)) [
    | inl missing ↦ ground (arith, find_key-map goal_key f same_id i goals)
    | inr (g, e) ↦ ground (arith, find_key-map goal_key f same_id i goals, same_status g)
  ]

  pub IsCurrent-map_goals :
      (limit : ℕ) (s : Store)
      → IsCurrent limit s
      → IsCurrent limit (record s { goals = map f s.goals })
  IsCurrent-map_goals limit s c =
      let k : Keeps s (record s { goals = map f s.goals }) = record {
        attempts = λ a m. m;
        routes = λ d m v. (d, m, refl, refl, v);
      } in
      record {
        schema = Schema-map_goals f same_id same_identity s c.schema;
        settled = λ x.
            IsSettled-frame limit s (record s { goals = map f s.goals }) x
              (unfold attempts_of in refl) (unfold decompositions_of in refl)
              (status_of-map s.goals) (c.settled x);
        sound = record {
          goals = λ g e.
              Proves-mono s (record s { goals = map f s.goals }) k
                (c.sound.goals g (sym (status_of-map s.goals g) ∙ e));
          routes = λ d m e.
              ProvesAll-mono s (record s { goals = map f s.goals }) k (c.sound.routes d m e);
        };
      }

-- New goals keep a store current.
pub IsCurrent-Extends :
    (limit : ℕ) (s : Store) (goals : List Goal)
    → Extends s.goals goals
    → IsCurrent limit s
    → IsCurrent limit (record s { goals = goals })
IsCurrent-Extends limit s goals x c =
    let k : Keeps s (record s { goals = goals }) = record {
      attempts = λ a m. m;
      routes = λ d m v. (d, m, refl, refl, v);
    } in
    let status = status_of-Extends s.goals goals x in
    record {
      schema = record {
        goal_ids = x.ids;
        identities = x.identities;
        decomposition_ids = c.schema.decomposition_ids;
        routes = λ d m.
            let r = c.schema.routes d m in
            record {
              owner = let (g, e) = r.owner in (g, x.old d.goal_id g e);
              subgoals = λ i mi. let (g, e) = r.subgoals i mi in (g, x.old i g e);
              some_subgoal = r.some_subgoal;
            };
        tried = λ a m. let (g, e) = c.schema.tried a m in (g, x.old a.goal_id g e);
      };
      settled = λ y.
          IsSettled-frame limit s (record s { goals = goals }) y (unfold attempts_of in refl)
            (unfold decompositions_of in refl) status (c.settled y);
      sound = record {
        goals = λ g e.
            Proves-mono s (record s { goals = goals }) k (c.sound.goals g (sym (status g) ∙ e));
        routes = λ d m e. ProvesAll-mono s (record s { goals = goals }) k (c.sound.routes d m e);
      };
    }
