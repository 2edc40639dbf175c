-- ===== src/Proof/Store/Current/Route.antt =====
-- A new route in a current store.
use mathlib.Core.List.Memᴰ
use native.Mathlib.Decide.{ℕ_discrete}
use evo_harness_preview.Prelude.{
  ℕ, String, ◌≡◌, ◌≢◌, refl, sym, ap, ◌∙◌, subst, inl, inr, Option, List, [], ◌∷◌, ◌++◌, map, Memᴰ,
  arith, Distinct-concat, filter_where, filter_where-concat, map-concat, map-congr, Distinct,
  if◌then◌else◌, ◌==◌,
}
use evo_harness_preview.Proof.Graph.{
  Goal, Decomposition, Attempt, proposed, open_goal, exhausted, is_exhausted,
  decomposition_status_from,
}
use evo_harness_preview.Proof.Graph.Rules.{goal_status_from-concat_proposed}
use evo_harness_preview.Proof.Store.State.{
  Store, Sketch, ok, decomposition_key, decompositions_of, attempts_of,
}
use evo_harness_preview.Proof.Store.Schema.{Schema, Refers}
use evo_harness_preview.Proof.Store.Write.Inserts.{Extends}
use evo_harness_preview.Proof.Store.Shape.{add_decomposition}
use evo_harness_preview.Proof.Store.Shape.Rows.{Added, add_decomposition-Added}
use evo_harness_preview.Proof.Store.Proves.{Keeps, Proves-mono, ProvesAll-mono}
use evo_harness_preview.Proof.Store.Propagate.View.{status_of, advance, target}
use evo_harness_preview.Proof.Store.Propagate.Settles.{IsSettled}
use evo_harness_preview.Proof.Store.Propagate.Exact.{IsSound}
use evo_harness_preview.Proof.Store.Propagate.Correct.{IsCurrent}
use evo_harness_preview.Proof.Store.Current.{IsSettled-frame, status_of-Extends}

Refers-Extends :
    (goals goals' : List Goal) (d : Decomposition)
    → Extends goals goals'
    → Refers goals d
    → Refers goals' d
Refers-Extends goals goals' d x r = record {
  owner = let (g, e) = r.owner in (g, x.old d.goal_id g e);
  subgoals = λ i m. let (g, e) = r.subgoals i m in (g, x.old i g e);
  some_subgoal = r.some_subgoal;
}

pub advance-proposed :
    (goals : List Goal) (d : Decomposition) → d.status ≡ proposed → advance goals d ≡ proposed
unfolding advance decomposition_status_from
advance-proposed goals d e = ground arith

module _ (limit goal_id : ℕ) (subgoals : List (String × String)) (s s' : Store) (d : Decomposition)
    (c : IsCurrent limit s) (a : Added goal_id subgoals proposed s d s') where
  status_same : (i : ℕ) → status_of s'.goals i ≡ status_of s.goals i
  status_same = status_of-Extends s.goals s'.goals a.extends

  advance_same : (e : Decomposition) → advance s'.goals e ≡ advance s.goals e
  unfolding advance
  advance_same e =
      rw (map-congr (status_of s'.goals) (status_of s.goals) e.subgoal_ids (λ i _. status_same i))

  attempts_same : (x : ℕ) → attempts_of x s' ≡ attempts_of x s
  unfolding attempts_of
  attempts_same x = ap (filter_where (λ (b : Attempt). b.goal_id == x)) a.attempts

  rows_ne : (x : ℕ) → x ≢ goal_id → decompositions_of x s' ≡ decompositions_of x s
  unfolding decompositions_of
  rows_ne x ne =
      ap (filter_where (λ (r : Decomposition). r.goal_id == x)) a.rows
      ∙ ground (
        arith,
        a.owner,
        filter_where-concat (λ (r : Decomposition). r.goal_id == x) s.decompositions d,
      )

  rows_self : decompositions_of goal_id s' ≡ decompositions_of goal_id s ++ d ∷ []
  unfolding decompositions_of
  rows_self =
      ap (filter_where (λ (r : Decomposition). r.goal_id == goal_id)) a.rows
      ∙ ground (
        arith,
        a.owner,
        filter_where-concat (λ (r : Decomposition). r.goal_id == goal_id) s.decompositions d,
      )

  target_self :
      target limit goal_id s'
      ≡ (if is_exhausted (target limit goal_id s) then open_goal else target limit goal_id s)
  unfolding target
  target_self =
      rw
        (
          attempts_same goal_id,
          rows_self,
          map-concat (advance s'.goals) (decompositions_of goal_id s) d,
          map-congr (advance s'.goals) (advance s.goals) (decompositions_of goal_id s)
              (λ e _. advance_same e),
          advance-proposed s'.goals d a.status_row,
        )
        (goal_status_from-concat_proposed (map (λ (b : Attempt). b.outcome) (attempts_of goal_id s))
          (map (advance s.goals) (decompositions_of goal_id s)) limit)

  IsSettled-self : status_of s.goals goal_id ≢ exhausted → IsSettled limit s' goal_id
  IsSettled-self ne = record {
    derived =
        status_same goal_id
        ∙ (c.settled goal_id).derived
        ∙ ground (arith, target_self, (c.settled goal_id).derived);
    rested = λ e m.
        elim (Memᴰ.append_cases (decompositions_of goal_id s) (subst (Memᴰ e) rows_self m)) [
          | inl old ↦ advance_same e ∙ (c.settled goal_id).rested e old
          | inr new ↦
              let same = Memᴰ.eq_of_singleton new in
              let st : e.status ≡ proposed =
                ap (λ (r : Decomposition). r.status) same ∙ a.status_row in
              advance-proposed s'.goals e st ∙ sym st
        ];
  }

  Added-Keeps : Keeps s s'
  Added-Keeps = record {
    attempts = λ b m. subst (Memᴰ b) (sym a.attempts) m;
    routes = λ r m v. (r, subst (Memᴰ r) (sym a.rows) (Memᴰ.append_left (d ∷ []) m), refl, refl, v);
  }

  pub Added-Schema : Schema s'
  Added-Schema = record {
    goal_ids = a.extends.ids;
    identities = a.extends.identities;
    decomposition_ids =
        subst (λ l. Distinct decomposition_key l) (sym a.rows)
          (Distinct-concat decomposition_key d s.decompositions c.schema.decomposition_ids
            a.new_id);
    routes = λ r m. elim (Memᴰ.append_cases s.decompositions (subst (Memᴰ r) a.rows m)) [
      | inl old ↦ Refers-Extends s.goals s'.goals r a.extends (c.schema.routes r old)
      | inr new ↦ subst (Refers s'.goals) (sym (Memᴰ.eq_of_singleton new)) (record {
        owner = let (g, e) = a.parent in (g, rw a.owner (a.extends.old goal_id g e));
        subgoals = λ i mi. let (g, e, _) = a.named i mi in (g, e);
        some_subgoal = a.some_subgoal;
      })
    ];
    tried = λ b m.
        let (g, e) = c.schema.tried b (subst (Memᴰ b) a.attempts m) in
        (g, a.extends.old b.goal_id g e);
  }

  pub Added-IsSound : IsSound s'
  Added-IsSound = record {
    goals = λ g e. Proves-mono s s' Added-Keeps (c.sound.goals g (sym (status_same g) ∙ e));
    routes = λ r m e. elim (Memᴰ.append_cases s.decompositions (subst (Memᴰ r) a.rows m)) [
      | inl old ↦ ProvesAll-mono s s' Added-Keeps (c.sound.routes r old e)
      | inr new ↦ absurd (
          ground
            (arith, a.status_row, ap (λ (q : Decomposition). q.status) (Memᴰ.eq_of_singleton new)))
    ];
  }

  -- A new proposal leaves every other goal settled.
  pub Added-others : (x : ℕ) → x ≢ goal_id → IsSettled limit s' x
  Added-others x ne =
      IsSettled-frame limit s s' x (attempts_same x) (rows_ne x ne) status_same (c.settled x)

  Added-IsCurrent : status_of s.goals goal_id ≢ exhausted → IsCurrent limit s'
  Added-IsCurrent ne = record {
    schema = Added-Schema;
    settled = λ x. elim (ℕ_discrete x goal_id) [
      | yes here ↦ rw here (IsSettled-self ne)
      | no other ↦ Added-others x other
    ];
    sound = Added-IsSound;
  }

-- A call of add_decomposition with the status PROPOSED, which is its default, keeps a store current
-- if it returns and its goal was not exhausted.
pub add_decomposition-IsCurrent :
    (limit : ℕ) (draw : ℕ → ℕ) (goal_id : ℕ) (subgoals : List (String × String))
    → (sketch : Option Sketch) (s s' : Store) (d : Decomposition) → IsCurrent limit s
    → status_of s.goals goal_id ≢ exhausted
    → add_decomposition draw goal_id subgoals sketch proposed s ≡ (ok d, s')
    → IsCurrent limit s'
add_decomposition-IsCurrent limit draw goal_id subgoals sketch s s' d c ne e =
    Added-IsCurrent limit goal_id subgoals s s' d c
      (add_decomposition-Added draw goal_id sketch proposed s subgoals d s' c.schema e) ne
