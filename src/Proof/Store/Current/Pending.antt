-- ===== src/Proof/Store/Current/Pending.antt =====
-- The writes that leave one goal to `propagate`: a new attempt, a new route, and a change of the
-- leases.
use mathlib.Core.List.Memᴰ
use evo_harness_preview.Prelude.{
  ℕ, String, ◌≡◌, ◌≢◌, refl, sym, ap, ◌∙◌, subst, inl, inr, Option, List, [], ◌∷◌, ◌++◌, map, Memᴰ,
  arith, filter_where-concat, if◌then◌else◌, ◌==◌,
}
use evo_harness_preview.Proof.Graph.{Goal, Decomposition, Attempt, proposed}
use evo_harness_preview.Proof.Store.State.{Store, Sketch, ok, decompositions_of, attempts_of}
use evo_harness_preview.Proof.Store.Schema.{HasGoal, HasGoal-map, Schema, Schema-map_goals}
use evo_harness_preview.Proof.Store.Shape.{add_decomposition}
use evo_harness_preview.Proof.Store.Shape.Rows.{add_decomposition-Added}
use evo_harness_preview.Proof.Store.Proves.{Keeps, Proves-mono, ProvesAll-mono}
use evo_harness_preview.Proof.Store.Propagate.{propagate, set_goal_status}
use evo_harness_preview.Proof.Store.Propagate.View.{moved, advanced_row}
use evo_harness_preview.Proof.Store.Propagate.Settles.{IsSettled}
use evo_harness_preview.Proof.Store.Propagate.Exact.{IsSound, moved-IsSound, written-IsSound}
use evo_harness_preview.Proof.Store.Propagate.Loop.{propagate_ends}
use evo_harness_preview.Proof.Store.Propagate.Correct.{IsCurrent}
use evo_harness_preview.Proof.Store.Current.{IsSettled-frame, status_of-map}
use evo_harness_preview.Proof.Store.Current.Route.{
  advance-proposed, Added-others, Added-Schema, Added-IsSound,
}

-- A current store, but for the status of `g`.
pub record IsPending (limit g : ℕ) (s : Store) : Type 0 where
  pub schema : Schema s
  pub sound : IsSound s
  pub row : HasGoal s.goals g
  pub others : (x : ℕ) → x ≢ g → IsSettled limit s x

pub IsPending-of_current :
    (limit g : ℕ) (s : Store) → IsCurrent limit s → HasGoal s.goals g → IsPending limit g s
IsPending-of_current limit g s c row = record {
  schema = c.schema;
  sound = c.sound;
  row = row;
  others = λ x _. c.settled x;
}

-- What `propagate` leaves: a current store, with the attempts, the sketches and the rows of the
-- routes that have no verdict.
pub record Propagated (limit : ℕ) (s s' : Store) : Type 0 where
  pub current : IsCurrent limit s'
  pub attempts : s'.attempts ≡ s.attempts
  pub sketches : s'.sketches ≡ s.sketches
  pub waiting :
      (d : Decomposition) → Memᴰ d s.decompositions → d.status ≡ proposed → Memᴰ d s'.decompositions

waiting-moved :
    (x : ℕ) (s : Store) (d : Decomposition)
    → Memᴰ d s.decompositions
    → d.status ≡ proposed
    → Memᴰ d (moved x s).decompositions
unfolding moved advanced_row
waiting-moved x s d m e =
    subst (λ r. Memᴰ r (moved x s).decompositions) (ground (arith, advance-proposed s.goals d e))
      (Memᴰ.map (λ r. if r.goal_id == x then advanced_row s.goals r else r) m)

pub propagate-IsCurrent :
    (limit g : ℕ) (s : Store)
    → IsPending limit g s
    → (budget : ℕ) (level : String)
    → (s' : Store) × (propagate limit budget level g s ≡ (ok tt, s')) × Propagated limit s s'
propagate-IsCurrent limit g s p budget level =
    let (s', ends, f) =
      propagate_ends limit budget level
        (λ t.
          IsSound t
          × (t.attempts ≡ s.attempts)
          × (t.sketches ≡ s.sketches)
          × ((d : Decomposition)
              → Memᴰ d s.decompositions
              → d.status ≡ proposed
              → Memᴰ d t.decompositions))
        (λ x t _ q. (
          moved-IsSound t q.0 x,
          unfold moved in q.1,
          unfold moved in q.2,
          λ d m e. waiting-moved x t d (q.3 d m e) e,
        ))
        (λ x t _ r q. (
          written-IsSound t q.0 x limit budget level r,
          unfold moved set_goal_status in q.1,
          unfold moved set_goal_status in q.2,
          λ d m e. unfold set_goal_status in waiting-moved x t d (q.3 d m e) e,
        ))
        g s p.schema p.row p.others (p.sound, refl, refl, λ d m e. m) in
    (
      s',
      ends,
      record {
        current = record { schema = f.schema; settled = f.settled; sound = f.kept.0 };
        attempts = f.kept.1;
        sketches = f.kept.2;
        waiting = f.kept.3;
      },
    )

-- A new route.
pub add_decomposition-IsPending :
    (limit : ℕ) (draw : ℕ → ℕ) (g : ℕ) (subgoals : List (String × String))
    → (sketch : Option Sketch) (s s' : Store) (d : Decomposition) → IsCurrent limit s
    → add_decomposition draw g subgoals sketch proposed s ≡ (ok d, s')
    → IsPending limit g s'
add_decomposition-IsPending limit draw g subgoals sketch s s' d c e =
    let a = add_decomposition-Added draw g sketch proposed s subgoals d s' c.schema e in
    record {
      schema = Added-Schema limit g subgoals s s' d c a;
      sound = Added-IsSound limit g subgoals s s' d c a;
      row = let (r, row) = a.parent in (r, a.extends.old g r row);
      others = Added-others limit g subgoals s s' d c a;
    }

-- A new attempt.
module _ (limit g : ℕ) (s : Store) (p : IsPending limit g s) where
  module _ (a : Attempt) (owner : a.goal_id ≡ g) where
    abbrev tried : Store
    tried = record s { attempts = s.attempts ++ a ∷ [] }

    tried-Keeps : Keeps s tried
    tried-Keeps = record {
      attempts = λ b m. Memᴰ.append_left (a ∷ []) m;
      routes = λ r m v. (r, m, refl, refl, v);
    }

    attempts_ne : (x : ℕ) → x ≢ g → attempts_of x tried ≡ attempts_of x s
    unfolding attempts_of
    attempts_ne x ne =
        ground (arith, filter_where-concat (λ (b : Attempt). b.goal_id == x) s.attempts a)

    pub tried-IsPending : IsPending limit g (record s { attempts = s.attempts ++ a ∷ [] })
    tried-IsPending = record {
      schema = record {
        goal_ids = p.schema.goal_ids;
        identities = p.schema.identities;
        decomposition_ids = p.schema.decomposition_ids;
        routes = p.schema.routes;
        tried = λ b m. elim (Memᴰ.append_cases s.attempts m) [
          | inl old ↦ p.schema.tried b old
          | inr new ↦
              subst (HasGoal s.goals)
                (sym (ap (λ (r : Attempt). r.goal_id) (Memᴰ.eq_of_singleton new) ∙ owner)) p.row
        ];
      };
      sound = record {
        goals = λ x e. Proves-mono s tried tried-Keeps (p.sound.goals x e);
        routes = λ d m e. ProvesAll-mono s tried tried-Keeps (p.sound.routes d m e);
      };
      row = p.row;
      others = λ x ne.
          IsSettled-frame limit s tried x (attempts_ne x ne) (unfold decompositions_of in refl)
            (λ i. refl) (p.others x ne);
    }

  -- A change of the leases.
  pub map_goals-IsPending :
      (f : Goal → Goal)
      → ((r : Goal) → (f r).id ≡ r.id)
      → ((r : Goal) → (f r).identity ≡ r.identity)
      → ((r : Goal) → (f r).status ≡ r.status)
      → IsPending limit g (record s { goals = map f s.goals })
  map_goals-IsPending f same_id same_identity same_status =
      let s' : Store = record s { goals = map f s.goals } in
      let k : Keeps s s' = record {
        attempts = λ a m. m;
        routes = λ d m v. (d, m, refl, refl, v);
      } in
      let status = status_of-map f same_id same_identity same_status s.goals in
      record {
        schema = Schema-map_goals f same_id same_identity s p.schema;
        sound = record {
          goals = λ x e. Proves-mono s s' k (p.sound.goals x (sym (status x) ∙ e));
          routes = λ d m e. ProvesAll-mono s s' k (p.sound.routes d m e);
        };
        row = HasGoal-map f same_id g s.goals p.row;
        others = λ x ne.
            IsSettled-frame limit s s' x (unfold attempts_of in refl)
              (unfold decompositions_of in refl) status (p.others x ne);
      }
