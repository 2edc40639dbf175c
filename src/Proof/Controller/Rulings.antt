-- ===== src/Proof/Controller/Rulings.antt =====
-- The verdicts on routes: `record_decomposition` and `revalidate_proposed` of controller.py.
use mathlib.Core.List.Memᴰ
use evo_harness_preview.Prelude.{
  ℕ, suc, String, ◌≡◌, ◌≢◌, refl, sym, ◌∙◌, subst, inl, inr, some, List, [], ◌∷◌, Memᴰ, arith,
  find_key, find_key_of_mem, key_of_find_key, Distinct, Distinct-filter_where, filter_where,
  filter_where_iff, if◌then◌else◌, ◌==◌,
}
use evo_harness_preview.Proof.Graph.{
  Goal, Decomposition, DecompositionStatus, proposed, accepted, rejected_by_verifier,
}
use evo_harness_preview.Proof.Store.State.{
  Store, Sketch, Result-cases, ok, decomposition_key, sketch_key, goal_key, goal, decomposition,
  sketch_of, proposed_decompositions, total_cost, is_proposed,
}
use evo_harness_preview.Proof.Store.Schema.{HasGoal}
use evo_harness_preview.Proof.Store.Write.{set_decomposition_status}
use evo_harness_preview.Proof.Store.Shape.{add_decomposition}
use evo_harness_preview.Proof.Store.Shape.Rows.{add_decomposition-Added, add_decomposition_atomic}
use evo_harness_preview.Proof.Store.Propagate.Correct.{IsCurrent}
use evo_harness_preview.Proof.Store.Current.Pending.{
  IsPending, IsPending-of_current, propagate-IsCurrent, add_decomposition-IsPending,
}
use evo_harness_preview.Proof.Store.Current.Ruled.{ruled-IsPending}
use evo_harness_preview.Proof.Controller.{
  Outside, Settings, Validation, DecompositionOutcome, World, no_outcome, add_outcome, one_ruled,
  rule_on, record_decomposition, revalidate, revalidate_each, revalidate_proposed, subgoals_of,
}

-- A validator that never raises SketchUnavailable.
abbrev pub Answers : Outside → Type 0
Answers o = (n : ℕ) (g : Goal) (k : Sketch) → (v : Validation) × (o.validate_sketch n g k ≡ some v)

-- What a verdict on the route `d` leaves.
pub record Ruled (limit : ℕ) (d : Decomposition) (s s' : Store) : Type 0 where
  pub current : IsCurrent limit s'
  pub sketches : s'.sketches ≡ s.sketches
  pub waiting :
      (e : Decomposition)
      → Memᴰ e s.decompositions
      → e.status ≡ proposed
      → e.id ≢ d.id
      → Memᴰ e s'.decompositions

waiting-set :
    (k : ℕ) (status : DecompositionStatus) (reason : String) (s : Store) (e : Decomposition)
    → Memᴰ e s.decompositions
    → e.id ≢ k
    → Memᴰ e (set_decomposition_status k status reason s).decompositions
unfolding set_decomposition_status
waiting-set k status reason s e m ne =
    subst (λ r. Memᴰ r (set_decomposition_status k status reason s).decompositions) (ground arith)
      (Memᴰ.map
        (λ (r : Decomposition).
          if r.id == k then record r { status = status; rejected_reason = reason } else r)
        m)

module _ (o : Outside) (c : Settings) where
  pub rule_on_lem :
      (d : Decomposition) (g : ℕ) (verdict : Validation) (w : World)
      → IsPending c.max_capability_attempts g w.store
      → Memᴰ d w.store.decompositions
      → d.goal_id ≡ g
      → d.status ≡ proposed
      → (w' : World) × (rule_on o c d.id g verdict w ≡ (ok (one_ruled verdict.is_ok), w'))
        × Ruled c.max_capability_attempts d w.store w'.store
  unfolding rule_on
  rule_on_lem d g verdict w p m owner st =
      let status = if verdict.is_ok then accepted else rejected_by_verifier in
      let s₁ = set_decomposition_status d.id status verdict.reason w.store in
      let (s₂, ends, f) =
        propagate-IsCurrent c.max_capability_attempts g s₁
          (ruled-IsPending c.max_capability_attempts g w.store p d m owner st status verdict.reason
            (ground arith))
          (total_cost s₁) o.level in
      (
        record { store = s₂; moment = suc w.moment },
        ground arith,
        record {
          current = f.current;
          sketches = f.sketches ∙ (unfold set_decomposition_status in refl);
          waiting = λ e me ste ne.
              f.waiting e (waiting-set d.id status verdict.reason w.store e me ne) ste;
        },
      )

  -- If the validator answers, a call of `record_decomposition` on a current store leaves a current
  -- store, whether it returns or raises.
  pub record_decomposition-IsCurrent :
      Answers o
      → (g : Goal) (sketch : Sketch) (w : World) → IsCurrent c.max_capability_attempts w.store
      → IsCurrent c.max_capability_attempts (record_decomposition o c g sketch w).1.store
  unfolding record_decomposition
  record_decomposition-IsCurrent answers g sketch w h =
      let run =
        add_decomposition (o.draw w.moment) g.id (subgoals_of o c sketch) (some sketch) proposed
          w.store in
      elim (Result-cases run.0) [
        | inl (e, raised) ↦
            subst (IsCurrent c.max_capability_attempts)
              (ground (
                arith,
                add_decomposition_atomic (o.draw w.moment) g.id (some sketch) proposed w.store
                    (subgoals_of o c sketch) e raised,
              ))
              h
        | inr (d, added) ↦
            let whole : run ≡ (ok d, run.1) = ground arith in
            let a =
              add_decomposition-Added (o.draw w.moment) g.id (some sketch) proposed w.store
                (subgoals_of o c sketch) d run.1 h.schema whole in
            let p =
              add_decomposition-IsPending c.max_capability_attempts (o.draw w.moment) g.id
                (subgoals_of o c sketch) (some sketch) w.store run.1 d h whole in
            let (verdict, said) = answers (suc w.moment) g sketch in
            let (w', ends, f) =
              rule_on_lem d g.id verdict (record { store = run.1; moment = suc w.moment }) p
                (subst (Memᴰ d) (sym a.rows)
                  (Memᴰ.append_right w.store.decompositions (Memᴰ.head refl)))
                a.owner a.status_row in
            subst (IsCurrent c.max_capability_attempts) (ground arith) f.current
      ]

  -- A proposed route is there to be ruled on, with its sketch.
  abbrev Rulable : Store → Decomposition → Type 0
  Rulable s d =
      Memᴰ d s.decompositions
      × (d.status ≡ proposed)
      × ((k : Sketch) × (find_key sketch_key d.id s.sketches ≡ some (d.id, k)))

  revalidate_lem :
      Answers o
      → (d : Decomposition) (w : World) → IsCurrent c.max_capability_attempts w.store
      → Rulable w.store d
      → (one : DecompositionOutcome) × (w' : World) × (revalidate o c d w ≡ (ok one, w'))
        × Ruled c.max_capability_attempts d w.store w'.store
  unfolding revalidate sketch_of decomposition goal
  revalidate_lem answers d w h (m, st, (k, kept)) =
      let row : find_key decomposition_key d.id w.store.decompositions ≡ some d =
        find_key_of_mem decomposition_key d w.store.decompositions h.schema.decomposition_ids m in
      let (g, owner_row) = (h.schema.routes d m).owner in
      let same : g.id ≡ d.goal_id = key_of_find_key goal_key d.goal_id g w.store.goals owner_row in
      let (verdict, said) = answers w.moment g k in
      let (w', ends, f) =
        rule_on_lem d g.id verdict (record { store = w.store; moment = suc w.moment })
          (IsPending-of_current c.max_capability_attempts g.id w.store h
            (subst (HasGoal w.store.goals) (sym same) (g, owner_row)))
          m (sym same) st in
      (one_ruled verdict.is_ok, w', ground arith, f)

  revalidate_each-IsCurrent :
      Answers o
      → (ds : List Decomposition) (w : World) → Distinct decomposition_key ds
      → ((d : Decomposition) → Memᴰ d ds → Rulable w.store d)
      → IsCurrent c.max_capability_attempts w.store
      → (all : DecompositionOutcome) × (w' : World) × (revalidate_each o c ds w ≡ (ok all, w'))
        × IsCurrent c.max_capability_attempts w'.store
  unfolding revalidate_each
  revalidate_each-IsCurrent answers [] w apart there h = (no_outcome, w, refl, h)
  revalidate_each-IsCurrent answers (d ∷ ds) w apart there h =
      let (one, w₁, ends₁, f) = revalidate_lem answers d w h (there d (Memᴰ.head refl)) in
      let (rest, w₂, ends₂, h₂) =
        revalidate_each-IsCurrent answers ds w₁ apart.1
          (λ e m.
            let (me, st, (k, kept)) = there e (Memᴰ.tail m) in
            (
              f.waiting e me st (λ same.
                  absurd
                    (ground (arith, apart.0, find_key_of_mem decomposition_key e ds apart.1 m))),
              st,
              (k, rw f.sketches kept),
            ))
          f.current in
      (add_outcome one rest, w₂, ground arith, h₂)

  -- If the validator answers and every proposed route has its sketch, `revalidate_proposed` on a
  -- current store returns, and leaves a current store.
  pub revalidate_proposed-IsCurrent :
      Answers o
      → (w : World)
      → ((d : Decomposition)
          → Memᴰ d w.store.decompositions
          → d.status ≡ proposed
          → (k : Sketch) × (find_key sketch_key d.id w.store.sketches ≡ some (d.id, k)))
      → IsCurrent c.max_capability_attempts w.store
      → (all : DecompositionOutcome) × (w' : World) × (revalidate_proposed o c w ≡ (ok all, w'))
        × IsCurrent c.max_capability_attempts w'.store
  unfolding revalidate_proposed proposed_decompositions
  revalidate_proposed-IsCurrent answers w kept h =
      revalidate_each-IsCurrent answers
        (filter_where (λ d. is_proposed d.status) w.store.decompositions) w
        (Distinct-filter_where decomposition_key (λ d. is_proposed d.status) w.store.decompositions
          h.schema.decomposition_ids)
        (λ d m.
          let (row, st) =
            (filter_where_iff (λ (e : Decomposition). is_proposed e.status) d
                w.store.decompositions).0
              m in
          let ps : d.status ≡ proposed = ground arith in (row, ps, kept d row ps))
        h
