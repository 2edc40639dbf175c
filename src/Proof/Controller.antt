-- ===== src/Proof/Controller.antt =====
-- evoharness/proof/controller.py: the loop that picks a goal, attacks it, propagates and decomposes.
--
-- The solver, the source of sketches, the validator of sketches, the choice among goals, the clock
-- and the numbers drawn are outside: functions of the moment at which they are called. No other
-- process writes to the store between the steps.
pub mod Loop
pub mod Claims
pub mod Rulings
pub mod Turns
pub mod Solve
pub mod RecoverStays
pub mod RecoverEnds
pub mod Ends
pub mod Counts
pub mod Offers
use evo_harness_preview.Prelude.{
  ℕ, zero, suc, ◌+◌, ◌-◌, String, Bool, true, false, not, ◌&&◌, ◌||◌, Option, none, some, List, [],
  ◌∷◌, map, any, is_empty, contains, filter_where, length, ltb, leb, ◌==◌, str_eq, append_text,
  if◌then◌else◌,
}
use evo_harness_preview.Proof.Graph.{
  Goal, Decomposition, Attempt, Outcome, DecompositionStatus, proposed, accepted,
  rejected_by_verifier, is_live, is_no_verdict, is_proved, is_proof,
}
use evo_harness_preview.Proof.Solver.{AttemptResult, interrupted}
use evo_harness_preview.Proof.Store.State.{
  Store, Sketch, SubgoalSpec, Exec, Result, Error, ok, err, out_of_fuel, cycle_error, goal,
  open_goals, decompositions_of, sketch_of, proposed_decompositions, total_cost,
}
use evo_harness_preview.Proof.Store.Write.{record_attempt, set_decomposition_status}
use evo_harness_preview.Proof.Store.Shape.{add_decomposition, reachable_from}
use evo_harness_preview.Proof.Store.Leases.{claim, release, force_release, stale_leases}
use evo_harness_preview.Proof.Store.Propagate.{propagate}

-- sketch.py
pub record Validation : Type 0 where
  pub is_ok : Bool
  pub reason : String

-- What the controller calls. The first argument of a function is the moment; `none` of `validate`
-- is SketchUnavailable. `draw` gives the numbers that a call of the store draws.
pub record Outside : Type 0 where
  pub attack : ℕ → Goal → ℕ → AttemptResult
  pub level : String
  pub propose : ℕ → Goal → Option Sketch
  pub validate_sketch : ℕ → Goal → Sketch → Option Validation
  pub select : List Goal → Option Goal
  pub draw : ℕ → ℕ → ℕ
  pub clock : ℕ → ℕ

pub record Settings : Type 0 where
  pub max_capability_attempts : ℕ
  pub max_consecutive_infra : ℕ
  pub lease_ttl_s : ℕ
  pub owner : String
  pub decompose_root_first : Bool

pub record DecompositionOutcome : Type 0 where
  pub accepted : ℕ
  pub rejected : ℕ
  pub cycles : ℕ
  deferred : ℕ

abbrev pub no_outcome : DecompositionOutcome
no_outcome = record { accepted = 0; rejected = 0; cycles = 0; deferred = 0 }

abbrev pub add_outcome : DecompositionOutcome → DecompositionOutcome → DecompositionOutcome
add_outcome a b = record {
  accepted = a.accepted + b.accepted;
  rejected = a.rejected + b.rejected;
  cycles = a.cycles + b.cycles;
  deferred = a.deferred + b.deferred;
}

abbrev pub one_ruled : Bool → DecompositionOutcome
one_ruled true = record { accepted = 1; rejected = 0; cycles = 0; deferred = 0 }
one_ruled false = record { accepted = 0; rejected = 1; cycles = 0; deferred = 0 }

abbrev one_deferred : DecompositionOutcome
one_deferred = record { accepted = 0; rejected = 0; cycles = 0; deferred = 1 }

abbrev one_cycle : DecompositionOutcome
one_cycle = record { accepted = 0; rejected = 0; cycles = 1; deferred = 0 }

-- The store at a moment.
pub record World : Type 0 where
  pub store : Store
  pub moment : ℕ

abbrev pub Run {ℓ} : Type ℓ → Type ℓ
Run A = World → Result A × World

infixl 5 ◌>>=◌
abbrev pub ◌>>=◌ {ℓ κ} : {A : Type ℓ} {B : Type κ} → Run A → (A → Run B) → Run B
(m >>= f) w = let (r, w') = m w in elim r [ err e ↦ (err e, w') | ok a ↦ f a w' ]

abbrev pub done {ℓ} : {A : Type ℓ} → A → Run A
done a w = (ok a, w)

-- A call of a method of the store, by its kind.
abbrev pub call {ℓ} : {A : Type ℓ} → Exec A → Run A
call m w = let (r, s) = m w.store in (r, record { store = s; moment = suc w.moment })

abbrev pub read {ℓ} : {A : Type ℓ} → (Store → Result A) → Run A
read f w = (f w.store, w)

abbrev pub write : (Store → Store) → Run (Unit {0})
write f w = (ok tt, record w { store = f w.store })

-- The moment, which passes.
abbrev pub now : Run ℕ
now w = (ok w.moment, record w { moment = suc w.moment })

-- `goals[0] if goals else None`
unfoldable pub select_first_open : List Goal → Option Goal
select_first_open [] = none
select_first_open (g ∷ gs) = some g

-- FixedDecompositions.propose: the goals that were offered their route are kept in `used`.
abbrev pub find_sketch : String → List (String × Sketch) → Option Sketch
find_sketch identity [] = none
find_sketch identity ((t, k) ∷ table) =
    if str_eq t identity then some k else find_sketch identity table

unfoldable pub propose_fixed :
    List (String × Sketch) → Goal → List String → Option Sketch × List String
propose_fixed table g used =
    if any (str_eq g.identity) used then (none, used) else elim (find_sketch g.identity table) [
      | none ↦ (none, used)
      | some k ↦ (some k, g.identity ∷ used)
    ]

-- `scope is None` is the whole workspace. _ROUTE_IN_PROGRESS has the members of `is_live`.
abbrev pub in_scope : Option (List ℕ) → ℕ → Bool
in_scope none i = true
in_scope (some scope) i = contains i scope

unfoldable pub actionable_goals : Option (List ℕ) → Store → List Goal
unfolding is_live
actionable_goals scope s =
    filter_where
      (λ g.
        in_scope scope g.id
        && not (any (λ (d : Decomposition). is_live d.status) (decompositions_of g.id s)))
      (open_goals s)

module _ (o : Outside) (c : Settings) where
  abbrev pub propagate_now : ℕ → Run (Unit {0})
  propagate_now goal_id w =
      call (propagate c.max_capability_attempts (total_cost w.store) o.level goal_id) w

  -- The verdict on a recorded route, and what follows from it.
  unfoldable pub rule_on : ℕ → ℕ → Validation → Run DecompositionOutcome
  unfolding set_decomposition_status
  rule_on decomposition_id goal_id verdict =
      write (
        set_decomposition_status decomposition_id
          (if verdict.is_ok then accepted else rejected_by_verifier) verdict.reason)
      >>= λ _. propagate_now goal_id >>= λ _. done (one_ruled verdict.is_ok)

  abbrev subgoals_of : Sketch → List (String × String)
  subgoals_of sketch = map (λ (p : SubgoalSpec). (p.identity, p.signature)) sketch.subgoals

  unfoldable pub record_decomposition : Goal → Sketch → Run DecompositionOutcome
  unfolding rule_on add_decomposition
  record_decomposition g sketch w =
      let (r, w') =
        call (add_decomposition (o.draw w.moment) g.id (subgoals_of sketch) (some sketch) proposed)
          w in
      elim r [
        | err e ↦ elim e [ cycle_error _ ↦ (ok one_cycle, w') | other ↦ (err other, w') ]
        | ok d ↦ elim (o.validate_sketch w'.moment g sketch) [
          | none ↦ (ok one_deferred, w')
          | some verdict ↦ rule_on d.id g.id verdict w'
        ]
      ]

  unfoldable pub maybe_decompose : Goal → Run DecompositionOutcome
  unfolding record_decomposition
  maybe_decompose g = now >>= λ n. elim (o.propose n g) [
    | none ↦ done no_outcome
    | some sketch ↦ record_decomposition g sketch
  ]

  -- One round of `revalidate_proposed`.
  unfoldable pub revalidate : Decomposition → Run DecompositionOutcome
  unfolding rule_on set_decomposition_status sketch_of
  revalidate d = read (sketch_of d.id) >>= λ sketch. elim sketch [
    | none ↦
        write (
          set_decomposition_status d.id rejected_by_verifier
            "the decomposition was recorded without a sketch")
        >>= λ _. done (one_ruled false)
    | some k ↦ read (goal d.goal_id) >>= λ g. now >>= λ n. elim (o.validate_sketch n g k) [
      | none ↦ done one_deferred
      | some verdict ↦ rule_on d.id g.id verdict
    ]
  ]

  unfoldable pub revalidate_each : List Decomposition → Run DecompositionOutcome
  unfolding revalidate
  revalidate_each [] = done no_outcome
  revalidate_each (d ∷ ds) =
      revalidate d >>= λ one. revalidate_each ds >>= λ rest. done (add_outcome one rest)

  unfoldable pub revalidate_proposed : Run DecompositionOutcome
  unfolding revalidate_each proposed_decompositions
  revalidate_proposed w = revalidate_each (proposed_decompositions w.store) w

  abbrev pub record_result : ℕ → AttemptResult → Run Attempt
  record_result goal_id r w =
      call
        (record_attempt (o.draw w.moment 0) goal_id r.outcome r.proof_text r.run_dir r.evidence_ref
          r.cost r.note (o.clock w.moment))
        w

  abbrev lease_note : Goal → String
  lease_note g = elim g.lease_owner [
    | none ↦ "lease held by None expired without release"
    | some owner ↦ append_text "lease held by " (append_text owner " expired without release")
  ]

  -- One round of `recover`.
  unfoldable pub recover_goal : Goal → Run ℕ
  unfolding interrupted force_release
  recover_goal g = record_result g.id (interrupted g.lease_run_dir (lease_note g)) >>= λ _.
      write (force_release g.id) >>= λ _. propagate_now g.id >>= λ _. done g.id

  unfoldable pub recover_each : List Goal → Run (List ℕ)
  unfolding recover_goal
  recover_each [] = done []
  recover_each (g ∷ gs) = recover_goal g >>= λ i. recover_each gs >>= λ rest. done (i ∷ rest)

  unfoldable pub recover : Run (List ℕ)
  unfolding recover_each revalidate_proposed stale_leases
  recover = revalidate_proposed >>= λ _.
      now >>= λ n. λ w. recover_each (stale_leases (o.clock n) w.store) w

  -- The inner loop of `solve`: the first choice that can be claimed.
  unfoldable pub claim_first : ℕ → List Goal → Run (Option Goal)
  unfolding claim
  claim_first zero candidates w = if is_empty candidates then (ok none, w) else (err out_of_fuel, w)
  claim_first (suc fuel) candidates w =
      if is_empty candidates then (ok none, w) else elim (o.select candidates) [
        | none ↦ (ok none, w)
        | some choice ↦
            let (won, s) = claim choice.id c.owner c.lease_ttl_s (o.clock w.moment) w.store in
            let w' : World = record { store = s; moment = suc w.moment } in
            let rest =
              claim_first fuel (filter_where (λ g. not (g.id == choice.id)) candidates) w' in
            if won then (ok (some choice), w') else rest
      ]
