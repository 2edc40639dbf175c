-- ===== src/Proof/Store/Write.antt =====
-- The methods of store.py that write rows. A call of `_new_id` draws its number from outside and
-- the clock is an argument; a transaction that raises leaves the store as it was. The schema's
-- PRIMARY KEY, UNIQUE and REFERENCES constraints are checked by the inserts.
pub mod Inserts
pub mod Attempts
use evo_harness_preview.Prelude.{
  ℕ, suc, ◌+◌, String, Bool, true, false, Option, none, some, List, [], ◌∷◌, ◌++◌, map, find_key,
  update_key, if◌then◌else◌, ◌==◌,
}
use evo_harness_preview.Proof.Graph.{
  Goal, Decomposition, Attempt, Certification, GoalStatus, DecompositionStatus, Outcome, open_goal,
  repeated,
}
use evo_harness_preview.Proof.Store.State.{
  Store, Sketch, Exec, Error, Result, ok, err, key_error, value_error, integrity_error, cycle_error,
  goal_key, decomposition_key, goal, goal_by_identity, find_identity, decomposition,
}

abbrev pub fresh_goal : ℕ → String → String → Goal
fresh_goal new_id identity statement = record {
  id = new_id;
  identity = identity;
  statement = statement;
  status = open_goal;
  exhausted_at_budget = none;
  exhausted_at_solver = none;
  lease_owner = none;
  lease_expires_at = none;
  lease_run_dir = none;
}

-- `INSERT INTO goals … ON CONFLICT(identity) DO NOTHING`
unfoldable pub insert_goal : ℕ → String → String → List Goal → Result (List Goal)
insert_goal new_id identity statement goals = elim (find_identity identity goals) [
  | some _ ↦ ok goals
  | none ↦ elim (find_key goal_key new_id goals) [
    | some _ ↦ err integrity_error
    | none ↦ ok (goals ++ fresh_goal new_id identity statement ∷ [])
  ]
]

-- `assert found is not None` cannot fail behind the insert.
unfoldable pub upsert_goal : ℕ → String → String → Exec Goal
unfolding insert_goal
upsert_goal new_id identity statement s = elim (insert_goal new_id identity statement s.goals) [
  | err e ↦ (err e, s)
  | ok goals ↦ elim (find_identity identity goals) [
    | some g ↦ (ok g, record s { goals = goals })
    | none ↦ (err value_error, record s { goals = goals })
  ]
]

abbrev replace_root : ℕ → String → List (ℕ × String) → List (ℕ × String)
replace_root goal_id label [] = (goal_id, label) ∷ []
replace_root goal_id label ((i, l) ∷ rest) =
    if i == goal_id then (goal_id, label) ∷ rest else (i, l) ∷ replace_root goal_id label rest

-- A row that refers to a goal is refused where the goal is not there.
abbrev with_goal {ℓ} : {A : Type ℓ} → ℕ → A → Store → Exec A
with_goal goal_id a s' s = elim (find_key goal_key goal_id s.goals) [
  | none ↦ (err integrity_error, s)
  | some _ ↦ (ok a, s')
]

unfoldable pub add_root : ℕ → String → Exec (Unit {0})
add_root goal_id label s =
    with_goal goal_id tt (record s { roots = replace_root goal_id label s.roots }) s

unfoldable pub set_decomposition_status : ℕ → DecompositionStatus → String → Store → Store
set_decomposition_status decomposition_id status reason s = record s {
  decompositions =
      update_key decomposition_key decomposition_id
        (λ d. record d { status = status; rejected_reason = reason }) s.decompositions;
}

-- The clock's reading is `now`; a PRIMARY KEY that is taken is refused.
unfoldable pub record_attempt :
    (new_id goal_id : ℕ)
    → Outcome
    → (proof_text run_dir evidence_ref : Option String) → (cost : ℕ) (note : String) (now : ℕ)
    → Exec Attempt
record_attempt new_id goal_id outcome proof_text run_dir evidence_ref cost note now s =
    let a : Attempt = record {
      id = new_id;
      goal_id = goal_id;
      outcome = outcome;
      proof_text = proof_text;
      run_dir = run_dir;
      evidence_ref = evidence_ref;
      cost = cost;
      note = note;
      created_at = now;
    } in
    elim (find_key (λ (b : Attempt). b.id) new_id s.attempts) [
      | some _ ↦ (err integrity_error, s)
      | none ↦ with_goal goal_id a (record s { attempts = s.attempts ++ a ∷ [] }) s
    ]

-- The axioms are a set: their list is its elements in the order of `sorted`.
unfoldable pub record_certification :
    (new_id goal_id : ℕ) (passed : Bool) (axioms : List String) (reason text_sha256 : String)
    → (decomposition_id trust : Option String) (now : ℕ) → Exec Certification
record_certification new_id goal_id passed axioms reason text_sha256 decomposition_id trust now s =
    let c : Certification = record {
      id = new_id;
      goal_id = goal_id;
      passed = passed;
      axioms = axioms;
      reason = reason;
      text_sha256 = text_sha256;
      decomposition_id = decomposition_id;
      trust = trust;
      created_at = now;
    } in
    elim (find_key (λ (b : Certification). b.id) new_id s.certifications) [
      | some _ ↦ (err integrity_error, s)
      | none ↦ with_goal goal_id c (record s { certifications = s.certifications ++ c ∷ [] }) s
    ]
