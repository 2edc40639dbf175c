-- ===== src/Proof/Store/State.antt =====
-- The tables of store.py, the errors of its methods, and the methods that only read.
--
-- A table is the list of its rows in the order of insertion, which `ORDER BY created_at` returns
-- under a clock that does not go back. A decomposition's row stands with its edges, and its
-- `sketch_json` is kept by the decomposition's id in `sketches`.
pub mod Reads
use evo_harness_preview.Prelude.{
  ◌≡◌, refl, ◌⊎◌, inl, inr, ℕ, suc, ◌+◌, String, Bool, true, false, not, Option, none, some, List,
  [], ◌∷◌, ◌++◌, map, any, contains, filter_where, find_key, if◌then◌else◌, ◌==◌, str_eq,
}
use evo_harness_preview.Proof.Graph.{
  Goal, Decomposition, Attempt, Certification, GoalStatus, DecompositionStatus, proposed, is_open,
}

-- sketch.py
pub record SubgoalSpec : Type 0 where
  pub name : String
  pub identity : String
  pub signature : String

pub record Sketch : Type 0 where
  pub parent_name : String
  pub parent_signature : String
  pub parent_body : String
  pub subgoals : List SubgoalSpec
  pub preamble : String

pub record Store : Type 0 where
  pub goals : List Goal
  pub decompositions : List Decomposition
  pub sketches : List (ℕ × Sketch)
  pub attempts : List Attempt
  pub certifications : List Certification
  pub roots : List (ℕ × String)

-- The schema alone, with no rows.
abbrev pub empty_store : Store
empty_store = record {
  goals = [];
  decompositions = [];
  sketches = [];
  attempts = [];
  certifications = [];
  roots = [];
}

-- What a method raises: KeyError, ValueError, sqlite3.IntegrityError, CycleError. `out_of_fuel` is
-- the model's own, for a loop that stops short.
pub data Error : Type 0 where
  key_error value_error integrity_error out_of_fuel : Error
  cycle_error : List String → Error

pub data Result {ℓ} (A : Type ℓ) : Type ℓ where
  ok : A → Result A
  err : Error → Result A

infixl 5 ◌>>=◌
abbrev pub ◌>>=◌ {ℓ κ} : {A : Type ℓ} {B : Type κ} → Result A → (A → Result B) → Result B
ok a >>= f = f a
err e >>= f = err e

-- To split on a computed result and keep the equation.
pub Result-cases {ℓ} :
    {A : Type ℓ} (r : Result A) → ((e : Error) × (r ≡ err e)) ⊎ ((a : A) × (r ≡ ok a))
Result-cases (ok a) = inr (a, refl)
Result-cases (err e) = inl (e, refl)

abbrev pub goal_key : Goal → ℕ
goal_key g = g.id

abbrev pub decomposition_key : Decomposition → ℕ
decomposition_key d = d.id

abbrev pub sketch_key : ℕ × Sketch → ℕ
sketch_key r = r.0

-- A method returns its result and the store that it leaves.
abbrev pub Exec {ℓ} : Type ℓ → Type ℓ
Exec A = Store → Result A × Store

abbrev or_key_error {ℓ} : {A : Type ℓ} → Option A → Result A
or_key_error none = err key_error
or_key_error (some a) = ok a

unfoldable pub goal : ℕ → Store → Result Goal
goal goal_id s = or_key_error (find_key goal_key goal_id s.goals)

-- `SELECT * FROM goals WHERE identity = ?`
abbrev pub find_identity : String → List Goal → Option Goal
find_identity t [] = none
find_identity t (g ∷ gs) = if str_eq g.identity t then some g else find_identity t gs

unfoldable pub goal_by_identity : String → Store → Option Goal
goal_by_identity identity s = find_identity identity s.goals

unfoldable pub open_goals : Store → List Goal
open_goals s = filter_where (λ g. is_open g.status) s.goals

-- `SELECT DISTINCT`: the first of each value.
abbrev pub distinct : List ℕ → List ℕ
distinct [] = []
distinct (x ∷ xs) = x ∷ filter_where (λ y. not (y == x)) (distinct xs)

unfoldable pub parents_of : ℕ → Store → List ℕ
parents_of goal_id s =
    distinct
      (map (λ d. d.goal_id) (filter_where (λ d. contains goal_id d.subgoal_ids) s.decompositions))

unfoldable pub decomposition : ℕ → Store → Result Decomposition
decomposition decomposition_id s =
    or_key_error (find_key decomposition_key decomposition_id s.decompositions)

unfoldable pub decompositions_of : ℕ → Store → List Decomposition
decompositions_of goal_id s = filter_where (λ d. d.goal_id == goal_id) s.decompositions

unfoldable pub sketch_of : ℕ → Store → Result (Option Sketch)
unfolding decomposition
sketch_of decomposition_id s = do
  _ ← decomposition decomposition_id s
  ok (elim (find_key sketch_key decomposition_id s.sketches) [ none ↦ none | some r ↦ some r.1 ])

unfoldable decompositions_containing : ℕ → Store → List Decomposition
decompositions_containing goal_id s =
    filter_where (λ d. contains goal_id d.subgoal_ids) s.decompositions

abbrev pub is_proposed : DecompositionStatus → Bool
is_proposed proposed = true
is_proposed _ = false

unfoldable pub proposed_decompositions : Store → List Decomposition
proposed_decompositions s = filter_where (λ d. is_proposed d.status) s.decompositions

unfoldable pub attempts_of : ℕ → Store → List Attempt
attempts_of goal_id s = filter_where (λ a. a.goal_id == goal_id) s.attempts

abbrev sum_cost : List Attempt → ℕ
sum_cost [] = 0
sum_cost (a ∷ rest) = a.cost + sum_cost rest

-- `SELECT COALESCE(SUM(cost), 0.0)`
unfoldable pub total_cost : Store → ℕ
total_cost s = sum_cost s.attempts

unfoldable certifications_of : ℕ → Store → List Certification
certifications_of goal_id s = filter_where (λ c. c.goal_id == goal_id) s.certifications

-- `certs[-1] if certs else None`
abbrev pub last {ℓ} : {A : Type ℓ} → List A → Option A
last [] = none
last (x ∷ xs) = elim (last xs) [ none ↦ some x | some y ↦ some y ]

unfoldable latest_certification : ℕ → Store → Option Certification
unfolding certifications_of
latest_certification goal_id s = last (certifications_of goal_id s)
