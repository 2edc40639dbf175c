-- ===== src/Proof/Graph.antt =====
-- evoharness/proof/graph.py: goals, decompositions, attempts and certifications, and the two
-- status rules. The checks of the rules are in `Graph/Rules.antt`.
--
-- Times, costs and budgets are natural numbers, in a unit fine enough to make them whole.
pub mod Rules
use Prim.Native.Char.{code}
use evo_harness_preview.Prelude.{
  ℕ, String, Bool, true, false, not, ◌&&◌, ◌||◌, Option, List, [], ◌∷◌, any, all, count, is_empty,
  ltb, leb, ◌==◌, str_eq, if◌then◌else◌,
}
use evo_harness_preview.Prelude.Sorting.{sort}

pub data GoalStatus : Type 0 where
  open_goal proved exhausted : GoalStatus

pub data DecompositionStatus : Type 0 where
  proposed accepted rejected_by_verifier rejected_by_reviewer completed : DecompositionStatus

pub data Outcome : Type 0 where
  proved task_failed budget_exhausted timeout infra_failed interrupted : Outcome

-- CAPABILITY_OUTCOMES
unfoldable pub is_capability : Outcome → Bool
is_capability Outcome.task_failed = true
is_capability Outcome.timeout = true
is_capability _ = false

-- NO_VERDICT_OUTCOMES
unfoldable pub is_no_verdict : Outcome → Bool
is_no_verdict Outcome.infra_failed = true
is_no_verdict Outcome.interrupted = true
is_no_verdict Outcome.budget_exhausted = true
is_no_verdict _ = false

-- _TERMINAL_DECOMPOSITIONS
unfoldable pub is_terminal : DecompositionStatus → Bool
is_terminal rejected_by_verifier = true
is_terminal completed = true
is_terminal _ = false

-- _LIVE_DECOMPOSITIONS
unfoldable pub is_live : DecompositionStatus → Bool
is_live proposed = true
is_live accepted = true
is_live _ = false

-- `outcome is Outcome.PROVED` and its like
abbrev pub is_proof : Outcome → Bool
is_proof Outcome.proved = true
is_proof _ = false

abbrev pub is_completed : DecompositionStatus → Bool
is_completed completed = true
is_completed _ = false

abbrev pub is_accepted : DecompositionStatus → Bool
is_accepted accepted = true
is_accepted _ = false

abbrev pub is_proved : GoalStatus → Bool
is_proved GoalStatus.proved = true
is_proved _ = false

abbrev pub is_open : GoalStatus → Bool
is_open open_goal = true
is_open _ = false

abbrev pub is_exhausted : GoalStatus → Bool
is_exhausted exhausted = true
is_exhausted _ = false

-- An id is the number that the twelve hexadecimal digits of `_new_id` write: each table has one
-- prefix.
pub record Goal : Type 0 where
  pub id : ℕ
  pub identity : String
  pub statement : String
  pub status : GoalStatus
  pub exhausted_at_budget : Option ℕ
  pub exhausted_at_solver : Option String
  pub lease_owner : Option String
  pub lease_expires_at : Option ℕ
  pub lease_run_dir : Option String

pub record Decomposition : Type 0 where
  pub id : ℕ
  pub goal_id : ℕ
  pub subgoal_ids : List ℕ
  pub status : DecompositionStatus
  pub rejected_reason : String

pub record Attempt : Type 0 where
  pub id : ℕ
  pub goal_id : ℕ
  pub outcome : Outcome
  pub proof_text : Option String
  pub run_dir : Option String
  pub evidence_ref : Option String
  pub cost : ℕ
  pub note : String
  pub created_at : ℕ

-- The axioms are kept sorted by `record_certification`; a `trust` or a route that is `none` is an
-- old row's.
pub record Certification : Type 0 where
  pub id : ℕ
  pub goal_id : ℕ
  pub passed : Bool
  pub axioms : List String
  pub reason : String
  pub text_sha256 : String
  pub decomposition_id : Option String
  pub trust : Option String
  pub created_at : ℕ

abbrev contains_text : List String → String → Bool
contains_text l t = any (λ u. str_eq u t) l

-- `<` of texts, by their code points.
unfoldable pub text_before : String → String → Bool
text_before String.[] String.[] = false
text_before String.[] (String.◌∷◌ d t) = true
text_before (String.◌∷◌ c s) String.[] = false
text_before (String.◌∷◌ c s) (String.◌∷◌ d t) =
    ltb (code c) (code d) || (code c == code d && text_before s t)

-- `ancestors.intersection(subgoal_identities)`, each identity once.
unfoldable pub intersection : List String → List String → List String
intersection ancestors [] = []
intersection ancestors (t ∷ subgoals) =
    let rest = intersection ancestors subgoals in
    if contains_text ancestors t && not (contains_text rest t) then t ∷ rest else rest

-- The identities that `check_acyclic` finds on both sides, sorted; the code raises `CycleError` with
-- them if there are any.
unfoldable pub repeated : List String → List String → List String
unfolding text_before intersection
repeated ancestors subgoals = sort text_before (intersection ancestors subgoals)

unfoldable pub goal_status_from : List Outcome → List DecompositionStatus → ℕ → GoalStatus
unfolding is_capability is_live
goal_status_from outcomes statuses max_capability_attempts =
    if any is_proof outcomes
    then GoalStatus.proved
    else if any is_completed statuses
    then GoalStatus.proved
    else if any is_live statuses
    then open_goal
    else let tried = count is_capability outcomes in
      if ltb 0 max_capability_attempts && leb max_capability_attempts tried
      then exhausted
      else open_goal

abbrev is_rejected_by_reviewer : DecompositionStatus → Bool
is_rejected_by_reviewer rejected_by_reviewer = true
is_rejected_by_reviewer _ = false

-- `subgoal_statuses and all(…)`: the empty list is no proof.
abbrev all_proved : List GoalStatus → Bool
all_proved statuses = not (is_empty statuses) && all is_proved statuses

unfoldable pub decomposition_status_from :
    DecompositionStatus → List GoalStatus → DecompositionStatus
unfolding is_terminal
decomposition_status_from current subgoal_statuses =
    if is_terminal current
    then current
    else if is_rejected_by_reviewer current
    then current
    else if not (is_accepted current)
    then current
    else if all_proved subgoal_statuses
    then completed
    else current
