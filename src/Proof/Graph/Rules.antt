-- ===== src/Proof/Graph/Rules.antt =====
-- What the two status rules of graph.py and its acyclicity check decide.
use mathlib.Core.List.Memᴰ
use evo_harness_preview.Prelude.{
  any-concat, if◌then◌else◌, ◌++◌, map, sym, ◌∙◌, ℕ, ◌<◌, ◌≤◌, String, ◌≡◌, refl, ◌≢◌, ◌↔◌, ◌⊎◌,
  true, false, not, List, [], ◌∷◌, Memᴰ, arith, any, count, filter_where, str_eq, any_iff, all_iff,
  Memᴰ-cons, str_eq_iff,
}
use evo_harness_preview.Prelude.Sorting.{Memᴰ-sort}
use evo_harness_preview.Proof.Graph.{
  GoalStatus, DecompositionStatus, Outcome, is_capability, is_no_verdict, is_live, is_exhausted,
  open_goal, proposed, is_proof, is_completed, is_proved, exhausted, accepted, completed, repeated,
  text_before, intersection, goal_status_from, decomposition_status_from,
}

is_proof_iff : (o : Outcome) → (is_proof o ≡ true) ↔ (o ≡ Outcome.proved)
is_proof_iff o = ground arith

is_completed_iff : (d : DecompositionStatus) → (is_completed d ≡ true) ↔ (d ≡ completed)
is_completed_iff d = ground arith

is_proved_iff : (g : GoalStatus) → (is_proved g ≡ true) ↔ (g ≡ GoalStatus.proved)
is_proved_iff g = ground arith

module _ (outcomes : List Outcome) (statuses : List DecompositionStatus) (limit : ℕ) where
  -- A goal is proved exactly when an attempt proved it or a decomposition of it is completed.
  pub goal_status_from-eq-proved_iff :
      (goal_status_from outcomes statuses limit ≡ GoalStatus.proved)
      ↔ (Memᴰ Outcome.proved outcomes ⊎ Memᴰ completed statuses)
  unfolding goal_status_from
  goal_status_from-eq-proved_iff = ground (
    arith,
    any_iff is_proof is_proof_iff outcomes,
    any_iff is_completed is_completed_iff statuses,
  )

  -- A goal is exhausted exactly when nothing proved it, no route is live or completed, there is a
  -- limit, and the attempts that failed for want of capability have reached it.
  goal_status_from-eq-exhausted_iff : (goal_status_from outcomes statuses limit ≡ exhausted) ↔ (
      (any is_proof outcomes ≡ false)
      × (any is_completed statuses ≡ false)
      × (any is_live statuses ≡ false)
      × (0 < limit)
      × (limit ≤ count is_capability outcomes))
  unfolding goal_status_from
  goal_status_from-eq-exhausted_iff = ground arith

abbrev verdicts : List Outcome → List Outcome
verdicts = filter_where (λ o. not (is_no_verdict o))

any-verdicts : (l : List Outcome) → any is_proof (verdicts l) ≡ any is_proof l
unfolding is_no_verdict
any-verdicts [] = refl
any-verdicts (o ∷ l) = ground (arith, any-verdicts l)

count-verdicts : (l : List Outcome) → count is_capability (verdicts l) ≡ count is_capability l
unfolding is_no_verdict is_capability
count-verdicts [] = refl
count-verdicts (o ∷ l) = ground (arith, count-verdicts l)

-- An outcome that carries no verdict counts for nothing: the status is that of the other outcomes.
pub goal_status_from-verdicts :
    (outcomes : List Outcome) (statuses : List DecompositionStatus) (limit : ℕ)
    → goal_status_from (filter_where (λ o. not (is_no_verdict o)) outcomes) statuses limit
      ≡ goal_status_from outcomes statuses limit
goal_status_from-verdicts outcomes statuses limit =
    unfold goal_status_from in simp (any-verdicts, count-verdicts)

-- The status moves in one case alone: an accepted route with subgoals, all of them proved, is
-- completed.
pub decomposition_status_from_lem :
    (current : DecompositionStatus) (subgoals : List GoalStatus)
    → ((current ≡ accepted)
        × (subgoals ≢ [])
        × ((g : GoalStatus) → Memᴰ g subgoals → g ≡ GoalStatus.proved)
        × (decomposition_status_from current subgoals ≡ completed))
      ⊎ (decomposition_status_from current subgoals ≡ current)
unfolding decomposition_status_from
decomposition_status_from_lem current subgoals =
    ground (arith, all_iff is_proved is_proved_iff subgoals)

intersection_iff :
    (ancestors subgoals : List String) (t : String)
    → Memᴰ t (intersection ancestors subgoals) ↔ (Memᴰ t ancestors × Memᴰ t subgoals)
unfolding intersection
intersection_iff ancestors [] t = (λ m. absurd (Memᴰ.not-nil m), λ (_, m). absurd (Memᴰ.not-nil m))
intersection_iff ancestors (u ∷ subgoals) t = ground (
  arith,
  intersection_iff ancestors subgoals t,
  intersection_iff ancestors subgoals u,
  any_iff (λ v. str_eq v u) (λ v. str_eq_iff v u) ancestors,
  any_iff (λ v. str_eq v u) (λ v. str_eq_iff v u) (intersection ancestors subgoals),
  Memᴰ-cons t u subgoals,
  Memᴰ-cons t u (intersection ancestors subgoals),
)

-- `repeated` lists exactly the proposed identities that are ancestors'.
pub repeated_iff :
    (ancestors subgoals : List String) (t : String)
    → Memᴰ t (repeated ancestors subgoals) ↔ (Memᴰ t ancestors × Memᴰ t subgoals)
unfolding repeated
repeated_iff ancestors subgoals t =
    let sorted = Memᴰ-sort text_before t (intersection ancestors subgoals) in
    let both = intersection_iff ancestors subgoals t in
    (λ m. both.0 (sorted.0 m), λ m. sorted.1 (both.1 m))

-- A validated route whose subgoals are all proved is, or becomes, completed.
pub decomposition_status_from_validated :
    (current : DecompositionStatus) (status : ℕ → GoalStatus) (is : List ℕ)
    → (current ≡ accepted) ⊎ (current ≡ completed)
    → is ≢ []
    → ((i : ℕ) → Memᴰ i is → status i ≡ GoalStatus.proved)
    → decomposition_status_from current (map status is) ≡ completed
unfolding decomposition_status_from
decomposition_status_from_validated current status [] v some_subgoal proved =
    absurd (some_subgoal refl)
decomposition_status_from_validated current status (i ∷ is) v some_subgoal proved = ground (
  arith,
  (all_iff is_proved is_proved_iff (map status (i ∷ is))).1
      (λ g m. let (j, mj, e) = Memᴰ.of_map status (i ∷ is) m in sym e ∙ proved j mj),
)

-- A new proposal reopens an exhausted goal, and changes the status of no other.
pub goal_status_from-concat_proposed :
    (outcomes : List Outcome) (statuses : List DecompositionStatus) (limit : ℕ)
    → goal_status_from outcomes (statuses ++ proposed ∷ []) limit ≡ (
        if is_exhausted (goal_status_from outcomes statuses limit)
        then open_goal
        else goal_status_from outcomes statuses limit)
unfolding goal_status_from
goal_status_from-concat_proposed outcomes statuses limit =
    ground (arith, any-concat is_completed statuses proposed, any-concat is_live statuses proposed)
