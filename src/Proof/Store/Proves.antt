-- ===== src/Proof/Store/Proves.antt =====
-- What a proof of a goal is in the graph: an attempt that proved it, or a validated decomposition of
-- it whose subgoals all have proofs. No status of a goal stands in this.
use evo_harness_preview.Prelude.{
  ℕ, ◌≡◌, Bool, true, false, List, [], ◌∷◌, Memᴰ, refl, sym, ◌∙◌, subst,
}
use evo_harness_preview.Proof.Graph.{
  Decomposition, Attempt, Outcome, DecompositionStatus, accepted, completed,
}
use evo_harness_preview.Proof.Store.State.{Store}

-- The verifier has passed the sketch of such a decomposition.
abbrev pub is_validated : DecompositionStatus → Bool
is_validated accepted = true
is_validated completed = true
is_validated _ = false

mutual
  pub data Proves (s : Store) : ℕ → Type 0 where
    direct :
        {g : ℕ} (a : Attempt)
        → Memᴰ a s.attempts
        → a.goal_id ≡ g
        → a.outcome ≡ Outcome.proved
        → Proves s g
    route :
        {g : ℕ} (d : Decomposition)
        → Memᴰ d s.decompositions
        → d.goal_id ≡ g
        → is_validated d.status ≡ true
        → ProvesAll s d.subgoal_ids
        → Proves s g

  pub data ProvesAll (s : Store) : List ℕ → Type 0 where
    nil : ProvesAll s []
    cons : {i : ℕ} {is : List ℕ} → Proves s i → ProvesAll s is → ProvesAll s (i ∷ is)

pub ProvesAll-of_all :
    (s : Store) (is : List ℕ) → ((i : ℕ) → Memᴰ i is → Proves s i) → ProvesAll s is
ProvesAll-of_all s [] h = nil
ProvesAll-of_all s (i ∷ is) h =
    cons (h i (Memᴰ.head refl)) (ProvesAll-of_all s is (λ j m. h j (Memᴰ.tail m)))

-- Attempts stay, and a validated decomposition stays one of the same goal with the same subgoals.
pub record Keeps (s s' : Store) : Type 0 where
  pub attempts : (a : Attempt) → Memᴰ a s.attempts → Memᴰ a s'.attempts
  pub routes :
      (d : Decomposition)
      → Memᴰ d s.decompositions
      → is_validated d.status ≡ true
      → (d' : Decomposition) × Memᴰ d' s'.decompositions
        × (d'.goal_id ≡ d.goal_id)
        × (d'.subgoal_ids ≡ d.subgoal_ids)
        × (is_validated d'.status ≡ true)

module _ (s s' : Store) (k : Keeps s s') where
  mutual
    Proves-keep : {g : ℕ} → Proves s g → Proves s' g
    Proves-keep (direct a m e o) = direct a (k.attempts a m) e o
    Proves-keep (route d m e v ps) =
        let (d', m', owner, subgoals, v') = k.routes d m v in
        route d' m' (owner ∙ e) v' (subst (ProvesAll s') (sym subgoals) (ProvesAll-keep ps))

    ProvesAll-keep : {is : List ℕ} → ProvesAll s is → ProvesAll s' is
    ProvesAll-keep nil = nil
    ProvesAll-keep (cons p ps) = cons (Proves-keep p) (ProvesAll-keep ps)

  pub Proves-mono : {g : ℕ} → Proves s g → Proves s' g
  Proves-mono p = Proves-keep p

  pub ProvesAll-mono : {is : List ℕ} → ProvesAll s is → ProvesAll s' is
  ProvesAll-mono ps = ProvesAll-keep ps
