-- ===== src/Proof/Store/Current/Ruled.antt =====
-- The verdict on a route leaves its goal to `propagate`, and no other.
use mathlib.Core.List.Memᴰ
use evo_harness_preview.Prelude.{
  ℕ, String, ◌≡◌, ◌≢◌, refl, subst, false, inl, inr, List, [], ◌∷◌, map, Memᴰ, arith,
  find_key_of_mem, update_key, filter_where, if◌then◌else◌, ◌==◌, Bool-cases,
}
use evo_harness_preview.Proof.Graph.{Decomposition, DecompositionStatus, proposed, completed}
use evo_harness_preview.Proof.Store.State.{Store, decomposition_key, decompositions_of, attempts_of}
use evo_harness_preview.Proof.Store.Schema.{Schema-map_decompositions}
use evo_harness_preview.Proof.Store.Write.{set_decomposition_status}
use evo_harness_preview.Proof.Store.Proves.{ProvesAll, Keeps, Proves-mono, ProvesAll-mono}
use evo_harness_preview.Proof.Store.Current.{IsSettled-frame}
use evo_harness_preview.Proof.Store.Current.Pending.{IsPending}

module _ (limit g : ℕ) (s : Store) (p : IsPending limit g s) where
  module _ (d : Decomposition) (m : Memᴰ d s.decompositions) (owner : d.goal_id ≡ g)
      (st : d.status ≡ proposed) (verdict : DecompositionStatus) (reason : String)
      (open_verdict : verdict ≢ completed) where
    abbrev ruled : Decomposition → Decomposition
    ruled r = if r.id == d.id then record r { status = verdict; rejected_reason = reason } else r

    same_row : (r : Decomposition) → Memᴰ r s.decompositions → r.id ≡ d.id → r ≡ d
    same_row r mr e = ground (
      arith,
      find_key_of_mem decomposition_key r s.decompositions p.schema.decomposition_ids mr,
      find_key_of_mem decomposition_key d s.decompositions p.schema.decomposition_ids m,
    )

    ruled-Keeps : Keeps s (set_decomposition_status d.id verdict reason s)
    unfolding set_decomposition_status
    ruled-Keeps = record {
      attempts = λ b mb. mb;
      routes = λ r mr v.
          (ruled r, Memᴰ.map ruled mr, ground arith, ground arith, ground (arith, same_row r mr));
    }

    filter_ruled :
        (x : ℕ) (rows : List Decomposition)
        → ((r : Decomposition) → Memᴰ r rows → r.id ≡ d.id → (r.goal_id == x) ≡ false)
        → filter_where
            (λ (r : Decomposition). r.goal_id == x)
            (update_key decomposition_key d.id
              (λ r. record r { status = verdict; rejected_reason = reason })
              rows)
          ≡ filter_where (λ (r : Decomposition). r.goal_id == x) rows
    filter_ruled x [] h = refl
    filter_ruled x (r ∷ rows) h =
        ground (arith, filter_ruled x rows (λ q mq. h q (Memᴰ.tail mq)), h r (Memᴰ.head refl))

    rows_ruled :
        (x : ℕ)
        → x ≢ g
        → decompositions_of x (set_decomposition_status d.id verdict reason s)
          ≡ decompositions_of x s
    unfolding decompositions_of set_decomposition_status
    rows_ruled x ne = filter_ruled x s.decompositions (λ r mr e. ground (arith, same_row r mr e))

    pub ruled-IsPending : IsPending limit g (set_decomposition_status d.id verdict reason s)
    ruled-IsPending =
        let s' = set_decomposition_status d.id verdict reason s in
        record {
          schema =
              unfold set_decomposition_status in
              Schema-map_decompositions ruled (λ r. ground arith) (λ r. ground arith)
                (λ r. ground arith) s p.schema;
          sound = record {
            goals = λ x e.
                Proves-mono s s' ruled-Keeps
                  (p.sound.goals x (unfold set_decomposition_status in e));
            routes = λ r mr e.
                ProvesAll-mono s s' ruled-Keeps
                  (ruled_routes r (unfold set_decomposition_status in mr) e);
          };
          row = unfold set_decomposition_status in p.row;
          others = λ x ne.
              IsSettled-frame limit s s' x (unfold attempts_of set_decomposition_status in refl)
                (rows_ruled x ne) (λ i. unfold set_decomposition_status in refl) (p.others x ne);
        }
      where
        ruled_routes :
            (r : Decomposition)
            → Memᴰ r (map ruled s.decompositions)
            → r.status ≡ completed
            → ProvesAll s r.subgoal_ids
        ruled_routes r mr e =
            let (q, mq, same) = Memᴰ.of_map ruled s.decompositions mr in
            elim (Bool-cases (q.id == d.id)) [
              | inl here ↦ absurd (ground arith)
              | inr other ↦ subst (ProvesAll s) (ground arith) (p.sound.routes q mq (ground arith))
            ]
