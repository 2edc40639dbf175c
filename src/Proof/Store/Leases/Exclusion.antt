-- ===== src/Proof/Store/Leases/Exclusion.antt =====
-- Claims and releases of one goal by several workers.
use evo_harness_preview.Prelude.{
  ℕ, ◌+◌, ◌<◌, String, ◌≡◌, ◌≢◌, refl, sym, ap, ◌↔◌, inl, inr, Bool, true, false, ◌&&◌, none, some,
  List, [], ◌∷◌, arith, count, find_key, find_key-update_key, update_key, update_key_absent,
  update_key_fixed, Distinct, Distinct-map, subst, ◌==◌, str_eq_iff, if◌then◌else◌, Option-cases,
}
use evo_harness_preview.Proof.Graph.{Goal}
use evo_harness_preview.Proof.Store.State.{Store, goal_key}
use evo_harness_preview.Proof.Store.Schema.{Schema}
use evo_harness_preview.Proof.Store.Leases.{
  is_free, take_lease, drop_lease, claim, is_held_by, release,
}

-- The holder of a goal at a time: its owner, while the lease has not run out.
abbrev pub IsHeld : Store → ℕ → String → ℕ → Type 0
IsHeld s goal_id owner now =
    (g : Goal) × (find_key goal_key goal_id s.goals ≡ some g)
    × (g.lease_owner ≡ some owner)
    × ((t : ℕ) × (g.lease_expires_at ≡ some t) × (now < t))

count_absent :
    (now k : ℕ) (goals : List Goal)
    → find_key goal_key k goals ≡ none
    → count (λ g. g.id == k && is_free now g) goals ≡ 0
count_absent now k [] h = refl
count_absent now k (g ∷ gs) h = ground (arith, count_absent now k gs)

-- Under the primary key the UPDATE counts one row at most, the goal's own.
count_row :
    (now k : ℕ) (goals : List Goal) (g : Goal)
    → Distinct goal_key goals
    → find_key goal_key k goals ≡ some g
    → count (λ r. r.id == k && is_free now r) goals ≡ (if is_free now g then 1 else 0)
count_row now k [] g d e = ground arith
count_row now k (r ∷ rs) g d e =
    ground
      (arith, count_row now k rs g d.1, count_absent now k rs, ap (λ i. find_key goal_key i rs))

module _ (goal_id : ℕ) (owner : String) (ttl_s now : ℕ) (s : Store) (h : Schema s) where
  -- A claim succeeds exactly on a goal that is there and free.
  pub claim-eq-true_iff :
      ((claim goal_id owner ttl_s now s).0 ≡ true)
      ↔ ((g : Goal) × (find_key goal_key goal_id s.goals ≡ some g) × (is_free now g ≡ true))
  unfolding claim
  claim-eq-true_iff = elim (Option-cases (find_key goal_key goal_id s.goals)) [
    | inl missing ↦ (
      λ e. absurd (ground (arith, count_absent now goal_id s.goals)),
      λ (g, e, _). absurd (ground arith),
    )
    | inr (g, row) ↦ (
      λ e. (g, row, ground (arith, count_row now goal_id s.goals g h.goal_ids row)),
      λ (g', e, f). ground (arith, count_row now goal_id s.goals g h.goal_ids row),
    )
  ]

  -- A claim that fails writes nothing.
  pub claim_refused :
      (claim goal_id owner ttl_s now s).0 ≡ false → (claim goal_id owner ttl_s now s).1 ≡ s
  unfolding claim
  claim_refused e = elim (Option-cases (find_key goal_key goal_id s.goals)) [
    | inl missing ↦ ground (
      arith,
      update_key_absent goal_key goal_id
          (λ g. if is_free now g then take_lease owner (now + ttl_s) g else g) s.goals missing,
    )
    | inr (g, row) ↦ ground (
      arith,
      count_row now goal_id s.goals g h.goal_ids row,
      update_key_fixed goal_key goal_id
          (λ r. if is_free now r then take_lease owner (now + ttl_s) r else r) s.goals g h.goal_ids
          row,
    )
  ]

  -- A claim that succeeds makes its caller the holder until the time has passed.
  pub claim-IsHeld :
      (claim goal_id owner ttl_s now s).0 ≡ true
      → (now' : ℕ) → now' < now + ttl_s
      → IsHeld (claim goal_id owner ttl_s now s).1 goal_id owner now'
  claim-IsHeld e now' lt =
      let (g, row, free) = claim-eq-true_iff.0 e in
      (
        take_lease owner (now + ttl_s) g,
        unfold claim in
            ground (
              arith,
              find_key-update_key goal_key goal_id goal_id
                  (λ r. if is_free now r then take_lease owner (now + ttl_s) r else r)
                  (λ r. ground arith) s.goals,
            ),
        refl,
        (now + ttl_s, refl, lt),
      )

-- Nobody takes a goal that is held, and nobody but the holder lets go of it.
held_excludes :
    (s : Store) (goal_id : ℕ) (owner : String) (now : ℕ)
    → Distinct goal_key s.goals
    → IsHeld s goal_id owner now
    → ((other : String) (ttl_s : ℕ) → claim goal_id other ttl_s now s ≡ (false, s))
      × ((other : String) → other ≢ owner → release goal_id other s ≡ s)
held_excludes s goal_id owner now d (g, row, held, (t, until, lt)) = (
  λ other ttl_s.
      unfold claim in
      ground (
        arith,
        count_row now goal_id s.goals g d row,
        update_key_fixed goal_key goal_id
            (λ r. if is_free now r then take_lease other (now + ttl_s) r else r) s.goals g d row,
      ),
  λ other ne.
      unfold release in
      ground (
        arith,
        str_eq_iff owner other,
        λ (e : owner ≡ other). ne (sym e),
        update_key_fixed goal_key goal_id (λ r. if is_held_by other r then drop_lease r else r)
            s.goals g d row,
      ),
)

claim-ids :
    (goal_id : ℕ) (owner : String) (ttl_s now : ℕ) (s : Store)
    → Schema s
    → Distinct goal_key (claim goal_id owner ttl_s now s).1.goals
unfolding claim
claim-ids goal_id owner ttl_s now s h =
    Distinct-map goal_key
      (λ r.
        if r.id == goal_id
        then (if is_free now r then take_lease owner (now + ttl_s) r else r)
        else r)
      (λ r. ground arith) s.goals h.goal_ids

-- In a store whose rows fit the schema: behind a claim that succeeds, every other claim before
-- its time has passed fails and writes nothing, and so does a release by anybody but the one who
-- claimed.
pub claim_excludes :
    (goal_id : ℕ) (owner : String) (ttl_s now : ℕ) (s s' : Store)
    → Schema s
    → claim goal_id owner ttl_s now s ≡ (true, s')
    → (now' : ℕ) → now' < now + ttl_s
    → ((other : String) (ttl' : ℕ) → claim goal_id other ttl' now' s' ≡ (false, s'))
      × ((other : String) → other ≢ owner → release goal_id other s' ≡ s')
claim_excludes goal_id owner ttl_s now s s' h e now' lt =
    let same : (claim goal_id owner ttl_s now s).1 ≡ s' = ap (λ (r : Bool × Store). r.1) e in
    held_excludes s' goal_id owner now'
      (subst (λ (r : Store). Distinct goal_key r.goals) same
        (claim-ids goal_id owner ttl_s now s h))
      (subst (λ r. IsHeld r goal_id owner now') same
        (claim-IsHeld goal_id owner ttl_s now s h (ap (λ (r : Bool × Store). r.0) e) now' lt))

-- Where the rows fit the schema, a holder's release frees the goal at once: the next claim takes
-- it, whoever makes it and whenever.
pub claim-release :
    (goal_id : ℕ) (owner other : String) (ttl_s now : ℕ) (s : Store) (g : Goal)
    → Schema s
    → find_key goal_key goal_id s.goals ≡ some g
    → g.lease_owner ≡ some owner
    → (claim goal_id other ttl_s now (release goal_id owner s)).0 ≡ true
unfolding claim release
claim-release goal_id owner other ttl_s now s g h row held =
    let f = λ (r : Goal). if is_held_by owner r then drop_lease r else r in
    ground (
      arith,
      str_eq_iff owner owner,
      find_key-update_key goal_key goal_id goal_id f (λ r. ground arith) s.goals,
      count_row now goal_id (update_key goal_key goal_id f s.goals) (drop_lease g) (
          Distinct-map goal_key (λ (r : Goal). if r.id == goal_id then f r else r)
            (λ r. ground arith) s.goals h.goal_ids),
    )
