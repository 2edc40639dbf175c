-- ===== src/Proof/Store/Leases.antt =====
-- The leases of store.py: columns of a goal's row, apart from its status.
pub mod Exclusion
use evo_harness_preview.Prelude.{
  ℕ, ◌+◌, String, Bool, true, false, ◌&&◌, Option, none, some, List, map, count, filter_where,
  update_key, leb, ◌==◌, str_eq, if◌then◌else◌,
}
use evo_harness_preview.Proof.Graph.{Goal}
use evo_harness_preview.Proof.Store.State.{Store, goal_key}

-- `lease_owner IS NULL OR lease_expires_at IS NULL OR lease_expires_at <= ?`
abbrev pub is_free : ℕ → Goal → Bool
is_free now g = elim g.lease_owner [
  | none ↦ true
  | some _ ↦ elim g.lease_expires_at [ none ↦ true | some t ↦ leb t now ]
]

abbrev pub take_lease : String → ℕ → Goal → Goal
take_lease owner expires g = record g {
  lease_owner = some owner;
  lease_expires_at = some expires;
  lease_run_dir = none;
}

abbrev pub drop_lease : Goal → Goal
drop_lease g = record g { lease_owner = none; lease_expires_at = none; lease_run_dir = none }

-- One conditional UPDATE; the answer is `cursor.rowcount == 1`.
unfoldable pub claim : ℕ → String → (ttl_s now : ℕ) → Store → Bool × Store
claim goal_id owner ttl_s now s = (
  count (λ g. g.id == goal_id && is_free now g) s.goals == 1,
  record s {
    goals =
        update_key goal_key goal_id
          (λ g. if is_free now g then take_lease owner (now + ttl_s) g else g) s.goals;
  },
)

-- `lease_owner IS NOT NULL AND lease_expires_at IS NOT NULL AND lease_expires_at <= ?`
abbrev is_stale : ℕ → Goal → Bool
is_stale now g = elim g.lease_owner [
  | none ↦ false
  | some _ ↦ elim g.lease_expires_at [ none ↦ false | some t ↦ leb t now ]
]

unfoldable pub stale_leases : ℕ → Store → List Goal
stale_leases now s = filter_where (is_stale now) s.goals

unfoldable pub note_attempt_dir : ℕ → String → Store → Store
note_attempt_dir goal_id run_dir s = record s {
  goals = update_key goal_key goal_id (λ g. record g { lease_run_dir = some run_dir }) s.goals;
}

unfoldable pub force_release : ℕ → Store → Store
force_release goal_id s = record s { goals = update_key goal_key goal_id drop_lease s.goals }

abbrev pub is_held_by : String → Goal → Bool
is_held_by owner g = elim g.lease_owner [ none ↦ false | some o ↦ str_eq o owner ]

unfoldable pub release : ℕ → String → Store → Store
release goal_id owner s = record s {
  goals = update_key goal_key goal_id (λ g. if is_held_by owner g then drop_lease g else g) s.goals;
}
