-- ===== src/Proof/Scope.antt =====
-- evoharness/proof/scope.py: the premises that a graph was built under, and `_settle_scope` of
-- evoharness/proof/store.py, which records or compares them when a graph is opened.
--
-- The preamble's hash and the environment are texts that the caller brings. A difference is shown by
-- the name of its field alone.
pub mod Settling
use evo_harness_preview.Prelude.{
  ℕ, String, Bool, true, false, not, ◌&&◌, ◌||◌, Option, none, some, List, [], ◌∷◌, ◌++◌, any,
  is_empty, ltb, ◌==◌, str_eq, if◌then◌else◌,
}

pub record GraphScope : Type 0 where
  pub environment : String
  pub minimum_trust : String
  pub identity_hasher : String
  pub preamble_sha256 : String
  pub base_id : String
  pub axiom_policy_version : ℕ
  pub envelope_schema_version : ℕ
  pub goalkey_schema_version : ℕ
  pub scope_version : ℕ

-- IDENTITY_HASHERS, and the values that AxiomPolicy takes.
unfoldable is_identity_hasher : String → Bool
is_identity_hasher name = any (str_eq name) ("exact-text" ∷ "lean-expr" ∷ [])

unfoldable is_minimum_trust : String → Bool
is_minimum_trust name = any (str_eq name) ("trusted" ∷ "audited" ∷ "claimed" ∷ [])

-- `__post_init__`; `none` is ValueError.
unfoldable pub new_scope : GraphScope → Option GraphScope
unfolding is_identity_hasher is_minimum_trust
new_scope s =
    if not (is_minimum_trust s.minimum_trust)
    then none
    else if not (is_identity_hasher s.identity_hasher)
    then none
    else some s

abbrev named_if : Bool → String → List String
named_if same name = if same then [] else name ∷ []

-- The names of the tests that fail: none exactly if all hold.
abbrev pub names_of : List (Bool × String) → List String
names_of [] = []
names_of ((b, name) ∷ rest) = named_if b name ++ names_of rest

-- Every field but `base_id`, in the order of the fields.
abbrev pub compared : GraphScope → GraphScope → List (Bool × String)
compared a b =
    (str_eq a.environment b.environment, "environment")
    ∷ (str_eq a.minimum_trust b.minimum_trust, "minimum_trust")
    ∷ (str_eq a.identity_hasher b.identity_hasher, "identity_hasher")
    ∷ (str_eq a.preamble_sha256 b.preamble_sha256, "preamble_sha256")
    ∷ (a.axiom_policy_version == b.axiom_policy_version, "axiom_policy_version")
    ∷ (a.envelope_schema_version == b.envelope_schema_version, "envelope_schema_version")
    ∷ (a.goalkey_schema_version == b.goalkey_schema_version, "goalkey_schema_version")
    ∷ (a.scope_version == b.scope_version, "scope_version")
    ∷ []

unfoldable pub diff : GraphScope → GraphScope → List String
diff a b = names_of (compared a b)

-- `given or (stored.… if stored else default)`: an empty text is not given.
abbrev text_or : Option String → String → String
text_or none default = default
text_or (some t) default = if str_eq t "" then default else t

abbrev stored_or : Option GraphScope → (GraphScope → String) → String → String
stored_or none field default = default
stored_or (some s) field default = field s

-- The scope that a command asks for.
unfoldable pub resolve :
    (stored : Option GraphScope) (environment preamble_sha256 : String)
    → (identity_hasher minimum_trust : Option String) (base_id : String) → Option GraphScope
unfolding new_scope
resolve stored environment preamble_sha256 identity_hasher minimum_trust base_id =
    new_scope (record {
      environment = environment;
      minimum_trust = text_or minimum_trust (stored_or stored (λ s. s.minimum_trust) "audited");
      identity_hasher =
          text_or identity_hasher (stored_or stored (λ s. s.identity_hasher) "exact-text");
      preamble_sha256 = preamble_sha256;
      base_id = text_or (some base_id) (stored_or stored (λ s. s.base_id) "");
      axiom_policy_version = 1;
      envelope_schema_version = 1;
      goalkey_schema_version = 1;
      scope_version = 1;
    })

-- How the opening of a graph ends: with its scope, or with one of scope.py's errors.
pub data Opened : Type 0 where
  under : Option GraphScope → Opened
  scope_error scope_missing : Opened
  scope_mismatch : List String → Opened

-- The row of the table `graph_scope` is `stored`; it is returned as the call leaves it.
unfoldable pub settle_scope :
    (wanted : Option GraphScope) (adopt : Bool) (goals : ℕ)
    → Option GraphScope
    → Opened × Option GraphScope
unfolding diff
settle_scope none adopt goals stored =
    if adopt then (scope_error, stored) else (under stored, stored)
settle_scope (some wanted) adopt goals (some stored) =
    let diffs = diff stored wanted in
    if adopt
    then (scope_error, some stored)
    else if is_empty diffs
    then (under (some stored), some stored)
    else (scope_mismatch diffs, some stored)
settle_scope (some wanted) adopt goals none =
    if ltb 0 goals && not adopt then (scope_missing, none) else (under (some wanted), some wanted)
