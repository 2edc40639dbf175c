-- ===== src/Evaluation/Namespace.antt =====
-- evoharness/evaluation/namespace.py, the identity of a score, and `Coverage` of
-- evoharness/evaluation/evidence.py, the units that a measurement planned, ran and trusts.
use evo_harness_preview.Prelude.{
  ℕ, String, ◌≡◌, Bool, true, false, not, ◌&&◌, List, [], ◌∷◌, any, all, ltb, ◌==◌, str_eq,
  if◌then◌else◌, arith,
}
use evo_harness_preview.Evaluation.Blank.{is_blank}
use evo_harness_preview.Evaluation.Faults.{
  Result, ok, raise, ◌>>=◌, refuse_if, type_error, value_error, namespace_mismatch,
}
use evo_harness_preview.Evaluation.Values.{
  Value, Fields, Key, pos, negsuc, null, int, str, dict, no_fields, field, text, opaque_key,
  strict_int,
}

-- A dict display, an entry at a time; `payload.get(name)`, and `set(payload) == expected`.
abbrev pub entry : String → Value → Fields → Fields
entry name v fs = field (text name) v fs

abbrev pub is_key : String → Key → Bool
is_key name (text k) = str_eq k name
is_key name opaque_key = false

abbrev pub get_field : String → Fields → Value
get_field name no_fields = null
get_field name (field k v fs) = if is_key name k then v else get_field name fs

abbrev pub keys : Fields → List Key
keys no_fields = []
keys (field k v fs) = k ∷ keys fs

unfoldable pub has_exactly : List String → Fields → Bool
has_exactly expected fs =
    all (λ name. any (is_key name) (keys fs)) expected
    && all (λ k. any (λ name. is_key name k) expected) (keys fs)

pub record ScoreNamespace : Type 0 where
  pub criterion_hash : String
  pub measurement_hash : String
  pub evaluator_hash : String
  pub universe_hash : String

-- `not isinstance(value, str) or not value.strip()`
unfoldable pub strict_text : Value → Result String
strict_text (str t) = refuse_if (is_blank t) value_error (ok t)
strict_text _ = raise value_error

-- The constructor with `__post_init__`.
unfoldable pub new_namespace : Value → Value → Value → Value → Result ScoreNamespace
new_namespace criterion measurement evaluator universe = strict_text criterion >>= λ c.
    strict_text measurement >>= λ m. strict_text evaluator >>= λ e. strict_text universe >>= λ u.
    ok (record { criterion_hash = c; measurement_hash = m; evaluator_hash = e; universe_hash = u })

abbrev pub namespace_fields : List String
namespace_fields = "criterion_hash" ∷ "measurement_hash" ∷ "evaluator_hash" ∷ "universe_hash" ∷ []

unfoldable pub namespace_to_json : ScoreNamespace → Value
namespace_to_json n = dict (
    entry "criterion_hash" (str n.criterion_hash) (
      entry "measurement_hash" (str n.measurement_hash) (
        entry "evaluator_hash" (str n.evaluator_hash)
          (entry "universe_hash" (str n.universe_hash) no_fields))))

unfoldable pub namespace_from_json : Value → Result ScoreNamespace
namespace_from_json (dict fs) = refuse_if (not (has_exactly namespace_fields fs)) value_error (
    new_namespace (get_field "criterion_hash" fs) (get_field "measurement_hash" fs)
      (get_field "evaluator_hash" fs) (get_field "universe_hash" fs))
namespace_from_json _ = raise type_error

unfoldable pub same_namespace : ScoreNamespace → ScoreNamespace → Bool
same_namespace a b =
    str_eq a.criterion_hash b.criterion_hash
    && str_eq a.measurement_hash b.measurement_hash
    && str_eq a.evaluator_hash b.evaluator_hash
    && str_eq a.universe_hash b.universe_hash

unfoldable pub require_comparable : ScoreNamespace → ScoreNamespace → Result (Unit {0})
require_comparable a b = if same_namespace a b then ok tt else raise namespace_mismatch

pub record Coverage : Type 0 where
  pub planned_units : ℕ
  pub executed_units : ℕ
  pub trustworthy_units : ℕ

-- `strict_int`, and the refusal of a negative number.
unfoldable pub strict_units : Value → Result ℕ
unfolding strict_int
strict_units v = strict_int v >>= λ n. elim n [ pos k ↦ ok k | negsuc _ ↦ raise value_error ]

-- The tests of `__post_init__` on the three numbers.
unfoldable pub is_coverage : Coverage → Bool
is_coverage c =
    not (ltb c.executed_units c.trustworthy_units)
    && not (ltb 0 c.planned_units && ltb c.planned_units c.executed_units)

unfoldable pub new_coverage : Value → Value → Value → Result Coverage
unfolding strict_units is_coverage
new_coverage planned executed trustworthy = strict_units planned >>= λ p.
    strict_units executed >>= λ e. strict_units trustworthy >>= λ t.
    let c : Coverage = record { planned_units = p; executed_units = e; trustworthy_units = t } in
    if is_coverage c then ok c else raise value_error

unfoldable pub is_declared : Coverage → Bool
is_declared c = ltb 0 c.planned_units

unfoldable pub is_complete : Coverage → Bool
unfolding is_declared
is_complete c =
    is_declared c
    && (c.executed_units == c.planned_units)
    && (c.trustworthy_units == c.planned_units)

unfoldable pub coverage_to_json : Coverage → Value
coverage_to_json c = dict (
    entry "planned_units" (int (pos c.planned_units)) (
      entry "executed_units" (int (pos c.executed_units))
        (entry "trustworthy_units" (int (pos c.trustworthy_units)) no_fields)))

abbrev pub coverage_fields : List String
coverage_fields = "planned_units" ∷ "executed_units" ∷ "trustworthy_units" ∷ []

unfoldable pub decode_coverage : Value → Result Coverage
unfolding new_coverage strict_int has_exactly
decode_coverage (dict fs) = refuse_if (not (has_exactly coverage_fields fs)) value_error (
    strict_int (get_field "planned_units" fs) >>= λ p.
    strict_int (get_field "executed_units" fs) >>= λ e.
    strict_int (get_field "trustworthy_units" fs) >>= λ t. new_coverage (int p) (int e) (int t))
decode_coverage _ = raise type_error

-- Namespaces and coverages as their constructors let them pass.
abbrev pub is_namespace : ScoreNamespace → Bool
is_namespace n =
    not (is_blank n.criterion_hash)
    && not (is_blank n.measurement_hash)
    && not (is_blank n.evaluator_hash)
    && not (is_blank n.universe_hash)

pub namespace_from_json-namespace_to_json :
    (n : ScoreNamespace) → is_namespace n ≡ true → namespace_from_json (namespace_to_json n) ≡ ok n
unfolding namespace_from_json namespace_to_json new_namespace strict_text has_exactly
namespace_from_json-namespace_to_json n h = ground arith

pub decode_coverage-coverage_to_json :
    (c : Coverage) → is_coverage c ≡ true → decode_coverage (coverage_to_json c) ≡ ok c
unfolding decode_coverage coverage_to_json new_coverage strict_units strict_int has_exactly
decode_coverage-coverage_to_json c h = ground arith
