-- ===== src/Evaluation/Values.antt =====
-- evoharness/evaluation/strictjson.py: Python values as the codec sees them, the strict reading of
-- scalars, and the freezing and thawing of containers.
--
-- A float is nan, an infinity, or a sign and a magnitude in units of 2 ^ -1074, of which every
-- finite double is a multiple. A value that is none of the cases is `opaque`, and so is a key that
-- is no text. `dict` and `list` are the plain containers, `proxy` (MappingProxyType) and `tuple` the
-- frozen ones.
use Prim.Native.Nat.{◌/◌, ◌%◌, ◌^◌}
use evo_harness_preview.Prelude.{
  ℕ, zero, suc, ◌+◌, ◌-◌, ◌*◌, String, Bool, true, false, not, ◌&&◌, Option, none, some, ltb, leb,
  ◌==◌, str_eq, if◌then◌else◌,
}
use evo_harness_preview.Evaluation.Faults.{
  Result, ok, raise, ◌>>=◌, type_error, value_error, overflow_error,
}
pub mod Freezing

pub data ℤ : Type 0 where
  pos : ℕ → ℤ
  negsuc : ℕ → ℤ

pub data Float : Type 0 where
  finite : (is_negative : Bool) (magnitude : ℕ) → Float
  infinite : (is_negative : Bool) → Float
  nan : Float

pub data Key : Type 0 where
  text : String → Key
  opaque_key : Key

mutual
  pub data Value : Type 0 where
    null opaque : Value
    bool : Bool → Value
    int : ℤ → Value
    float : Float → Value
    str : String → Value
    list : Items → Value
    tuple : Items → Value
    dict : Fields → Value
    proxy : Fields → Value

  pub data Items : Type 0 where
    no_items : Items
    item : (first : Value) (rest : Items) → Items

  pub data Fields : Type 0 where
    no_fields : Fields
    field : (key : Key) (value : Value) (rest : Fields) → Fields

-- `float(n)` of an int: to 53 bits, half to even, and an error from 2 ^ 1024 on.
abbrev half_even : ℕ → ℕ → ℕ
half_even n m =
    let q = n / m in
    let twice = 2 * (n % m) in if ltb twice m then q else if ltb m twice then suc q else q + q % 2

abbrev unit_of : ℕ → ℕ → ℕ → ℕ
unit_of zero n m = m
unit_of (suc fuel) n m = elim (ltb n (2 ^ 53 * m)) [ true ↦ m | false ↦ unit_of fuel n (2 * m) ]

unfoldable pub float_of_magnitude : Bool → ℕ → Result Float
float_of_magnitude is_negative n =
    let m = unit_of 1024 n 1 in
    let rounded = half_even n m * m in
    if leb (2 ^ 1024) rounded
    then raise overflow_error
    else ok (finite is_negative (rounded * 2 ^ 1074))

unfoldable pub float_of_int : ℤ → Result Float
unfolding float_of_magnitude
float_of_int (pos n) = float_of_magnitude false n
float_of_int (negsuc n) = float_of_magnitude true (suc n)

unfoldable pub strict_int : Value → Result ℤ
strict_int (int n) = ok n
strict_int _ = raise type_error

unfoldable pub strict_bool : Value → Result Bool
strict_bool (bool b) = ok b
strict_bool _ = raise type_error

unfoldable pub optional_bool : Value → Result (Option Bool)
optional_bool null = ok none
optional_bool (bool b) = ok (some b)
optional_bool _ = raise type_error

unfoldable pub optional_finite_float : Value → Result (Option Float)
optional_finite_float null = ok none
optional_finite_float (int n) = float_of_int n >>= λ x. ok (some x)
optional_finite_float (float (finite b n)) = ok (some (finite b n))
optional_finite_float _ = raise type_error

abbrev pub is_finite : Float → Bool
is_finite (finite b n) = true
is_finite _ = false

unfoldable mutual
  pub freeze_json : Value → Result Value
  freeze_json opaque = raise type_error
  freeze_json (float x) = if is_finite x then ok (float x) else raise value_error
  freeze_json (dict fs) = freeze_fields fs >>= λ gs. ok (proxy gs)
  freeze_json (proxy fs) = freeze_fields fs >>= λ gs. ok (proxy gs)
  freeze_json (list vs) = freeze_items vs >>= λ ws. ok (tuple ws)
  freeze_json (tuple vs) = freeze_items vs >>= λ ws. ok (tuple ws)
  freeze_json null = ok null
  freeze_json (bool b) = ok (bool b)
  freeze_json (int n) = ok (int n)
  freeze_json (str t) = ok (str t)

  pub freeze_items : Items → Result Items
  freeze_items no_items = ok no_items
  freeze_items (item v vs) = freeze_json v >>= λ w. freeze_items vs >>= λ ws. ok (item w ws)

  pub freeze_fields : Fields → Result Fields
  freeze_fields no_fields = ok no_fields
  freeze_fields (field opaque_key v fs) = raise type_error
  freeze_fields (field (text k) v fs) =
      freeze_json v >>= λ w. freeze_fields fs >>= λ gs. ok (field (text k) w gs)

unfoldable mutual
  pub thaw_json : Value → Value
  thaw_json (dict fs) = dict (thaw_fields fs)
  thaw_json (proxy fs) = dict (thaw_fields fs)
  thaw_json (tuple vs) = list (thaw_items vs)
  thaw_json (list vs) = list vs
  thaw_json null = null
  thaw_json opaque = opaque
  thaw_json (bool b) = bool b
  thaw_json (int n) = int n
  thaw_json (float x) = float x
  thaw_json (str t) = str t

  pub thaw_items : Items → Items
  thaw_items no_items = no_items
  thaw_items (item v vs) = item (thaw_json v) (thaw_items vs)

  pub thaw_fields : Fields → Fields
  thaw_fields no_fields = no_fields
  thaw_fields (field k v fs) = field k (thaw_json v) (thaw_fields fs)

-- What `json.dumps` writes: no proxy, and nothing that is no JSON value.
unfoldable mutual
  pub is_dumpable : Value → Bool
  is_dumpable opaque = false
  is_dumpable (proxy fs) = false
  is_dumpable (dict fs) = are_dumpable_fields fs
  is_dumpable (list vs) = are_dumpable vs
  is_dumpable (tuple vs) = are_dumpable vs
  is_dumpable null = true
  is_dumpable (bool b) = true
  is_dumpable (int n) = true
  is_dumpable (float x) = true
  is_dumpable (str t) = true

  are_dumpable : Items → Bool
  are_dumpable no_items = true
  are_dumpable (item v vs) = is_dumpable v && are_dumpable vs

  are_dumpable_fields : Fields → Bool
  are_dumpable_fields no_fields = true
  are_dumpable_fields (field opaque_key v fs) = false
  are_dumpable_fields (field (text k) v fs) = is_dumpable v && are_dumpable_fields fs
