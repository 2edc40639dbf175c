-- ===== src/Evaluation/Faults.antt =====
-- evoharness/evaluation/faults.py: what an evaluation fails with. What this part of the code raises
-- is a value of `Raised`, and what a call comes to a value of `Result`.
use evo_harness_preview.Prelude.{
  String, ◌≡◌, refl, subst, Bool, true, false, ◌⊎◌, inl, inr, Option, none, some, str_eq,
  if◌then◌else◌,
}
use evo_harness_preview.Evaluation.Blank.{is_blank}

pub data FaultKind : Type 0 where
  missing infra_error protocol_error task_failure timeout invalid_candidate unknown : FaultKind

-- `EvidenceProtocolError` is a ValueError that carries a fault's kind.
pub data Raised : Type 0 where
  type_error value_error overflow_error namespace_mismatch : Raised
  evidence_sink_error eval_infra_error : Raised
  evidence_protocol_error : FaultKind → Raised

pub data Result {ℓ} (A : Type ℓ) : Type ℓ where
  ok : A → Result A
  raise : Raised → Result A

infixl 5 ◌>>=◌
abbrev pub ◌>>=◌ {ℓ κ} :
    {A : Type ℓ} {B : Type κ} (call : Result A) (rest : A → Result B) → Result B
raise error >>= rest = raise error
ok x >>= rest = rest x

-- `if … : raise …`
abbrev pub refuse_if {ℓ} : {A : Type ℓ} → Bool → Raised → Result A → Result A
refuse_if b e r = if b then raise e else r

pub Result-cases {ℓ} :
    {A : Type ℓ} (r : Result A) → ((e : Raised) × (r ≡ raise e)) ⊎ ((a : A) × (r ≡ ok a))
Result-cases (ok a) = inr (a, refl)
Result-cases (raise e) = inl (e, refl)

-- What stands behind a call that returns.
pub >>=-eq-ok {ℓ κ} :
    {A : Type ℓ} {B : Type κ} (call : Result A) (rest : A → Result B) {y : B}
    → (call >>= rest) ≡ ok y
    → (x : A) × (call ≡ ok x) × (rest x ≡ ok y)
>>=-eq-ok (raise error) rest h = cc
>>=-eq-ok (ok x) rest h = (x, refl, h)

pub >>=_ok {ℓ} : {A : Type ℓ} (m : Result A) → (m >>= λ a. ok a) ≡ m
>>=_ok (ok a) = refl
>>=_ok (raise e) = refl

pub >>=_assoc {ℓ κ μ} :
    {A : Type ℓ} {B : Type κ} {C : Type μ} (call : Result A) (rest : A → Result B)
    (last : B → Result C)
    → (call >>= rest >>= last) ≡ (call >>= λ x. rest x >>= last)
>>=_assoc (raise error) rest last = refl
>>=_assoc (ok x) rest last = refl

-- What holds of the value of a call that returns, read through the steps of the call.
abbrev pub Ensures {ℓ κ} : {A : Type ℓ} → (A → Type κ) → Result A → Type κ
Ensures P (ok a) = P a
Ensures P (raise e) = Unit

pub Ensures-bind {ℓ κ μ} :
    {A : Type ℓ} {B : Type κ} (P : B → Type μ) (m : Result A) (f : A → Result B)
    → ((a : A) → m ≡ ok a → Ensures P (f a))
    → Ensures P (m >>= f)
Ensures-bind P (ok a) f h = h a refl
Ensures-bind P (raise e) f h = tt

pub Ensures-refuse {ℓ κ} :
    {A : Type ℓ} (P : A → Type κ) (b : Bool) (e : Raised) (r : Result A)
    → Ensures P r
    → Ensures P (refuse_if b e r)
Ensures-refuse P true e r h = tt
Ensures-refuse P false e r h = h

pub Ensures-each {ℓ κ} :
    {A : Type ℓ} (P : A → Type κ) (r : Result A) → ((a : A) → r ≡ ok a → P a) → Ensures P r
Ensures-each P (ok a) h = h a refl
Ensures-each P (raise e) h = tt

pub ensured {ℓ κ} :
    {A : Type ℓ} (P : A → Type κ) (r : Result A) {a : A} → Ensures P r → r ≡ ok a → P a
ensured P (ok b) h e = subst P (cc) h
ensured P (raise x) h e = cc

-- What holds of the error of a call that raises.
abbrev pub Fails {ℓ κ} : {A : Type ℓ} → (Raised → Type κ) → Result A → Type κ
Fails Q (ok a) = Unit
Fails Q (raise e) = Q e

pub Fails-bind {ℓ κ μ} :
    {A : Type ℓ} {B : Type κ} (Q : Raised → Type μ) (call : Result A) (rest : A → Result B)
    → Fails Q call
    → ((a : A) → call ≡ ok a → Fails Q (rest a))
    → Fails Q (call >>= rest)
Fails-bind Q (ok a) rest h k = k a refl
Fails-bind Q (raise e) rest h k = h

pub Fails-refuse {ℓ κ} :
    {A : Type ℓ} (Q : Raised → Type κ) (b : Bool) (e : Raised) (r : Result A)
    → Q e
    → Fails Q r
    → Fails Q (refuse_if b e r)
Fails-refuse Q true e r q h = q
Fails-refuse Q false e r q h = h

pub Fails-each {ℓ κ} :
    {A : Type ℓ} (Q : Raised → Type κ) (r : Result A)
    → ((e : Raised) → r ≡ raise e → Q e)
    → Fails Q r
Fails-each Q (ok a) h = tt
Fails-each Q (raise e) h = h e refl

pub failed {ℓ κ} :
    {A : Type ℓ} (Q : Raised → Type κ) (r : Result A) {e : Raised} → Fails Q r → r ≡ raise e → Q e
failed Q (ok a) h is = cc
failed Q (raise x) h is = subst Q (cc) h

-- What a guard lets pass.
pub behind {ℓ} :
    {A : Type ℓ} (b : Bool) (e : Raised) (r : Result A) {a : A} → refuse_if b e r ≡ ok a → r ≡ ok a
behind true e r h = cc
behind false e r h = h

-- The texts of the enumeration.
unfoldable pub value : FaultKind → String
value missing = "missing"
value infra_error = "infra_error"
value protocol_error = "protocol_error"
value task_failure = "task_failure"
value timeout = "timeout"
value invalid_candidate = "invalid_candidate"
value unknown = "unknown"

-- `_WIRE_VOCAB.get`, which also `FaultKind(text)` looks in.
unfoldable pub wire_vocab : String → Option FaultKind
wire_vocab t =
    if str_eq t "missing"
    then some missing
    else if str_eq t "infra_error"
    then some infra_error
    else if str_eq t "protocol_error"
    then some protocol_error
    else if str_eq t "task_failure"
    then some task_failure
    else if str_eq t "timeout"
    then some timeout
    else if str_eq t "invalid_candidate"
    then some invalid_candidate
    else if str_eq t "unknown"
    then some unknown
    else none

pub wire_vocab-value : (kind : FaultKind) → wire_vocab (value kind) ≡ some kind
unfolding wire_vocab value
wire_vocab-value missing = refl
wire_vocab-value infra_error = refl
wire_vocab-value protocol_error = refl
wire_vocab-value task_failure = refl
wire_vocab-value timeout = refl
wire_vocab-value invalid_candidate = refl
wire_vocab-value unknown = refl

-- NO_VERDICT_FAULTS
unfoldable pub is_no_verdict_fault : FaultKind → Bool
is_no_verdict_fault missing = true
is_no_verdict_fault infra_error = true
is_no_verdict_fault protocol_error = true
is_no_verdict_fault unknown = true
is_no_verdict_fault _ = false

-- `_WIRE_VOCAB.get(fault_kind, FaultKind.UNKNOWN)`
abbrev pub known_or_unknown : String → FaultKind
unfolding wire_vocab
known_or_unknown t = elim (wire_vocab t) [ none ↦ unknown | some kind ↦ kind ]

unfoldable pub classify_fault : Bool → Option String → Result (Option FaultKind)
classify_fault true none = ok none
classify_fault false none = ok (some task_failure)
classify_fault passed (some t) =
    refuse_if (is_blank t) type_error
      (ok (some (if passed then protocol_error else known_or_unknown t)))
