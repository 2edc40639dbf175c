-- ===== src/Evaluation/Values/Freezing.antt =====
-- What freezing gives, and that thawing undoes it.
use evo_harness_preview.Prelude.{◌≡◌, arith}
use evo_harness_preview.Evaluation.Faults.{ok, >>=-eq-ok}
use evo_harness_preview.Evaluation.Values.{
  Value, Items, Fields, float, list, tuple, dict, proxy, no_items, item, no_fields, field, text,
  opaque_key, freeze_json, freeze_items, freeze_fields, thaw_json, thaw_items, thaw_fields,
}

-- Freezing what was thawed from a frozen value.
abbrev Refreezes : Value → Type 0
Refreezes v = (w : Value) → freeze_json v ≡ ok w → freeze_json (thaw_json w) ≡ ok w

abbrev RefreezesItems : Items → Type 0
RefreezesItems vs = (ws : Items) → freeze_items vs ≡ ok ws → freeze_items (thaw_items ws) ≡ ok ws

abbrev RefreezesFields : Fields → Type 0
RefreezesFields fs =
    (gs : Fields) → freeze_fields fs ≡ ok gs → freeze_fields (thaw_fields gs) ≡ ok gs

refreeze_tuple :
    (vs : Items)
    → RefreezesItems vs
    → (w : Value) → freeze_json (list vs) ≡ ok w
    → freeze_json (thaw_json w) ≡ ok w
unfolding freeze_json thaw_json
refreeze_tuple vs ih w e =
    let (ws, p, q) = >>=-eq-ok (freeze_items vs) (λ ws. ok (tuple ws)) e in ground (arith, ih ws p)

refreeze_proxy :
    (fs : Fields)
    → RefreezesFields fs
    → (w : Value) → freeze_json (dict fs) ≡ ok w
    → freeze_json (thaw_json w) ≡ ok w
unfolding freeze_json thaw_json
refreeze_proxy fs ih w e =
    let (gs, p, q) = >>=-eq-ok (freeze_fields fs) (λ gs. ok (proxy gs)) e in ground (arith, ih gs p)

-- A frozen value that is thawed and frozen again is the frozen value.
pub freeze_json-thaw_json : (v w : Value) → freeze_json v ≡ ok w → freeze_json (thaw_json w) ≡ ok w
unfolding freeze_json freeze_items freeze_fields thaw_json thaw_items thaw_fields
freeze_json-thaw_json v = elim v as Refreezes RefreezesItems RefreezesFields [
  | list (vs → ih) ↦ λ w e. refreeze_tuple vs ih w e
  | tuple (vs → ih) ↦ λ w e. refreeze_tuple vs ih w e
  | dict (fs → ih) ↦ λ w e. refreeze_proxy fs ih w e
  | proxy (fs → ih) ↦ λ w e. refreeze_proxy fs ih w e
  | no_items ↦ λ ws e. ground arith
  | item (v → ih) (vs → ihs) ↦ λ ws e.
      let (w, p, q) = >>=-eq-ok (freeze_json v) _ e in
      let (ws', p', q') = >>=-eq-ok (freeze_items vs) _ q in ground (arith, ih w p, ihs ws' p')
  | no_fields ↦ λ gs e. ground arith
  | field opaque_key (v → ih) (fs → ihs) ↦ λ gs e. cc
  | field (text k) (v → ih) (fs → ihs) ↦ λ gs e.
      let (w, p, q) = >>=-eq-ok (freeze_json v) _ e in
      let (gs', p', q') = >>=-eq-ok (freeze_fields fs) _ q in ground (arith, ih w p, ihs gs' p')
  | float x ↦ λ w e. ground arith
  | _ ↦ λ w e. ground arith
]
