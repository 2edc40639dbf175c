-- ===== src/Proof/Scope/Settling.antt =====
-- Under which premises a graph opens.
use evo_harness_preview.Prelude.{
  ℕ, String, ◌≡◌, ◌≢◌, ◌↔◌, ◌⊎◌, refl, sym, ap, subst, inl, inr, Bool, true, false, not, ◌&&◌,
  Option, none, some, List, [], ◌∷◌, arith, ltb, str_eq_iff, ==_iff, Bool-cases, List-cases,
}
use evo_harness_preview.Proof.Scope.{
  GraphScope, diff, new_scope, resolve, settle_scope, under, names_of, compared,
}

-- Two scopes agree on all that is compared.
pub record Agrees (a b : GraphScope) : Type 0 where
  pub environment : a.environment ≡ b.environment
  pub minimum_trust : a.minimum_trust ≡ b.minimum_trust
  pub identity_hasher : a.identity_hasher ≡ b.identity_hasher
  pub preamble_sha256 : a.preamble_sha256 ≡ b.preamble_sha256
  pub axiom_policy_version : a.axiom_policy_version ≡ b.axiom_policy_version
  pub envelope_schema_version : a.envelope_schema_version ≡ b.envelope_schema_version
  pub goalkey_schema_version : a.goalkey_schema_version ≡ b.goalkey_schema_version
  pub scope_version : a.scope_version ≡ b.scope_version

abbrev AllHold : List (Bool × String) → Type 0
AllHold [] = Unit
AllHold ((b, name) ∷ rest) = (b ≡ true) × AllHold rest

names_of-eq-nil_iff : (l : List (Bool × String)) → (names_of l ≡ []) ↔ AllHold l
names_of-eq-nil_iff [] = (λ _. tt, λ _. refl)
names_of-eq-nil_iff ((true, name) ∷ rest) =
    (λ e. (refl, (names_of-eq-nil_iff rest).0 e), λ h. (names_of-eq-nil_iff rest).1 h.1)
names_of-eq-nil_iff ((false, name) ∷ rest) =
    (λ e. absurd (ground arith), λ h. absurd (ground (arith, h.0)))

-- Two scopes have no difference exactly if they agree on every field but the base's name.
diff-eq-nil_iff : (a b : GraphScope) → (diff a b ≡ []) ↔ Agrees a b
unfolding diff
diff-eq-nil_iff a b = (
  λ e.
      let (e0, (e1, (e2, (e3, (e4, (e5, (e6, (e7, _)))))))) =
        (names_of-eq-nil_iff (compared a b)).0 e in
      record {
        environment = (str_eq_iff a.environment b.environment).0 e0;
        minimum_trust = (str_eq_iff a.minimum_trust b.minimum_trust).0 e1;
        identity_hasher = (str_eq_iff a.identity_hasher b.identity_hasher).0 e2;
        preamble_sha256 = (str_eq_iff a.preamble_sha256 b.preamble_sha256).0 e3;
        axiom_policy_version = (==_iff a.axiom_policy_version b.axiom_policy_version).0 e4;
        envelope_schema_version = (==_iff a.envelope_schema_version b.envelope_schema_version).0 e5;
        goalkey_schema_version = (==_iff a.goalkey_schema_version b.goalkey_schema_version).0 e6;
        scope_version = (==_iff a.scope_version b.scope_version).0 e7;
      },
  λ h. (names_of-eq-nil_iff (compared a b)).1 (
    (str_eq_iff a.environment b.environment).1 h.environment,
    (
      (str_eq_iff a.minimum_trust b.minimum_trust).1 h.minimum_trust,
      (
        (str_eq_iff a.identity_hasher b.identity_hasher).1 h.identity_hasher,
        (
          (str_eq_iff a.preamble_sha256 b.preamble_sha256).1 h.preamble_sha256,
          (
            (==_iff a.axiom_policy_version b.axiom_policy_version).1 h.axiom_policy_version,
            (
              (==_iff a.envelope_schema_version b.envelope_schema_version).1
                  h.envelope_schema_version,
              (
                (==_iff a.goalkey_schema_version b.goalkey_schema_version).1
                    h.goalkey_schema_version,
                ((==_iff a.scope_version b.scope_version).1 h.scope_version, tt),
              ),
            ),
          ),
        ),
      ),
    ),
  ),
)

Agrees-refl : (s : GraphScope) → Agrees s s
Agrees-refl s = record {
  environment = refl;
  minimum_trust = refl;
  identity_hasher = refl;
  preamble_sha256 = refl;
  axiom_policy_version = refl;
  envelope_schema_version = refl;
  goalkey_schema_version = refl;
  scope_version = refl;
}

-- If a command that asks for a scope opens a graph, then the graph's recorded scope is afterwards the
-- one it was opened under, and agrees with the one asked for on every field but the base's name;
-- and either it was recorded before, or none was, it is the one asked for, and the graph had no
-- goals or the caller adopted it.
pub settle_scope_lem :
    (wanted : GraphScope) (adopt : Bool) (goals : ℕ) (stored stored' : Option GraphScope)
    (s : GraphScope)
    → settle_scope (some wanted) adopt goals stored ≡ (under (some s), stored')
    → (stored' ≡ some s)
      × Agrees s wanted
      × ((stored ≡ some s) ⊎ ((stored ≡ none) × (s ≡ wanted) × ((goals ≡ 0) ⊎ (adopt ≡ true))))
unfolding settle_scope
settle_scope_lem wanted adopt goals none stored' s e =
    elim (Bool-cases (ltb 0 goals && not adopt)) [
      | inl refused ↦ absurd (ground arith)
      | inr opened ↦
          let same : wanted ≡ s = ground arith in
          (
            ground arith,
            subst (λ x. Agrees x wanted) same (Agrees-refl wanted),
            inr (refl, sym same, ground arith),
          )
    ]
settle_scope_lem wanted adopt goals (some t) stored' s e = elim (Bool-cases adopt) [
  | inl adopting ↦ absurd (ground arith)
  | inr plain ↦ elim (List-cases (diff t wanted)) [
    | inl empty ↦
        let same : t ≡ s = ground arith in
        (
          ground arith,
          subst (λ x. Agrees x wanted) same ((diff-eq-nil_iff t wanted).0 empty),
          inl (ap some same),
        )
    | inr (x, rest, differ) ↦ absurd (ground arith)
  ]
]

-- A command that is refused leaves the recorded scope as it was.
settle_scope_refused :
    (wanted : Option GraphScope) (adopt : Bool) (goals : ℕ) (stored : Option GraphScope)
    → ((s : Option GraphScope) → (settle_scope wanted adopt goals stored).0 ≢ under s)
    → (settle_scope wanted adopt goals stored).1 ≡ stored
unfolding settle_scope
settle_scope_refused none adopt goals stored h = ground arith
settle_scope_refused (some w) adopt goals none h = elim (Bool-cases (ltb 0 goals && not adopt)) [
  | inl refused ↦ ground arith
  | inr opened ↦ absurd (h (some w) (ground arith))
]
settle_scope_refused (some w) adopt goals (some t) h = ground arith

-- Settings that a command leaves out are the graph's: with the graph's own environment and preamble,
-- and under versions that are still this code's, such a command resolves to a scope under which the
-- graph opens unchanged, if the graph's scope is one that `new_scope` lets pass.
resolve_inherits :
    (s : GraphScope) (goals : ℕ)
    → new_scope s ≡ some s
    → (s.axiom_policy_version ≡ 1)
      × (s.envelope_schema_version ≡ 1)
      × (s.goalkey_schema_version ≡ 1)
      × (s.scope_version ≡ 1)
    → (w : GraphScope) × (resolve (some s) s.environment s.preamble_sha256 none none "" ≡ some w)
      × (settle_scope (some w) false goals (some s) ≡ (under (some s), some s))
unfolding resolve settle_scope new_scope
resolve_inherits s goals valid versions =
    let w : GraphScope = record {
      environment = s.environment;
      minimum_trust = s.minimum_trust;
      identity_hasher = s.identity_hasher;
      preamble_sha256 = s.preamble_sha256;
      base_id = s.base_id;
      axiom_policy_version = 1;
      envelope_schema_version = 1;
      goalkey_schema_version = 1;
      scope_version = 1;
    } in
    let same : diff s w ≡ [] = (diff-eq-nil_iff s w).1 (record {
      environment = refl;
      minimum_trust = refl;
      identity_hasher = refl;
      preamble_sha256 = refl;
      axiom_policy_version = versions.0;
      envelope_schema_version = versions.1;
      goalkey_schema_version = versions.2;
      scope_version = versions.3;
    }) in
    (w, ground arith, rw same refl)
