-- ===== src/Proof/Policy/Blocking.antt =====
-- What a policy lets pass, by the level of the whole proof and by its axioms one by one.
use evo_harness_preview.Prelude.{
  ℕ, zero, suc, ltb, subst, ◌&&◌, ◌≤◌, String, ◌≡◌, ◌≢◌, ◌↔◌, refl, sym, ap, Bool, true, false, not,
  inl, inr, Option, some, List, [], ◌∷◌, Memᴰ, arith, map, filter_where, filter_where_iff, leb,
  Bool-cases, str_eq_iff, str_eq,
}
use evo_harness_preview.Proof.Policy.{
  Trust, tainted, claimed, audited, trusted, level_number, level_of, is_native_decide_axiom,
  AxiomPolicy, accepts, classify, blocking, new_policy, is_standard, is_compiler, lowest,
  named_level, unverified_native, sorry_axiom, is_yes,
}

level_of-le : (a : String) (h : String → Option Bool) → level_of a h ≤ 3
unfolding level_of level_number
level_of-le a h = ground arith

lowest-le : (ns : List ℕ) → lowest 3 ns ≤ 3
lowest-le [] = omega arith
lowest-le (n ∷ ns) = ground (arith, lowest-le ns)

named_level_lem :
    (n : ℕ)
    → n ≤ 3
    → (t : Trust) × (named_level n (tainted ∷ claimed ∷ audited ∷ trusted ∷ []) ≡ some t)
      × (level_number t ≡ n)
unfolding level_number
named_level_lem zero le = (tainted, refl, refl)
named_level_lem (suc zero) le = (claimed, refl, refl)
named_level_lem (suc (suc zero)) le = (audited, refl, refl)
named_level_lem (suc (suc (suc zero))) le = (trusted, refl, refl)
named_level_lem (suc (suc (suc (suc n)))) le = absurd (omega arith)

level_number-le : (t : Trust) → level_number t ≤ 3
unfolding level_number
level_number-le t = ground arith

-- The lowest number is at least `k` where none is below it.
lowest-le_iff :
    (f : String → ℕ) (k : ℕ) (axioms : List String)
    → k ≤ 3
    → (leb k (lowest 3 (map f axioms)) ≡ true) ↔ (filter_where (λ a. ltb (f a) k) axioms ≡ [])
lowest-le_iff f k [] le = (λ _. refl, λ _. ground arith)
lowest-le_iff f k (a ∷ axioms) le =
    let later = lowest-le_iff f k axioms le in
    elim (Bool-cases (ltb (f a) k)) [
      | inl below ↦ (λ e. absurd (ground arith), λ e. absurd (ground arith))
      | inr above ↦ (
        λ e. rw above (later.0 (ground arith)),
        λ e. let rest = later.1 (ground arith) in ground arith,
      )
    ]

new_policy_floor :
    (level : Trust) (p : AxiomPolicy) → new_policy level ≡ some p → p.minimum_trust ≢ tainted
unfolding new_policy
new_policy_floor tainted p e = absurd (ground arith)
new_policy_floor claimed p e = ground arith
new_policy_floor audited p e = ground arith
new_policy_floor trusted p e = ground arith

below_floor : (t : Trust) → t ≢ tainted → ltb 0 (level_number t) ≡ true
unfolding level_number
below_floor t ne = ground arith

claimed-below_floor : (t : Trust) → t ≢ tainted → t ≢ claimed → ltb 1 (level_number t) ≡ true
unfolding level_number
claimed-below_floor t ne high = ground arith

other_name :
    (a t : String)
    → is_native_decide_axiom a ≡ true
    → is_native_decide_axiom t ≡ false
    → str_eq a t ≡ false
other_name a t native plain = elim (Bool-cases (str_eq a t)) [
  | inr ne ↦ ne
  | inl e ↦
      absurd
        (ground (arith, (str_eq_iff a t).0 e, ap is_native_decide_axiom ((str_eq_iff a t).0 e)))
]

-- A native_decide axiom that is not confirmed is only claimed.
level_of-native :
    (a : String) (h : String → Option Bool)
    → is_native_decide_axiom a ≡ true
    → is_yes (h a) ≡ false
    → level_of a h ≡ 1
unfolding level_of level_number is_standard is_compiler
level_of-native a h native unheld =
    let plain = other_name a in
    ground (
      arith,
      plain "propext" native (unfold is_native_decide_axiom in refl),
      plain "Quot.sound" native (unfold is_native_decide_axiom in refl),
      plain "Classical.choice" native (unfold is_native_decide_axiom in refl),
      plain "Lean.ofReduceBool" native (unfold is_native_decide_axiom in refl),
      plain "Lean.ofReduceNat" native (unfold is_native_decide_axiom in refl),
      plain "Lean.trustCompiler" native (unfold is_native_decide_axiom in refl),
    )

module _ (p : AxiomPolicy) (axioms : List String) (native_holds : String → Option Bool) where
  -- The axioms of a proof always come to a level, and a policy accepts that level exactly if no
  -- axiom blocks by itself.
  pub classify-accepts :
      (t : Trust) × (classify axioms native_holds ≡ some t)
      × ((accepts p t ≡ true) ↔ (blocking p axioms native_holds ≡ []))
  unfolding classify accepts blocking level_number
  classify-accepts =
      let levels = map (λ a. level_of a native_holds) axioms in
      let (t, named, same) = named_level_lem (lowest 3 levels) (lowest-le levels) in
      (
        t,
        named,
        subst
            (λ n.
              (leb (level_number p.minimum_trust) n ≡ true) ↔ (blocking p axioms native_holds ≡ []))
            (sym same)
            (lowest-le_iff (λ a. level_of a native_holds) (level_number p.minimum_trust) axioms
              (level_number-le p.minimum_trust)),
      )

  -- `sorry` blocks under every policy that `new_policy` lets pass, and so does a native_decide axiom
  -- that no recheck has confirmed, where the policy asks for more than `claimed`.
  pub mem-blocking_lem :
      (level : Trust)
      → new_policy level ≡ some p
      → (Memᴰ sorry_axiom axioms → Memᴰ sorry_axiom (blocking p axioms native_holds))
        × (p.minimum_trust ≢ claimed
            → (a : String) → Memᴰ a (unverified_native axioms native_holds)
            → Memᴰ a (blocking p axioms native_holds))
  unfolding blocking unverified_native new_policy
  mem-blocking_lem level e = (
    λ m.
        (filter_where_iff (λ a. ltb (level_of a native_holds) (level_number p.minimum_trust))
            sorry_axiom axioms).1
          (
            m,
            (unfold level_of level_number is_standard is_compiler is_native_decide_axiom in
                below_floor p.minimum_trust (new_policy_floor level p e)),
          ),
    λ high a m.
        let (row, found) =
          (filter_where_iff (λ a. is_native_decide_axiom a && not (is_yes (native_holds a))) a
              axioms).0
            m in
        (filter_where_iff (λ a. ltb (level_of a native_holds) (level_number p.minimum_trust)) a
            axioms).1
          (
            row,
            subst (λ n. ltb n (level_number p.minimum_trust) ≡ true)
                (sym (level_of-native a native_holds (ground arith) (ground arith)))
                (claimed-below_floor p.minimum_trust (new_policy_floor level p e) high),
          ),
  )
