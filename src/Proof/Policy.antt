-- ===== src/Proof/Policy.antt =====
-- evoharness/proof/policy.py: how far the axioms of a proof are trusted, and which a policy accepts.
pub mod Blocking
use Prim.Native.Char.{Char, code}
use evo_harness_preview.Prelude.{
  ℕ, zero, suc, String, Bool, true, false, not, ◌&&◌, ◌||◌, Option, none, some, List, [], ◌∷◌, any,
  map, filter_where, leb, ltb, ◌==◌, str_eq, if◌then◌else◌,
}

-- The keys of LEVELS.
pub data Trust : Type 0 where
  tainted claimed audited trusted : Trust

-- LEVELS
unfoldable pub level_number : Trust → ℕ
level_number tainted = 0
level_number claimed = 1
level_number audited = 2
level_number trusted = 3

-- STANDARD_AXIOMS
unfoldable pub is_standard : String → Bool
is_standard axiom_name =
    any (str_eq axiom_name) ("propext" ∷ "Quot.sound" ∷ "Classical.choice" ∷ [])

-- COMPILER_AXIOMS
unfoldable pub is_compiler : String → Bool
is_compiler axiom_name =
    any (str_eq axiom_name) ("Lean.ofReduceBool" ∷ "Lean.ofReduceNat" ∷ "Lean.trustCompiler" ∷ [])

-- SORRY
abbrev pub sorry_axiom : String
sorry_axiom = "sorryAx"

-- `name.split(".")`; 46 is the dot.
abbrev push_char : Char → List String → List String
push_char c [] = String.◌∷◌ c "" ∷ []
push_char c (part ∷ parts) = String.◌∷◌ c part ∷ parts

abbrev split_dots : String → List String
split_dots String.[] = "" ∷ []
split_dots (String.◌∷◌ c s) =
    let parts = split_dots s in if code c == 46 then "" ∷ parts else push_char c parts

unfoldable pub is_native_decide_axiom : String → Bool
is_native_decide_axiom name =
    let parts = split_dots name in
    any (λ part. str_eq part "_native") parts && any (λ part. str_eq part "native_decide") parts

-- `native_holds` is a mapping that may lack a name, or is None.
pub record AxiomPolicy : Type 0 where
  pub minimum_trust : Trust

-- `__post_init__`: no policy may accept `sorry`. A name that LEVELS lacks is no value of `Trust`.
unfoldable pub new_policy : Trust → Option AxiomPolicy
new_policy tainted = none
new_policy level = some (record { minimum_trust = level })

abbrev pub is_yes : Option Bool → Bool
is_yes none = false
is_yes (some b) = b

unfoldable pub level_of : String → (String → Option Bool) → ℕ
unfolding level_number is_standard is_compiler is_native_decide_axiom
level_of axiom_name native_holds =
    if is_standard axiom_name
    then level_number trusted
    else if is_compiler axiom_name
    then level_number audited
    else if is_native_decide_axiom axiom_name
    then if is_yes (native_holds axiom_name) then level_number audited else level_number claimed
    else if str_eq axiom_name sorry_axiom
    then level_number tainted
    else level_number claimed

-- `min(…, default=…)`
abbrev pub lowest : ℕ → List ℕ → ℕ
lowest top [] = top
lowest top (n ∷ ns) = let rest = lowest top ns in if leb n rest then n else rest

-- `next(name for name, value in LEVELS.items() if value == level)`
abbrev pub named_level : ℕ → List Trust → Option Trust
named_level n [] = none
named_level n (t ∷ ts) = if level_number t == n then some t else named_level n ts

unfoldable pub classify : List String → (String → Option Bool) → Option Trust
unfolding level_of level_number
classify axioms native_holds =
    named_level (lowest (level_number trusted) (map (λ a. level_of a native_holds) axioms))
      (tainted ∷ claimed ∷ audited ∷ trusted ∷ [])

unfoldable pub accepts : AxiomPolicy → Trust → Bool
unfolding level_number
accepts p trust = leb (level_number p.minimum_trust) (level_number trust)

unfoldable pub blocking : AxiomPolicy → List String → (String → Option Bool) → List String
unfolding level_of level_number
blocking p axioms native_holds =
    filter_where (λ a. ltb (level_of a native_holds) (level_number p.minimum_trust)) axioms

unfoldable pub unverified_native : List String → (String → Option Bool) → List String
unfolding is_native_decide_axiom
unverified_native axioms native_holds =
    filter_where (λ a. is_native_decide_axiom a && not (is_yes (native_holds a))) axioms
