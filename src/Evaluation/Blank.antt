-- ===== src/Evaluation/Blank.antt =====
-- `not text.strip()`: whether a text is made of white space alone.
use Prim.Native.Char.{Char, code}
use evo_harness_preview.Prelude.{
  ℕ, String, ◌≡◌, refl, ap, Bool, true, false, ◌&&◌, ◌||◌, [], ◌∷◌, any, leb, ◌==◌, str_eq,
  str_eq_iff, Bool-cases, inl, inr, arith, if◌then◌else◌,
}

abbrev is_between : ℕ → ℕ → ℕ → Bool
is_between low high n = leb low n && leb n high

-- The characters that Python's `str.strip` takes off.
unfoldable pub is_space : Char → Bool
is_space c =
    let n = code c in
    is_between 9 13 n
    || is_between 28 32 n
    || is_between 8192 8202 n
    || any (λ k. n == k) (133 ∷ 160 ∷ 5760 ∷ 8232 ∷ 8233 ∷ 8239 ∷ 8287 ∷ 12288 ∷ [])

unfoldable pub is_blank : String → Bool
unfolding is_space
is_blank String.[] = true
is_blank (String.◌∷◌ c s) = is_space c && is_blank s

-- `not raw_line.strip()` of bytes, which takes off white space of ASCII alone.
unfoldable pub is_blank_line : String → Bool
is_blank_line String.[] = true
is_blank_line (String.◌∷◌ c s) = (is_between 9 13 (code c) || code c == 32) && is_blank_line s

-- `text.strip()`: behind the last character that is no space there is nothing, and so before the
-- first.
abbrev strip_end : String → String
unfolding is_space
strip_end String.[] = String.[]
strip_end (String.◌∷◌ c s) =
    let rest = strip_end s in if str_eq rest "" && is_space c then String.[] else String.◌∷◌ c rest

abbrev strip_start : String → String
unfolding is_space
strip_start String.[] = String.[]
strip_start (String.◌∷◌ c s) =
    let rest = strip_start s in if is_space c then rest else String.◌∷◌ c s

unfoldable pub strip : String → String
unfolding strip_start strip_end
strip t = strip_start (strip_end t)

abbrev has_chars : String → Bool
has_chars String.[] = false
has_chars (String.◌∷◌ c s) = true

nonempty : (c : Char) (s : String) → str_eq (String.◌∷◌ c s) "" ≡ false
nonempty c s = elim (Bool-cases (str_eq (String.◌∷◌ c s) "")) [
  | inl e ↦ cc (ap has_chars ((str_eq_iff (String.◌∷◌ c s) "").0 e))
  | inr e ↦ e
]

is_blank-strip_start : (t : String) → is_blank (strip_start t) ≡ str_eq (strip_start t) ""
unfolding is_blank strip_start
is_blank-strip_start String.[] = refl
is_blank-strip_start (String.◌∷◌ c s) = elim (Bool-cases (is_space c)) [
  | inl e ↦ rw e (is_blank-strip_start s)
  | inr e ↦ ground (arith, e, nonempty c s)
]

-- A text that was stripped is blank exactly if it is empty.
pub is_blank-strip : (t : String) → is_blank (strip t) ≡ str_eq (strip t) ""
unfolding strip
is_blank-strip t = is_blank-strip_start (strip_end t)
