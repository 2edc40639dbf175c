-- ===== src/Prelude/Sorting.antt =====
-- Sorting by a test of what comes before what, as Python's stable `sort` does.
use Prim.Native.Nat.{ℕ, suc, zero}
use mathlib.Core.Path.{◌≡◌, refl}
use mathlib.Core.Logic.{◌↔◌, ◌⊎◌, inl, inr}
use mathlib.Core.Bool.{Bool, true, false}
use mathlib.Core.List.{List, [], ◌∷◌, Memᴰ}
use mathlib.Core.List.Memᴰ
use native.Mathlib.Omega.{arith}
use evo_harness_preview.Prelude.Tests.{if◌then◌else◌, Bool-cases, ◌==◌}
use mathlib.Core.Option.{none}
use evo_harness_preview.Prelude.Lists.{Memᴰ-cons}
use evo_harness_preview.Prelude.Tables.{find_key, Distinct}

module _ {ℓ} {A : Type ℓ} where
  abbrev pub take : ℕ → List A → List A
  take zero xs = []
  take (suc n) [] = []
  take (suc n) (x ∷ xs) = x ∷ take n xs

  abbrev pub drop : ℕ → List A → List A
  drop zero xs = xs
  drop (suc n) [] = []
  drop (suc n) (x ∷ xs) = drop n xs

  -- A value from a list's members, among which it is.
  pub Memᴰ-take-drop :
      (n : ℕ) (a : A) (xs : List A) → Memᴰ a xs ↔ (Memᴰ a (take n xs) ⊎ Memᴰ a (drop n xs))
  Memᴰ-take-drop zero a xs = (λ m. inr m, either)
    where
      either : Memᴰ a [] ⊎ Memᴰ a xs → Memᴰ a xs
      either (inl m) = absurd (Memᴰ.not-nil m)
      either (inr m) = m
  Memᴰ-take-drop (suc n) a [] = (λ m. absurd (Memᴰ.not-nil m), either)
    where
      either : Memᴰ a [] ⊎ Memᴰ a [] → Memᴰ a []
      either (inl m) = m
      either (inr m) = m
  Memᴰ-take-drop (suc n) a (x ∷ xs) =
      ground (arith, Memᴰ-take-drop n a xs, Memᴰ-cons a x xs, Memᴰ-cons a x (take n xs))

module _ {ℓ} {A : Type ℓ} (before : A → A → Bool) where
  abbrev insert_sorted : A → List A → List A
  insert_sorted x [] = x ∷ []
  insert_sorted x (y ∷ ys) =
      let rest = insert_sorted x ys in if before y x then y ∷ rest else x ∷ y ∷ ys

  abbrev pub sort : List A → List A
  sort [] = []
  sort (x ∷ xs) = insert_sorted x (sort xs)

  Memᴰ-insert_sorted : (a x : A) (ys : List A) → Memᴰ a (insert_sorted x ys) ↔ ((a ≡ x) ⊎ Memᴰ a ys)
  Memᴰ-insert_sorted a x [] = Memᴰ-cons a x []
  Memᴰ-insert_sorted a x (y ∷ ys) = ground (
    arith,
    Memᴰ-insert_sorted a x ys,
    Memᴰ-cons a y ys,
    Memᴰ-cons a y (insert_sorted x ys),
    Memᴰ-cons a x (y ∷ ys),
  )

  pub Memᴰ-sort : (a : A) (xs : List A) → Memᴰ a (sort xs) ↔ Memᴰ a xs
  Memᴰ-sort a [] = (λ m. m, λ m. m)
  Memᴰ-sort a (x ∷ xs) =
      ground (arith, Memᴰ-sort a xs, Memᴰ-insert_sorted a x (sort xs), Memᴰ-cons a x xs)

  -- No member comes before one that stands in front of it.
  abbrev IsSorted : List A → Type ℓ
  IsSorted [] = Unit
  IsSorted (x ∷ xs) = ((y : A) → Memᴰ y xs → before y x ≡ false) × IsSorted xs

  module _ (asym : (a b : A) → before a b ≡ true → before b a ≡ false)
      (trans : (a b c : A) → before a b ≡ false → before b c ≡ false → before a c ≡ false) where
    insert_sorted-IsSorted : (x : A) (ys : List A) → IsSorted ys → IsSorted (insert_sorted x ys)
    insert_sorted-IsSorted x [] s = (λ y m. absurd (Memᴰ.not-nil m), tt)
    insert_sorted-IsSorted x (y ∷ ys) (low, s) = elim (Bool-cases (before y x)) [
      | inl e ↦ rw e (
        λ z m. elim ((Memᴰ-insert_sorted z x ys).0 m) [
          | inl same ↦ ground (arith, asym y x, same)
          | inr old ↦ low z old
        ],
        insert_sorted-IsSorted x ys s,
      )
      | inr e ↦ rw e (
        λ z m. elim ((Memᴰ-cons z y ys).0 m) [
          | inl same ↦ ground (arith, same)
          | inr old ↦ trans z y x (low z old) e
        ],
        (low, s),
      )
    ]

    pub sort-IsSorted : (xs : List A) → IsSorted (sort xs)
    sort-IsSorted [] = tt
    sort-IsSorted (x ∷ xs) = insert_sorted-IsSorted x (sort xs) (sort-IsSorted xs)

  -- Of a sorted list, nothing behind the first `n` comes before one of them.
  pub take_first :
      (n : ℕ) (xs : List A)
      → IsSorted xs
      → (a b : A) → Memᴰ a (take n xs)
      → Memᴰ b (drop n xs)
      → before b a ≡ false
  take_first zero xs s a b m k = absurd (Memᴰ.not-nil m)
  take_first (suc n) [] s a b m k = absurd (Memᴰ.not-nil m)
  take_first (suc n) (x ∷ xs) (low, s) a b (Memᴰ.head e) k =
      let low_b = low b ((Memᴰ-take-drop n b xs).1 (inr k)) in ground (arith, low_b, e)
  take_first (suc n) (x ∷ xs) (low, s) a b (Memᴰ.tail m) k = take_first n xs s a b m k

-- Sorting keeps keys apart.
module _ {ℓ} {A : Type ℓ} (before : A → A → Bool) (key : A → ℕ) where
  absent-insert_sorted :
      (k : ℕ) (x : A) (ys : List A)
      → find_key key k ys ≡ none
      → (key x == k) ≡ false
      → find_key key k (insert_sorted before x ys) ≡ none
  absent-insert_sorted k x [] h n = ground arith
  absent-insert_sorted k x (y ∷ ys) h n = ground (arith, absent-insert_sorted k x ys)

  Distinct-insert_sorted :
      (x : A) (ys : List A)
      → Distinct key ys
      → find_key key (key x) ys ≡ none
      → Distinct key (insert_sorted before x ys)
  Distinct-insert_sorted x [] d h = (refl, tt)
  Distinct-insert_sorted x (y ∷ ys) (new, d) h = elim (Bool-cases (before y x)) [
    | inl e ↦ rw e (
      absent-insert_sorted (key y) x ys new (ground arith),
      Distinct-insert_sorted x ys d (ground arith),
    )
    | inr e ↦ rw e (h, (new, d))
  ]

  absent-sort :
      (k : ℕ) (xs : List A) → find_key key k xs ≡ none → find_key key k (sort before xs) ≡ none
  absent-sort k [] h = refl
  absent-sort k (x ∷ xs) h =
      absent-insert_sorted k x (sort before xs) (absent-sort k xs (ground arith)) (ground arith)

  pub Distinct-sort : (xs : List A) → Distinct key xs → Distinct key (sort before xs)
  Distinct-sort [] d = tt
  Distinct-sort (x ∷ xs) (new, d) =
      Distinct-insert_sorted x (sort before xs) (Distinct-sort xs d) (absent-sort (key x) xs new)
