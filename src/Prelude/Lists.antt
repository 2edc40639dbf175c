-- ===== src/Prelude/Lists.antt =====
-- Lists measured and tested by native numbers and Booleans, under the library's names.
use Prim.Native.Nat.{◌<◌, ℕ, suc, ◌+◌, ◌≤◌}
use mathlib.Core.Path.{◌≡◌, refl}
use mathlib.Core.Logic.{◌↔◌, ◌⊎◌, inl, inr}
use mathlib.Core.Bool.{Bool, true, false, ◌&&◌, ◌||◌}
use mathlib.Core.List.{List, [], ◌∷◌, ◌++◌, map, Memᴰ}
use mathlib.Core.List.Memᴰ
use native.Mathlib.Omega.{arith}
use evo_harness_preview.Prelude.Tests.{◌==◌, if◌then◌else◌, Bool-cases}

module _ {ℓ} {A : Type ℓ} where
  abbrev pub length : List A → ℕ
  length [] = 0
  length (x ∷ xs) = suc (length xs)

  abbrev pub any : (A → Bool) → List A → Bool
  any p [] = false
  any p (x ∷ xs) = p x || any p xs

  abbrev pub all : (A → Bool) → List A → Bool
  all p [] = true
  all p (x ∷ xs) = p x && all p xs

  abbrev pub is_empty : List A → Bool
  is_empty [] = true
  is_empty _ = false

  -- The number of elements that pass the test.
  abbrev pub count : (A → Bool) → List A → ℕ
  count p [] = 0
  count p (x ∷ xs) = let n = count p xs in if p x then suc n else n

  pub length-append : (xs ys : List A) → length (xs ++ ys) ≡ length xs + length ys
  length-append [] ys = omega arith
  length-append (x ∷ xs) ys = omega (arith, length-append xs ys)

  pub Memᴰ-cons : (a x : A) (xs : List A) → Memᴰ a (x ∷ xs) ↔ ((a ≡ x) ⊎ Memᴰ a xs)
  Memᴰ-cons a x xs = (Memᴰ.cases_cons, into)
    where
      into : (a ≡ x) ⊎ Memᴰ a xs → Memᴰ a (x ∷ xs)
      into (inl e) = Memᴰ.head e
      into (inr m) = Memᴰ.tail m

  pub Memᴰ-append : (a : A) (xs ys : List A) → Memᴰ a (xs ++ ys) ↔ (Memᴰ a xs ⊎ Memᴰ a ys)
  Memᴰ-append a xs ys = (Memᴰ.append_cases xs, into)
    where
      into : Memᴰ a xs ⊎ Memᴰ a ys → Memᴰ a (xs ++ ys)
      into (inl m) = Memᴰ.append_left ys m
      into (inr m) = Memᴰ.append_right xs m

  pub any-eq-true :
      (p : A → Bool) (xs : List A) → any p xs ≡ true → (a : A) × Memᴰ a xs × (p a ≡ true)
  any-eq-true p [] h = cc
  any-eq-true p (x ∷ xs) h = elim (Bool-cases (p x)) [
    | inl e ↦ (x, Memᴰ.head refl, e)
    | inr e ↦ let (a, m, q) = any-eq-true p xs (ground arith) in (a, Memᴰ.tail m, q)
  ]

  pub any_of_mem : (p : A → Bool) {a : A} (xs : List A) → Memᴰ a xs → p a ≡ true → any p xs ≡ true
  any_of_mem p [] m h = absurd (Memᴰ.not-nil m)
  any_of_mem p (x ∷ xs) (Memᴰ.head e) h = ground arith
  any_of_mem p (x ∷ xs) (Memᴰ.tail m) h = ground (arith, any_of_mem p xs m h)

  pub count-absent : (p : A → Bool) (xs : List A) → any p xs ≡ false → count p xs ≡ 0
  count-absent p [] h = refl
  count-absent p (x ∷ xs) h = ground (arith, count-absent p xs)

  pub count-le-length : (p : A → Bool) (xs : List A) → count p xs ≤ length xs
  count-le-length p [] = omega arith
  count-le-length p (x ∷ xs) = ground (arith, count-le-length p xs)

-- Membership of a number as a test.
abbrev pub contains : ℕ → List ℕ → Bool
contains n = any (λ m. m == n)

pub contains_iff : (n : ℕ) (l : List ℕ) → (contains n l ≡ true) ↔ Memᴰ n l
contains_iff n [] = (λ e. absurd (ground arith), λ m. absurd (Memᴰ.not-nil m))
contains_iff n (x ∷ l) = ground (arith, contains_iff n l, Memᴰ-cons n x l)

-- The rows that pass the test, in order.
module _ {ℓ} {A : Type ℓ} where
  abbrev pub filter_where : (A → Bool) → List A → List A
  filter_where p [] = []
  filter_where p (x ∷ xs) = let rest = filter_where p xs in if p x then x ∷ rest else rest

  pub filter_where_iff :
      (p : A → Bool) (a : A) (xs : List A) → Memᴰ a (filter_where p xs) ↔ (Memᴰ a xs × (p a ≡ true))
  filter_where_iff p a [] = (λ m. absurd (Memᴰ.not-nil m), λ h. absurd (Memᴰ.not-nil h.0))
  filter_where_iff p a (x ∷ xs) =
      ground (arith, filter_where_iff p a xs, Memᴰ-cons a x xs, Memᴰ-cons a x (filter_where p xs))

  -- A test for one value finds it exactly when it is there.
  pub any_iff :
      (p : A → Bool) {a : A}
      → ((x : A) → (p x ≡ true) ↔ (x ≡ a))
      → (xs : List A) → (any p xs ≡ true) ↔ Memᴰ a xs
  any_iff p h [] = (λ e. absurd (ground arith), λ m. absurd (Memᴰ.not-nil m))
  any_iff p {a} h (x ∷ xs) = ground (arith, h x, any_iff p h xs, Memᴰ-cons a x xs)

  pub all_iff :
      (p : A → Bool) {a : A}
      → ((x : A) → (p x ≡ true) ↔ (x ≡ a))
      → (xs : List A) → (all p xs ≡ true) ↔ ((x : A) → Memᴰ x xs → x ≡ a)
  all_iff p h [] = (λ _ x m. absurd (Memᴰ.not-nil m), λ _. refl)
  all_iff p {a} h (x ∷ xs) = (
    λ e y m. ground (arith, h x, (all_iff p h xs).0 (ground arith) y, Memᴰ-cons y x xs),
    λ f. ground (arith, h x, f x (Memᴰ.head refl), (all_iff p h xs).1 (λ y m. f y (Memᴰ.tail m))),
  )

-- `map` where only the members matter.
pub map-congr {ℓ κ} :
    {A : Type ℓ} {B : Type κ} (f g : A → B) (xs : List A)
    → ((x : A) → Memᴰ x xs → f x ≡ g x)
    → map f xs ≡ map g xs
map-congr f g [] h = refl
map-congr f g (x ∷ xs) h =
    ground (arith, h x (Memᴰ.head refl), map-congr f g xs (λ y m. h y (Memᴰ.tail m)))

module _ {ℓ} {A : Type ℓ} where
  pub map_id : (xs : List A) → map (λ (x : A). x) xs ≡ xs
  map_id [] = refl
  map_id (x ∷ xs) = ground (arith, map_id xs)

  pub length-map {κ} : {B : Type κ} (f : A → B) (xs : List A) → length (map f xs) ≡ length xs
  length-map f [] = refl
  length-map f (x ∷ xs) = ground (arith, length-map f xs)

  pub length-filter_where-le : (p : A → Bool) (xs : List A) → length (filter_where p xs) ≤ length xs
  length-filter_where-le p [] = omega arith
  length-filter_where-le p (x ∷ xs) = ground (arith, length-filter_where-le p xs)

  -- Rows that a write takes out of a count: those that the write touches and the count had.
  pub count-map_split :
      (p q c : A → Bool) (f : A → A)
      → ((x : A) → q (f x) ≡ (if c x then false else p x))
      → (xs : List A) → count q (map f xs) + count (λ x. c x && p x) xs ≡ count p xs
  count-map_split p q c f h [] = refl
  count-map_split p q c f h (x ∷ xs) = ground (arith, h x, count-map_split p q c f h xs)

  pub count-pos : (p : A → Bool) {a : A} (xs : List A) → Memᴰ a xs → p a ≡ true → 1 ≤ count p xs
  count-pos p [] m h = absurd (Memᴰ.not-nil m)
  count-pos p (x ∷ xs) (Memᴰ.head e) h = ground arith
  count-pos p (x ∷ xs) (Memᴰ.tail m) h = ground (arith, count-pos p xs m h)

  pub count_mono :
      (p q : A → Bool) (xs : List A)
      → ((x : A) → Memᴰ x xs → q x ≡ true → p x ≡ true)
      → count q xs ≤ count p xs
  count_mono p q [] h = omega arith
  count_mono p q (x ∷ xs) h =
      ground (arith, h x (Memᴰ.head refl), count_mono p q xs (λ y m. h y (Memᴰ.tail m)))

  pub length-filter_where-lt :
      (p : A → Bool) {a : A} (xs : List A)
      → Memᴰ a xs
      → p a ≡ false
      → length (filter_where p xs) < length xs
  length-filter_where-lt p [] m h = absurd (Memᴰ.not-nil m)
  length-filter_where-lt p (x ∷ xs) (Memᴰ.head e) h = ground (arith, length-filter_where-le p xs)
  length-filter_where-lt p (x ∷ xs) (Memᴰ.tail m) h =
      ground (arith, length-filter_where-lt p xs m h)

  pub filter_where-concat :
      (p : A → Bool) (xs : List A) (y : A)
      → filter_where p (xs ++ y ∷ [])
        ≡ (if p y then filter_where p xs ++ y ∷ [] else filter_where p xs)
  filter_where-concat p [] y = ground arith
  filter_where-concat p (x ∷ xs) y = ground (arith, filter_where-concat p xs y)

  pub any-concat : (p : A → Bool) (xs : List A) (y : A) → any p (xs ++ y ∷ []) ≡ (any p xs || p y)
  any-concat p [] y = ground arith
  any-concat p (x ∷ xs) y = ground (arith, any-concat p xs y)

  pub map-concat {κ} :
      {B : Type κ} (f : A → B) (xs : List A) (y : A) → map f (xs ++ y ∷ []) ≡ map f xs ++ f y ∷ []
  map-concat f [] y = refl
  map-concat f (x ∷ xs) y = ground (arith, map-concat f xs y)
