-- ===== src/Prelude/Tables.antt =====
-- A table as the list of its rows, in the order of insertion, with a numeric key: `SELECT` and
-- `UPDATE … WHERE key = ?`, and what they leave alone.
use mathlib.Core.List.Memᴰ
use Prim.Native.Nat.{ℕ, suc}
use mathlib.Core.Path.{◌≡◌, refl, ap}
use mathlib.Core.Logic.{inl, inr}
use mathlib.Core.Bool.{Bool, true, false}
use mathlib.Core.Option.{Option, none, some}
use mathlib.Core.List.{List, [], ◌∷◌, ◌++◌, map, Memᴰ}
use native.Mathlib.Omega.{arith}
use evo_harness_preview.Prelude.Lists.{filter_where, count}
use evo_harness_preview.Prelude.Tests.{◌==◌, if◌then◌else◌, Bool-cases}

abbrev pub map_option {ℓ κ} : {A : Type ℓ} {B : Type κ} → (A → B) → Option A → Option B
map_option f none = none
map_option f (some a) = some (f a)

module _ {ℓ} {A : Type ℓ} (key : A → ℕ) where
  -- `SELECT * … WHERE key = ?` and its first row.
  abbrev pub find_key : ℕ → List A → Option A
  find_key k [] = none
  find_key k (x ∷ xs) = if key x == k then some x else find_key k xs

  -- `UPDATE … SET … WHERE key = ?`
  abbrev pub update_key : ℕ → (A → A) → List A → List A
  update_key k f = map (λ x. if key x == k then f x else x)

  -- `PRIMARY KEY`
  abbrev pub Distinct : List A → Type ℓ
  Distinct [] = Unit
  Distinct (x ∷ xs) = (find_key (key x) xs ≡ none) × Distinct xs

  pub find_key-append :
      (k : ℕ) (xs ys : List A)
      → find_key k (xs ++ ys) ≡ (elim (find_key k xs) [ none ↦ find_key k ys | some x ↦ some x ])
  find_key-append k [] ys = refl
  find_key-append k (x ∷ xs) ys = ground (arith, find_key-append k xs ys)

  pub find_key-update_key :
      (j k : ℕ) (f : A → A)
      → ((x : A) → key (f x) ≡ key x)
      → (xs : List A)
      → find_key j (update_key k f xs)
        ≡ (if j == k then map_option f (find_key j xs) else find_key j xs)
  find_key-update_key j k f same [] = ground arith
  find_key-update_key j k f same (x ∷ xs) =
      ground (arith, same x, find_key-update_key j k f same xs)

  pub update_key_absent :
      (k : ℕ) (f : A → A) (xs : List A) → find_key k xs ≡ none → update_key k f xs ≡ xs
  update_key_absent k f [] h = refl
  update_key_absent k f (x ∷ xs) h = ground (arith, update_key_absent k f xs)

  pub mem_of_find_key : (k : ℕ) (x : A) (xs : List A) → find_key k xs ≡ some x → Memᴰ x xs
  mem_of_find_key k x [] h = ground arith
  mem_of_find_key k x (y ∷ xs) h = elim (Bool-cases (key y == k)) [
    | inl e ↦ Memᴰ.head (ground arith)
    | inr e ↦ Memᴰ.tail (mem_of_find_key k x xs (ground arith))
  ]

  pub key_of_find_key : (k : ℕ) (x : A) (xs : List A) → find_key k xs ≡ some x → key x ≡ k
  key_of_find_key k x [] h = ground arith
  key_of_find_key k x (y ∷ xs) h = ground (arith, key_of_find_key k x xs)

  pub find_key_of_mem :
      (x : A) (xs : List A) → Distinct xs → Memᴰ x xs → find_key (key x) xs ≡ some x
  find_key_of_mem x [] d m = absurd (Memᴰ.not-nil m)
  find_key_of_mem x (y ∷ xs) d (Memᴰ.head e) = ground arith
  find_key_of_mem x (y ∷ xs) d (Memᴰ.tail m) = ground (arith, find_key_of_mem x xs d.1 m)

  pub Distinct-concat :
      (x : A) (xs : List A) → Distinct xs → find_key (key x) xs ≡ none → Distinct (xs ++ x ∷ [])
  Distinct-concat x [] d h = ground arith
  Distinct-concat x (y ∷ xs) d h =
      ground (arith, find_key-append (key y) xs (x ∷ []), Distinct-concat x xs d.1)

  absent-map :
      (f : A → A)
      → ((x : A) → key (f x) ≡ key x)
      → (k : ℕ) (xs : List A) → find_key k xs ≡ none
      → find_key k (map f xs) ≡ none
  absent-map f same k [] h = refl
  absent-map f same k (x ∷ xs) h = ground (arith, same x, absent-map f same k xs)

  pub Distinct-map :
      (f : A → A)
      → ((x : A) → key (f x) ≡ key x)
      → (xs : List A) → Distinct xs
      → Distinct (map f xs)
  Distinct-map f same [] d = tt
  Distinct-map f same (x ∷ xs) d =
      (rw same (absent-map f same (key x) xs d.0), Distinct-map f same xs d.1)

  pub absent-filter_where :
      (p : A → Bool) (k : ℕ) (xs : List A)
      → find_key k xs ≡ none
      → find_key k (filter_where p xs) ≡ none
  absent-filter_where p k [] h = refl
  absent-filter_where p k (x ∷ xs) h = ground (arith, absent-filter_where p k xs)

  pub Distinct-filter_where :
      (p : A → Bool) (xs : List A) → Distinct xs → Distinct (filter_where p xs)
  Distinct-filter_where p [] d = tt
  Distinct-filter_where p (x ∷ xs) d =
      ground (arith, Distinct-filter_where p xs d.1, absent-filter_where p (key x) xs d.0)

  pub find_key-map :
      (f : A → A)
      → ((x : A) → key (f x) ≡ key x)
      → (k : ℕ) (xs : List A) → find_key k (map f xs) ≡ map_option f (find_key k xs)
  find_key-map f same k [] = refl
  find_key-map f same k (x ∷ xs) = ground (arith, same x, find_key-map f same k xs)

  -- A write that leaves the one row of a key as it is changes nothing.
  pub update_key_fixed :
      (k : ℕ) (f : A → A) (xs : List A) (x : A)
      → Distinct xs
      → find_key k xs ≡ some x
      → f x ≡ x
      → update_key k f xs ≡ xs
  update_key_fixed k f [] x d e h = refl
  update_key_fixed k f (y ∷ ys) x d e h =
      ground
        (arith, update_key_fixed k f ys x d.1, update_key_absent k f ys, ap (λ i. find_key i ys))

  -- A write that takes one counted row out of a count.
  pub count-update_key :
      (p : A → Bool) (f : A → A)
      → ((x : A) → p (f x) ≡ false)
      → (a : A) (xs : List A) → Distinct xs
      → Memᴰ a xs
      → p a ≡ true
      → suc (count p (update_key (key a) f xs)) ≡ count p xs
  count-update_key p f out a [] d m h = absurd (Memᴰ.not-nil m)
  count-update_key p f out a (x ∷ xs) d (Memᴰ.head e) h =
      let rest : update_key (key a) f xs ≡ xs =
        update_key_absent (key a) f xs (ground (arith, d, ap key e)) in
      rw rest (ground (arith, e, out x, h))
  count-update_key p f out a (x ∷ xs) d (Memᴰ.tail m) h =
      let there = find_key_of_mem a xs d.1 m in
      ground (arith, d, count-update_key p f out a xs d.1 m h, there)
