-- ===== src/Population/Archive/Counting.antt =====
-- Rows counted by their ids.
use mathlib.Core.List.Memᴰ
use evo_harness_preview.Prelude.{
  ℕ, zero, suc, ◌+◌, ◌≤◌, ◌≡◌, refl, ap, Bool, true, false, ◌||◌, none, List, [], ◌∷◌, map, length,
  count, any, contains, Memᴰ, find_key, find_key_of_mem, Distinct, arith, ◌==◌, count_mono,
}
use evo_harness_preview.Prelude.Sorting.{take, drop}
use evo_harness_preview.Population.{Candidate}
use evo_harness_preview.Population.Rows.{candidate_key}

count-absent_key :
    (k : ℕ) (rows : List Candidate)
    → find_key candidate_key k rows ≡ none
    → count (λ c. k == c.id) rows ≡ 0
count-absent_key k [] h = refl
count-absent_key k (c ∷ rows) h = ground (arith, h, count-absent_key k rows)

count-never : (rows : List Candidate) → count (λ c. false) rows ≡ 0
count-never [] = refl
count-never (c ∷ rows) = count-never rows

count-or :
    (p q : Candidate → Bool) (rows : List Candidate)
    → count (λ c. p c || q c) rows ≤ count p rows + count q rows
count-or p q [] = omega arith
count-or p q (c ∷ rows) = ground (arith, count-or p q rows)

pub count-map :
    (p : Candidate → Bool) (f : Candidate → Candidate) (rows : List Candidate)
    → count p (map f rows) ≡ count (λ c. p (f c)) rows
count-map p f [] = refl
count-map p f (c ∷ rows) = ground (arith, count-map p f rows)

absent_any :
    (x : Candidate) (xs : List Candidate)
    → find_key candidate_key x.id xs ≡ none
    → any (λ y. y.id == x.id) xs ≡ false
absent_any x [] h = refl
absent_any x (y ∷ xs) h = ground (arith, h, absent_any x xs)

-- A row more that passes a weaker test.
count-more :
    (p q : Candidate → Bool) (a : Candidate) (rows : List Candidate)
    → ((c : Candidate) → p c ≡ true → q c ≡ true)
    → Memᴰ a rows
    → p a ≡ false
    → q a ≡ true
    → suc (count p rows) ≤ count q rows
count-more p q a [] weaker m n y = absurd (Memᴰ.not-nil m)
count-more p q a (c ∷ rows) weaker (Memᴰ.head e) n y =
    ground (arith, e, n, y, count_mono q p rows (λ c _. weaker c))
count-more p q a (c ∷ rows) weaker (Memᴰ.tail m) n y =
    ground (arith, weaker c, count-more p q a rows weaker m n y)

-- Rows of a table, each once, are as many as the rows with their ids.
pub count-any :
    (xs rows : List Candidate)
    → Distinct candidate_key xs
    → ((c : Candidate) → Memᴰ c xs → Memᴰ c rows)
    → length xs ≤ count (λ c. any (λ x. x.id == c.id) xs) rows
count-any [] rows d sub = omega arith
count-any (x ∷ xs) rows (new, d) sub = omega (
  arith,
  count-any xs rows d (λ c m. sub c (Memᴰ.tail m)),
  count-more (λ c. any (λ x. x.id == c.id) xs) (λ c. any (λ x. x.id == c.id) (x ∷ xs)) x rows
      (λ c h. ground (arith, h)) (sub x (Memᴰ.head refl)) (absent_any x xs new) (ground arith),
)

-- Distinct rows with ids of a list are no more than the list is long.
count-one :
    (k : ℕ) (rows : List Candidate) → Distinct candidate_key rows → count (λ c. k == c.id) rows ≤ 1
count-one k [] d = omega arith
count-one k (c ∷ rows) (new, d) = ground (arith, count-absent_key k rows, count-one k rows d, new)

pub count-contains :
    (keep : List ℕ) (rows : List Candidate)
    → Distinct candidate_key rows
    → count (λ c. contains c.id keep) rows ≤ length keep
count-contains [] rows d = omega (arith, count-never rows)
count-contains (k ∷ keep) rows d = omega (
  arith,
  count-or (λ c. k == c.id) (λ c. contains c.id keep) rows,
  count-one k rows d,
  count-contains keep rows d,
)

pub same_row :
    (rows : List Candidate)
    → Distinct candidate_key rows
    → (a b : Candidate) → Memᴰ a rows
    → Memᴰ b rows
    → a.id ≡ b.id
    → a ≡ b
same_row rows d a b ma mb e =
    let fa = find_key_of_mem candidate_key a rows d ma in
    let fb = find_key_of_mem candidate_key b rows d mb in
    ground (arith, fa, fb, ap (λ k. find_key candidate_key k rows) e)

pub length-take_full :
    (n : ℕ) (b : Candidate) (xs : List Candidate) → Memᴰ b (drop n xs) → length (take n xs) ≡ n
length-take_full zero b xs m = refl
length-take_full (suc n) b [] m = absurd (Memᴰ.not-nil m)
length-take_full (suc n) b (x ∷ xs) m = omega (arith, length-take_full n b xs m)

absent-take :
    (n k : ℕ) (xs : List Candidate)
    → find_key candidate_key k xs ≡ none
    → find_key candidate_key k (take n xs) ≡ none
absent-take zero k xs h = refl
absent-take (suc n) k [] h = refl
absent-take (suc n) k (x ∷ xs) h = ground (arith, h, absent-take n k xs)

pub Distinct-take :
    (n : ℕ) (xs : List Candidate) → Distinct candidate_key xs → Distinct candidate_key (take n xs)
Distinct-take zero xs d = tt
Distinct-take (suc n) [] d = tt
Distinct-take (suc n) (x ∷ xs) (new, d) = (absent-take n x.id xs new, Distinct-take n xs d)
