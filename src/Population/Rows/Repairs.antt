-- ===== src/Population/Rows/Repairs.antt =====
-- A failed candidate is offered for repair once.
use mathlib.Core.List.Memᴰ
use evo_harness_preview.Prelude.{
  ℕ, suc, ◌≤◌, ◌≡◌, ◌⊎◌, inl, inr, refl, Bool, true, false, not, ◌&&◌, Bool-cases, none, some,
  Option-cases, List, [], ◌∷◌, Memᴰ, Memᴰ-cons, count, filter_where, filter_where_iff,
  find_key_of_mem, update_key, Distinct, arith, leb, sym, ap, subst, count-update_key,
}
use evo_harness_preview.Population.{Candidate, Population, ok, is_repairable}
use evo_harness_preview.Population.Rows.{
  candidate_key, max_by, latest_failed, mark_repair_attempted,
}

max_by-none : (value : Candidate → ℕ) (cs : List Candidate) → max_by value cs ≡ none → cs ≡ []
max_by-none value [] h = refl
max_by-none value (x ∷ cs) h = elim (Option-cases (max_by value cs)) [
  | inl e ↦ absurd (ground (arith, h, e))
  | inr (m, e) ↦ absurd (ground (arith, h, e))
]

-- The greatest is a member, and none is greater.
pub max_by_lem :
    (value : Candidate → ℕ) (cs : List Candidate) (c : Candidate)
    → max_by value cs ≡ some c
    → Memᴰ c cs × ((d : Candidate) → Memᴰ d cs → value d ≤ value c)
max_by_lem value [] c h = absurd (ground arith)
max_by_lem value (x ∷ cs) c h = elim (Option-cases (max_by value cs)) [
  | inl nothing ↦
      let empty = max_by-none value cs nothing in
      let same : x ≡ c = ground (arith, h, nothing) in
      (
        Memᴰ.head (sym same),
        λ d m. elim ((Memᴰ-cons d x cs).0 m) [
          | inl e ↦ ground (arith, ap value e, ap value same)
          | inr old ↦ absurd (Memᴰ.not-nil (subst (Memᴰ d) empty old))
        ],
      )
  | inr (m, found) ↦
      let (member, top) = max_by_lem value cs m found in
      elim (Bool-cases (leb (value m) (value x))) [
        | inl e ↦
            let same : x ≡ c = ground (arith, h, found, e) in
            (
              Memᴰ.head (sym same),
              λ d n. elim ((Memᴰ-cons d x cs).0 n) [
                | inl at ↦ ground (arith, ap value at, ap value same)
                | inr old ↦ ground (arith, ap value same, top d old, e)
              ],
            )
        | inr e ↦
            let same : m ≡ c = ground (arith, h, found, e) in
            (
              Memᴰ.tail (subst (λ c. Memᴰ c cs) same member),
              λ d n. elim ((Memᴰ-cons d x cs).0 n) [
                | inl at ↦ ground (arith, ap value at, ap value same, e)
                | inr old ↦ ground (arith, ap value same, top d old)
              ],
            )
      ]
]

-- The rows that wait for a repair.
abbrev pub waits : Candidate → Bool
waits c = is_repairable c && not c.metadata.repair_attempted

-- The write of a mark.
abbrev mark : Candidate → Candidate → Candidate
mark c row = record row { metadata = record (c.metadata) { repair_attempted = true } }

abbrev marked : Candidate → Population → Population
marked c p = record p { candidates = update_key candidate_key c.id (mark c) p.candidates }

mark-waits : (c row : Candidate) → waits (mark c row) ≡ false
mark-waits c row = ground arith

-- In a writable population whose ids are distinct, the candidate that latest_failed gives is a
-- failed one that waits for its repair, and none that waits is later; marking it returns, and one
-- row fewer waits.
pub latest_failed-mark :
    (p : Population) (c : Candidate)
    → p.readonly ≡ false
    → Distinct candidate_key p.candidates
    → latest_failed p ≡ some c
    → Memᴰ c p.candidates
      × (waits c ≡ true)
      × ((d : Candidate) → Memᴰ d p.candidates → (waits d ≡ false) ⊎ (d.timestamp ≤ c.timestamp))
      × (p' : Population) × (mark_repair_attempted c.id p ≡ ok p')
      × (suc (count waits p'.candidates) ≡ count waits p.candidates)
unfolding latest_failed mark_repair_attempted
latest_failed-mark p c writable distinct h =
    let (member, top) = max_by_lem (λ c. c.timestamp) (filter_where waits p.candidates) c h in
    let (there, waiting) = (filter_where_iff waits c p.candidates).0 member in
    (
      there,
      waiting,
      λ d m. later d m,
      marked c p,
      ground (arith, writable, find_key_of_mem candidate_key c p.candidates distinct there),
      count-update_key candidate_key waits (mark c) (mark-waits c) c p.candidates distinct there
          waiting,
    )
  where
    later : (d : Candidate) → Memᴰ d p.candidates → (waits d ≡ false) ⊎ (d.timestamp ≤ c.timestamp)
    later d m = elim (Bool-cases (waits d)) [
      | inl e ↦ inr (
          (max_by_lem (λ c. c.timestamp) (filter_where waits p.candidates) c h).1 d
            ((filter_where_iff waits d p.candidates).1 (m, e)))
      | inr e ↦ inl e
    ]
