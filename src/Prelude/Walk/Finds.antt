-- ===== src/Prelude/Walk/Finds.antt =====
-- What the walk finds, where a mark stands for one node.
use Prim.Native.Nat.{ℕ, zero, suc}
use mathlib.Core.List.Memᴰ
use mathlib.Core.Path.{◌≡◌, refl, subst}
use mathlib.Core.Logic.{◌↔◌, ◌⊎◌, inl, inr}
use mathlib.Core.Bool.{Bool, true}
use mathlib.Core.Option.{Option, some}
use mathlib.Core.List.{List, [], ◌∷◌, Memᴰ}
use native.Mathlib.Omega.{arith}
use evo_harness_preview.Prelude.Tests.{Bool-cases, List-cases, Option-cases}
use evo_harness_preview.Prelude.Lists.{any_iff}
use evo_harness_preview.Prelude.Walk.{
  Walking, visited, is_seen, offer, scan, walk, Below, one, more,
}

module _ {K : Type 0} (same : K → K → Bool) (same_iff : (j k : K) → (same j k ≡ true) ↔ (j ≡ k))
    (mark : ℕ → Option K) where
  abbrev Marked : List K → ℕ → Type 0
  Marked seen v = (k : K) × (mark v ≡ some k) × Memᴰ k seen

  record Scanned (vs : List ℕ) (w w' : Walking K) : Type 0 where
    grows : (k : K) → Memᴰ k w.seen → Memᴰ k w'.seen
    keeps : (v : ℕ) → Memᴰ v w.frontier → Memᴰ v w'.frontier
    marks : (v : ℕ) → Memᴰ v vs → Marked w'.seen v
    adds :
        (k : K)
        → Memᴰ k w'.seen
        → Memᴰ k w.seen ⊎ ((v : ℕ) × Memᴰ v vs × (mark v ≡ some k) × Memᴰ v w'.frontier)
    queue : (v : ℕ) → Memᴰ v w'.frontier → Memᴰ v w.frontier ⊎ Memᴰ v vs

  offer_one :
      (k : K) (v : ℕ) (w : Walking K) → mark v ≡ some k → Scanned (v ∷ []) w (offer same mark k v w)
  unfolding offer
  offer_one k v w e = elim (Bool-cases (is_seen same mark w.seen k)) [
    | inl old ↦ rw old (record {
      grows = λ _ m. m;
      keeps = λ _ m. m;
      marks = λ u m. (
        k,
        rw (Memᴰ.eq_of_singleton m) e,
        (any_iff (λ j. same j k) (λ j. same_iff j k) w.seen).0 old,
      );
      adds = λ _ m. inl m;
      queue = λ _ m. inl m;
    })
    | inr new ↦ rw new (record {
      grows = λ _ m. Memᴰ.tail m;
      keeps = λ _ m. Memᴰ.tail m;
      marks = λ u m. (k, rw (Memᴰ.eq_of_singleton m) e, Memᴰ.head refl);
      adds = λ j m. elim (Memᴰ.cases_cons m) [
        | inl same_k ↦ inr (v, Memᴰ.head refl, rw same_k e, Memᴰ.head refl)
        | inr old ↦ inl old
      ];
      queue =
          λ u m. elim (Memᴰ.cases_cons m) [ inl here ↦ inr (Memᴰ.head here) | inr old ↦ inl old ];
    })
  ]

  Scanned-nil : (w : Walking K) → Scanned [] w w
  Scanned-nil w = record {
    grows = λ _ m. m;
    keeps = λ _ m. m;
    marks = λ _ m. absurd (Memᴰ.not-nil m);
    adds = λ _ m. inl m;
    queue = λ _ m. inl m;
  }

  Scanned-cons :
      (v : ℕ) (vs : List ℕ) (w w' w'' : Walking K)
      → Scanned (v ∷ []) w w'
      → Scanned vs w' w''
      → Scanned (v ∷ vs) w w''
  Scanned-cons v vs w w' w'' a b = record {
    grows = λ k m. b.grows k (a.grows k m);
    keeps = λ u m. b.keeps u (a.keeps u m);
    marks = λ u m. elim (Memᴰ.cases_cons m) [
      | inl here ↦ let (k, e, seen) = a.marks u (Memᴰ.head here) in (k, e, b.grows k seen)
      | inr there ↦ b.marks u there
    ];
    adds = λ k m. elim (b.adds k m) [
      | inr (u, mu, e, waits) ↦ inr (u, Memᴰ.tail mu, e, waits)
      | inl first ↦ elim (a.adds k first) [
        | inl old ↦ inl old
        | inr (u, mu, e, waits) ↦ inr (u, Memᴰ.head (Memᴰ.eq_of_singleton mu), e, b.keeps u waits)
      ]
    ];
    queue = λ u m. elim (b.queue u m) [
      | inr there ↦ inr (Memᴰ.tail there)
      | inl first ↦ elim (a.queue u first) [
        | inl old ↦ inl old
        | inr here ↦ inr (Memᴰ.head (Memᴰ.eq_of_singleton here))
      ]
    ];
  }

  scan-Scanned : (vs : List ℕ) (w w' : Walking K) → scan same mark vs w ≡ some w' → Scanned vs w w'
  unfolding scan
  scan-Scanned [] w w' e = subst (Scanned [] w) (ground arith) (Scanned-nil w)
  scan-Scanned (v ∷ vs) w w' e = elim (Option-cases (mark v)) [
    | inl missing ↦ absurd (ground arith)
    | inr (k, row) ↦
        Scanned-cons v vs w (offer same mark k v w) w' (offer_one k v w row)
          (scan-Scanned vs (offer same mark k v w) w' (rw (row, scan) at e))
  ]

  module _ (mark_inj : (u v : ℕ) (k : K) → mark u ≡ some k → mark v ≡ some k → u ≡ v)
      (next : ℕ → List ℕ) (src : ℕ) (seen₀ : List K) where
    record Inv (w : Walking K) : Type 0 where
      queued : (v : ℕ) → Memᴰ v w.frontier → (v ≡ src) ⊎ Below next src v
      start : (k : K) → Memᴰ k seen₀ → Memᴰ k w.seen
      sound :
          (k : K) → Memᴰ k w.seen → Memᴰ k seen₀ ⊎ ((v : ℕ) × Below next src v × (mark v ≡ some k))
      closed :
          (u : ℕ)
          → (u ≡ src) ⊎ Marked w.seen u
          → Memᴰ u w.frontier ⊎ ((v : ℕ) → Memᴰ v (next u) → Marked w.seen v)

    below : {u v : ℕ} → (u ≡ src) ⊎ Below next src u → Memᴰ v (next u) → Below next src v
    below (inl e) m = one (rw e at m)
    below (inr b) m = more b m

    -- One node is taken off the stack, and the nodes after it are scanned.
    Inv-step :
        (w w' : Walking K) (u : ℕ) (rest : List ℕ)
        → w.frontier ≡ u ∷ rest
        → Inv w
        → Scanned (next u) (record w { frontier = rest }) w'
        → Inv w'
    Inv-step w w' u rest e h s = record {
      queued = λ v m. elim (s.queue v m) [
        | inl old ↦ h.queued v (rw e (Memᴰ.tail old))
        | inr new ↦ inr (below (h.queued u top) new)
      ];
      start = λ k m. s.grows k (h.start k m);
      sound = λ k m. elim (s.adds k m) [
        | inl old ↦ h.sound k old
        | inr (v, mv, row, _) ↦ inr (v, below (h.queued u top) mv, row)
      ];
      closed = λ x c. closed_after x c;
    }
      where
        top : Memᴰ u w.frontier
        top = rw e (Memᴰ.head refl)

        still :
            (x : ℕ)
            → (x ≡ src) ⊎ Marked w.seen x
            → Memᴰ x w'.frontier ⊎ ((v : ℕ) → Memᴰ v (next x) → Marked w'.seen v)
        still x c = elim (h.closed x c) [
          | inr done ↦ inr (λ v m. let (k, row, seen) = done v m in (k, row, s.grows k seen))
          | inl waits ↦ elim (Memᴰ.cases_cons (rw e at waits)) [
            | inl here ↦ inr (λ v m. s.marks v (rw here at m))
            | inr old ↦ inl (s.keeps x old)
          ]
        ]

        closed_after :
            (x : ℕ)
            → (x ≡ src) ⊎ Marked w'.seen x
            → Memᴰ x w'.frontier ⊎ ((v : ℕ) → Memᴰ v (next x) → Marked w'.seen v)
        closed_after x (inl c) = still x (inl c)
        closed_after x (inr (k, row, seen)) = elim (s.adds k seen) [
          | inl old ↦ still x (inr (k, row, old))
          | inr (v, _, row', waits) ↦ inl (rw (mark_inj x v k row row') waits)
        ]

    Inv-walk :
        (fuel : ℕ) (w : Walking K) (seen : List K)
        → Inv w
        → walk same mark next fuel w ≡ visited seen
        → Inv (record { seen = seen; frontier = [] })
    unfolding walk
    Inv-walk zero w seen h e = elim (List-cases w.frontier) [
      | inl empty ↦ subst Inv (ground arith) h
      | inr (u, rest, waits) ↦ absurd (ground arith)
    ]
    Inv-walk (suc fuel) w seen h e = elim (List-cases w.frontier) [
      | inl empty ↦ subst Inv (ground arith) h
      | inr (u, rest, waits) ↦
          elim (Option-cases (scan same mark (next u) (record w { frontier = rest }))) [
            | inl missing ↦ absurd (ground arith)
            | inr (w', scanned) ↦
                Inv-walk fuel w' seen
                  (Inv-step w w' u rest waits h
                    (scan-Scanned (next u) (record w { frontier = rest }) w' scanned))
                  (ground arith)
          ]
    ]

    complete :
        (seen : List K)
        → Inv (record { seen = seen; frontier = [] })
        → {v : ℕ} → Below next src v
        → Marked seen v
    complete seen h (one {v} m) = elim (h.closed src (inl refl)) [
      | inl waits ↦ absurd (Memᴰ.not-nil waits)
      | inr done ↦ done v m
    ]
    complete seen h (more {u} {v} b m) = elim (h.closed u (inr (complete seen h b))) [
      | inl waits ↦ absurd (Memᴰ.not-nil waits)
      | inr done ↦ done v m
    ]

    -- What a finished walk has seen: the marks it began with and those of the nodes below.
    pub walk_finds :
        (fuel : ℕ) (seen : List K)
        → ((v : ℕ) → Marked seen₀ v → v ≡ src)
        → walk same mark next fuel (record { seen = seen₀; frontier = src ∷ [] }) ≡ visited seen
        → ((k : K) → Memᴰ k seen₀ → Memᴰ k seen)
          × ((k : K)
              → Memᴰ k seen
              → Memᴰ k seen₀ ⊎ ((v : ℕ) × Below next src v × (mark v ≡ some k)))
          × ((v : ℕ) → Below next src v → Marked seen v)
    walk_finds fuel seen only e =
        let h = Inv-walk fuel (record { seen = seen₀; frontier = src ∷ [] }) seen begin e in
        (h.start, h.sound, λ v b. complete seen h b)
      where
        begin : Inv (record { seen = seen₀; frontier = src ∷ [] })
        begin = record {
          queued = λ v m. inl (Memᴰ.eq_of_singleton m);
          start = λ k m. m;
          sound = λ k m. inl m;
          closed = λ u c. inl (Memᴰ.head (from_source u c));
        }
          where
            from_source : (u : ℕ) → (u ≡ src) ⊎ Marked seen₀ u → u ≡ src
            from_source u (inl e) = e
            from_source u (inr m) = only u m
