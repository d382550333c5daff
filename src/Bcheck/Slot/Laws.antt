-- ===== src/Bcheck/Slot/Laws.antt =====
-- Searching, adding and deleting in one slot.
use mathlib.Core.List.{Perm}
use mathlib.Core.List.Perm
use inherpreter.Prelude.{
  ℕ, ◌<◌, ◌≡◌, refl, ◌⊎◌, inl, inr, true, false, none, some, List, [], ◌∷◌, arith, ◌==◌,
  if◌then◌else◌, ==_iff, Bool-cases,
}
use inherpreter.Bcheck.Slot.{
  word, empty_size, invalid_size, Region, Slot, covers, swap_out, find_region, add_region,
  delete_region,
}

abbrev pub regions : Slot → List Region
regions e = e.head ∷ e.next

-- Some entry of the list covers the address.
abbrev pub SomeCovers : List Region → ℕ → Type 0
SomeCovers [] p = ⊥
SomeCovers (r ∷ rs) p = (covers r p ≡ true) ⊎ SomeCovers rs p

not-SomeCovers :
    (r : Region) (rs : List Region) (p : ℕ)
    → covers r p ≡ false
    → ¬ SomeCovers rs p
    → ¬ SomeCovers (r ∷ rs) p
not-SomeCovers r rs p e no_one (inl c) = cc
not-SomeCovers r rs p e no_one (inr c) = no_one c

swap_out_lem :
    (first : Region) (rs : List Region) (p : ℕ)
    → ((swap_out first rs p ≡ none) × ¬ SomeCovers rs p)
      ⊎ ((found : Region) × (rest : List Region) × (swap_out first rs p ≡ some (found, rest))
          × (covers found p ≡ true)
          × SomeCovers rs p
          × Perm (found ∷ rest) (first ∷ rs))
unfolding swap_out
swap_out_lem first [] p = inl (refl, λ h. h)
swap_out_lem first (r ∷ rs) p = elim (Bool-cases (covers r p)) [
  | inl e ↦ inr (r, first ∷ rs, rw e, e, inl e, Perm.swap first r rs)
  | inr e ↦ elim (swap_out_lem first rs p) [
    | inl (n, no_one) ↦ inl (rw (e, n), not-SomeCovers r rs p e no_one)
    | inr (found, rest, s, c, some_one, perm) ↦ inr (
      found,
      r ∷ rest,
      rw (e, s),
      c,
      inr some_one,
      Perm.trans (Perm.swap r found rest) (Perm.trans (Perm.cons r perm) (Perm.swap first r rs)),
    )
  ]
]

-- The search keeps the entries of the slot. If one of them covers the address, the search returns
-- such an entry, which is then the first one of the slot.
pub find_region_lem :
    (e : Slot) (p : ℕ)
    → Perm (regions (find_region e p).0) (regions e)
      × (SomeCovers (regions e) p
          → (covers (find_region e p).1.region p ≡ true)
            × ((find_region e p).0.head ≡ (find_region e p).1.region)
            × ((find_region e p).1.is_invalid ≡ e.is_invalid))
unfolding find_region
find_region_lem e p = elim (Bool-cases (covers e.head p)) [
  | inl c ↦ rw c (Perm.refl (regions e), λ h. (c, refl, refl))
  | inr c ↦ elim (swap_out_lem e.head e.next p) [
    | inl (n, no_one) ↦
        (rw (c, n) (Perm.refl (regions e)), λ h. absurd (not-SomeCovers e.head e.next p c no_one h))
    | inr (found, rest, s, cov, some_one, perm) ↦ (rw (c, s) perm, λ h. rw (c, s) (cov, refl, refl))
  ]
]

-- If no entry covers the address, the slot is left as it is, and the search returns an empty entry
-- or an invalid one, as the slot says.
pub find_region_none :
    (e : Slot) (p : ℕ)
    → ¬ SomeCovers (regions e) p
    → ((find_region e p).0 ≡ e)
      × ((find_region e p).1 ≡ record {
        region = record { start = 0; size = if e.is_invalid then invalid_size else empty_size };
        is_invalid = e.is_invalid;
      })
unfolding find_region
find_region_none e p h =
    let miss : covers e.head p ≡ false = elim (Bool-cases (covers e.head p)) [
      | inl c ↦ absurd (h (inl c))
      | inr c ↦ c
    ] in
    elim (swap_out_lem e.head e.next p) [
      | inl (n, no_one) ↦ rw (miss, n) (refl, ground arith)
      | inr (found, rest, s, cov, some_one, perm) ↦ absurd (h (inr some_one))
    ]

pub covers_start : (r : Region) → r.start < word → covers r r.start ≡ true
unfolding covers
covers_start r h = ground arith

-- Deleting at its start a region that was just added, and does not start at 0, gives the slot back,
-- if a slot without a region has the empty size and no further entries.
pub delete_region-add_region :
    (e : Slot) (start size empty : ℕ)
    → 0 < start
    → start < word
    → (e.head.start ≡ 0 → (e.next ≡ []) × (e.head.size ≡ empty))
    → delete_region (add_region e start size) start empty ≡ e
unfolding delete_region add_region
delete_region-add_region e start size empty pos lt blank =
    let c = covers_start (record { start = start; size = size }) lt in
    elim (Bool-cases (e.head.start == 0)) [
      | inl z ↦ let (n, s) = blank ((==_iff _ 0).0 z) in rw (z, c, n) (ground arith)
      | inr z ↦ rw (z, c) refl
    ]
