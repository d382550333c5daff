-- ===== src/Bcheck/Table/Ranges.antt =====
-- The loops that fill slots and pages.
use inherpreter.Prelude.{
  ℕ, zero, suc, ◌+◌, ◌-◌, ◌≤◌, ◌<◌, ◌≡◌, refl, Bool, false, ◌&&◌, ◌||◌, arith, ltb, leb, ◌==◌,
  if◌then◌else◌,
}
use inherpreter.Bcheck.Slot.{Slot}
use inherpreter.Bcheck.Table.{
  t2_size, Table, page_slots, own_slots, change_page, at_slot, fill, fill_pages, one_page,
  first_page, last_page,
}

abbrev pub within : (lo hi i : ℕ) → Bool
within lo hi i = leb lo i && ltb i hi

pub fill_lem :
    (n j : ℕ) (f : Slot → Slot) (slots : ℕ → Slot) (i : ℕ)
    → fill n j f slots i ≡ (if within j (j + n) i then f (slots i) else slots i)
unfolding fill
fill_lem zero j f slots i = ground arith
fill_lem (suc n) j f slots i = ground (arith, fill_lem n (j + 1) f (at_slot j f slots) i)

pub fill_pages_lem :
    (n i : ℕ) (f : Slot → Slot) (t : Table) (k s : ℕ)
    → s < t2_size
    → page_slots (fill_pages n i f t k) s
      ≡ (if within i (i + n) k then f (own_slots (t k) s) else page_slots (t k) s)
unfolding fill_pages change_page
fill_pages_lem zero i f t k s h = ground arith
fill_pages_lem (suc n) i f t k s h = ground (
  arith,
  fill_pages_lem n (i + 1) f (change_page t i (fill t2_size 0 f)) k s,
  fill_lem t2_size 0 f (own_slots (t k)) s,
)

pub fill_pages_other :
    (n i : ℕ) (f : Slot → Slot) (t : Table) (k : ℕ)
    → within i (i + n) k ≡ false
    → fill_pages n i f t k ≡ t k
unfolding fill_pages change_page
fill_pages_other zero i f t k h = refl
fill_pages_other (suc n) i f t k h =
    ground (arith, fill_pages_other n (i + 1) f (change_page t i (fill t2_size 0 f)) k)

module _ (edge inner : Slot → Slot) (slots : ℕ → Slot) (k : ℕ) where
  pub one_page_lem :
      (i j : ℕ)
      → i ≤ j
      → one_page edge inner i j slots k ≡ (
          if k == i || k == j
          then edge (slots k)
          else if within i j k
          then inner (slots k)
          else slots k)
  unfolding one_page
  one_page_lem i j h = ground (
    arith,
    fill_lem (j - (i + 1)) (i + 1) inner (at_slot i edge slots) k,
    fill_lem (j - (i + 1)) (i + 1) inner (at_slot i edge slots) j,
  )

  pub first_page_lem :
      (i : ℕ)
      → k < t2_size
      → first_page edge inner i slots k
        ≡ (if k == i then edge (slots k) else if ltb i k then inner (slots k) else slots k)
  unfolding first_page
  first_page_lem i h =
      ground (arith, fill_lem (t2_size - (i + 1)) (i + 1) inner (at_slot i edge slots) k)

  pub last_page_lem :
      (j : ℕ)
      → last_page edge inner j slots k
        ≡ (if k == j then edge (slots k) else if ltb k j then inner (slots k) else slots k)
  unfolding last_page
  last_page_lem j = ground (arith, fill_lem j 0 inner slots k, fill_lem j 0 inner slots j)
