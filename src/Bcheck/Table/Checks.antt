-- ===== src/Bcheck/Table/Checks.antt =====
-- A new region is found from each of its addresses, and the checks of pointers in it are exact.
use inherpreter.Prelude.{
  ℕ, ◌+◌, ◌≤◌, ◌<◌, ◌≡◌, ◌∙◌, ◌≢◌, Bool, true, ◌&&◌, arith, leb, if◌then◌else◌, ==_refl,
}
use inherpreter.Bcheck.Slot.{
  word, sub_word, add_word, Region, Slot, covers, lookup_region, add_region,
}
use inherpreter.Bcheck.Table.{
  Table, page_slots, t1_index, t2_index, slot_at, own_slots, change_page, set_head, new_region,
  lookup, invalid_pointer, ptr_add, ptr_indir,
}
use inherpreter.Bcheck.Table.Cover.{change_range_lem}

add_region_head :
    (e : Slot) (p size : ℕ) → (add_region e p size).head ≡ record { start = p; size = size }
unfolding add_region
add_region_head e p size = ground arith

change_page_here :
    (t : Table) (i : ℕ) (f : (ℕ → Slot) → ℕ → Slot) (s : ℕ)
    → page_slots (change_page t i f i) s ≡ f (own_slots (t i)) s
unfolding change_page
change_page_here t i f s = rw (==_refl i)

change_page_else :
    (t : Table) (i : ℕ) (f : (ℕ → Slot) → ℕ → Slot) (k : ℕ) → k ≢ i → change_page t i f k ≡ t k
unfolding change_page
change_page_else t i f k h = ground arith

-- After a region that does not wrap around has been entered, each of its addresses, and the address
-- past its end, has the region at the head of its slot, whatever the table held.
pub new_region-head :
    (t : Table) (p size a : ℕ)
    → p + size < word
    → p ≤ a
    → a ≤ p + size
    → (slot_at (new_region t p size) a).head ≡ record { start = p; size = size }
unfolding new_region slot_at
new_region-head t p size a fits lo hi =
    let add : Slot → Slot = λ e. add_region e p size in
    let region : Region = record { start = p; size = size } in
    let end_eq : add_word p size ≡ p + size = omega arith in
    let step =
      change_range_lem change_page t add (set_head region) p (p + size) (omega arith)
        (change_page_here t (t1_index p)) (change_page_else t (t1_index p)) (t1_index a)
        (t2_index a) (omega arith) (omega arith) (omega arith) in
    rw (end_eq, step)
      (ground (arith, add_region_head (own_slots (t (t1_index a)) (t2_index a)) p size))

abbrev pub IsAt : Table → ℕ → Region → Type 0
IsAt t p r = (slot_at t p).head ≡ r

lookup_head :
    (t : Table) (p : ℕ) (r : Region) → IsAt t p r → covers r p ≡ true → (lookup t p).1.region ≡ r
unfolding lookup lookup_region
lookup_head t p r e c = rw (e, c)

-- The address `q` is in the region, or just past its end.
abbrev pub in_bounds : Region → ℕ → Bool
in_bounds r q = leb r.start q && leb q (r.start + r.size)

abbrev pub IsRegion : Region → Type 0
IsRegion r = r.start + r.size < word

covers-in_bounds : (r : Region) (p : ℕ) → IsRegion r → p < word → covers r p ≡ in_bounds r p
unfolding covers
covers-in_bounds r p h k = ground arith

-- Where a region that does not wrap around is at the head of the slot of one of its addresses,
-- pointer arithmetic from there gives the address that is asked for if that lies in the region or
-- just past its end, and the invalid pointer otherwise.
pub ptr_add_exact :
    (t : Table) (r : Region) (p q : ℕ)
    → IsRegion r
    → IsAt t p r
    → in_bounds r p ≡ true
    → p < word
    → q < word
    → (ptr_add t p (sub_word q p)).1 ≡ (if in_bounds r q then q else invalid_pointer)
unfolding ptr_add
ptr_add_exact t r p q region at_p inside hp hq =
    let e = lookup_head t p r at_p (covers-in_bounds r p region hp ∙ inside) in rw e (ground arith)

-- Where a region that does not wrap around is at the head of the slot of one of its addresses, an
-- access of `dsize` bytes that is computed from there, and that begins at the region's start or
-- behind it, is let through exactly if all its bytes are in the region.
pub ptr_indir_exact :
    (dsize : ℕ) (t : Table) (r : Region) (p q : ℕ)
    → IsRegion r
    → IsAt t p r
    → in_bounds r p ≡ true
    → p < word
    → q + dsize < word
    → r.start ≤ q
    → (ptr_indir dsize t p (sub_word q p)).1
      ≡ (if leb (q + dsize) (r.start + r.size) then q else invalid_pointer)
unfolding ptr_indir
ptr_indir_exact dsize t r p q region at_p inside hp hq from_start =
    let e = lookup_head t p r at_p (covers-in_bounds r p region hp ∙ inside) in rw e (ground arith)

-- Where a region that does not wrap around is at the head of the slot of one of its addresses, an
-- access that is computed from there, begins before the region by no more than its own size, and
-- ends in it, is let through: the check adds the size of the access before it looks at the offset.
pub ptr_indir_underrun :
    (dsize : ℕ) (t : Table) (r : Region) (p q : ℕ)
    → IsRegion r
    → IsAt t p r
    → in_bounds r p ≡ true
    → p < word
    → q < r.start
    → r.start ≤ q + dsize
    → q + dsize ≤ r.start + r.size
    → (ptr_indir dsize t p (sub_word q p)).1 ≡ q
unfolding ptr_indir
ptr_indir_underrun dsize t r p q region at_p inside hp before_start reaches ends =
    let e = lookup_head t p r at_p (covers-in_bounds r p region hp ∙ inside) in rw e (ground arith)

-- Once a region that does not wrap around has been entered, arithmetic from any of its addresses is
-- checked against it: an address in the region or just past its end is given back, and the invalid
-- pointer for any other.
pub ptr_add-new_region :
    (t : Table) (start size p q : ℕ)
    → start + size < word
    → start ≤ p
    → p ≤ start + size
    → q < word
    → (ptr_add (new_region t start size) p (sub_word q p)).1
      ≡ (if leb start q && leb q (start + size) then q else invalid_pointer)
ptr_add-new_region t start size p q fits lo hi hq =
    ptr_add_exact (new_region t start size) (record { start = start; size = size }) p q fits
      (new_region-head t start size p fits lo hi) (ground arith) (omega arith) hq
