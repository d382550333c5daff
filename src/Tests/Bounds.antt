-- ===== src/Tests/Bounds.antt =====
-- A table of regions, and a slot with two regions.
use inherpreter.Prelude.{
  ℕ, ◌+◌, ◌-◌, ◌≡◌, refl, false, ◌&&◌, some, [], ◌∷◌, arith, ltb, leb, if◌then◌else◌,
}
use inherpreter.Bcheck.Slot.{sub_word, Region, Slot}
use inherpreter.Bcheck.Table.{
  empty_t2, Table, page_slots, own_slots, new_region, invalid_pointer, ptr_add, ptr_indir,
  mark_slots,
}
use inherpreter.Bcheck.Table.Checks.{new_region-head, IsAt, ptr_indir_underrun, ptr_add-new_region}
use inherpreter.Bcheck.Checked.{Memory, bound_memcpy}
use inherpreter.Bcheck.Checked.Exact.{IsHeld, memory_of, bound_memcpy_lem}
use inherpreter.Bcheck.Checked.Lengths.{EndsAt}
use inherpreter.Bcheck.Table.Invalid.{mark_slots-unmarked}

abbrev no_regions : Table
no_regions k = empty_t2

abbrev region : Region
region = record { start = 0x1000; size = 40 }

abbrev a_table : Table
a_table = new_region no_regions 0x1000 40

region-IsAt : IsAt a_table 0x1008 region
region-IsAt = new_region-head no_regions 0x1000 40 0x1008 (omega arith) (omega arith) (omega arith)

region-IsHeld : IsHeld a_table region 0x1008
region-IsHeld = record { fits = omega arith; at_head = region-IsAt; inside = refl }

-- Copying forwards, and the letter a at 0x1008, 0x1009 and 0x100a.
abbrev copy : Memory → (dst src size : ℕ) → Memory
copy mem dst src size j = if leb dst j && ltb j (dst + size) then mem (src + (j - dst)) else mem j

abbrev three_letters : Memory
three_letters j = if leb 0x1008 j && ltb j 0x100b then b'a' else 0

start-IsHeld : IsHeld a_table region 0x1000
start-IsHeld = record {
  fits = omega arith;
  at_head = new_region-head no_regions 0x1000 40 0x1000 (omega arith) (omega arith) (omega arith);
  inside = refl;
}

-- The source overlaps the destination and begins before it.
bound_memcpy_lem_example :
    memory_of (bound_memcpy copy a_table three_letters 0x1008 0x1000 16)
    ≡ some (copy three_letters 0x1008 0x1000 16)
bound_memcpy_lem_example =
    bound_memcpy_lem copy a_table three_letters region region 0x1008 0x1000 16 region-IsHeld
      start-IsHeld (omega arith) (omega arith) (omega arith)

three_letters-EndsAt : EndsAt three_letters 0x1008 3
three_letters-EndsAt = (refl, λ k lt. ground arith)

ptr_add-new_region_example : (ptr_add a_table 0x1008 (sub_word 0x1030 0x1008)).1 ≡ invalid_pointer
ptr_add-new_region_example =
    ptr_add-new_region no_regions 0x1000 40 0x1008 0x1030 (omega arith) (omega arith) (omega arith)
      (omega arith)

ptr_indir_underrun_example : (ptr_indir 4 a_table 0x1008 (sub_word 0xffe 0x1008)).1 ≡ 0xffe
ptr_indir_underrun_example =
    ptr_indir_underrun 4 a_table region 0x1008 0xffe (omega arith) region-IsAt refl (omega arith)
      (omega arith) (omega arith) (omega arith)

abbrev two_regions : Slot
two_regions = record {
  head = record { start = 16; size = 8 };
  next = record { start = 64; size = 8 } ∷ [];
  is_invalid = false;
}

mark_slots-unmarked_example :
    page_slots (mark_slots no_regions 2000 2100 0) 2040 ≡ own_slots (no_regions 0) 2040
mark_slots-unmarked_example =
    mark_slots-unmarked no_regions 2000 2100 0 2040 (omega arith) (omega arith) (omega arith)
