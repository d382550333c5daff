-- ===== src/Bcheck/Table/Invalid.antt =====
-- The marking of invalid regions.
use inherpreter.Prelude.{
  ℕ, ◌+◌, ◌-◌, ◌*◌, ◌/◌, ◌%◌, ◌≤◌, ◌<◌, ◌≡◌, true, false, arith, ltb, ◌==◌, if◌then◌else◌,
}
use inherpreter.Bcheck.Slot.{word, invalid_size, add_word}
use inherpreter.Bcheck.Table.{
  t2_size, t3_size, t23_size, Page, Table, page_slots, own_slots, change_page, fill, invalidate,
  invalid_pages, mark_slots, mark_invalid,
}
use inherpreter.Bcheck.Table.Ranges.{fill_lem}

-- A slot of 256 addresses from which no arithmetic and no access is let through.
abbrev pub IsMarked : Table → (k s : ℕ) → Type 0
IsMarked t k s =
    ((page_slots (t k) s).head.size ≡ invalid_size) × ((page_slots (t k) s).is_invalid ≡ true)

module _ (t : Table) (t2_start t2_end : ℕ) where
  abbrev t1_start : ℕ
  t1_start = (t2_start + (t2_size - 1)) / t2_size

  abbrev t1_end : ℕ
  t1_end = t2_end / t2_size

  abbrev i : ℕ
  i = t2_start % t2_size

  abbrev j : ℕ
  j = t2_end % t2_size

  abbrev ta : ℕ → Page
  ta k =
      if ltb 0 i
      then change_page t (t2_start / t2_size) (fill (t2_size - i) i invalidate) k
      else t k

  abbrev tb : Table
  tb = invalid_pages t1_start (t1_end - t1_start) ta

  mark_slots_many :
      (k : ℕ)
      → t1_start < t1_end
      → mark_slots t t2_start t2_end k
        ≡ (if j == 0 then tb k else change_page tb t1_end (fill j 0 invalidate) k)
  unfolding mark_slots change_page
  mark_slots_many k h = ground arith

  mark_slots-IsMarked :
      (k s : ℕ)
      → s < t2_size
      → t2_start ≤ k * t2_size + s
      → k * t2_size + s < t2_end
      → t1_start < t1_end
      → IsMarked (mark_slots t t2_start t2_end) k s
  unfolding change_page
  mark_slots-IsMarked k s small lo hi h = rw (mark_slots_many k h) (
      ground (
        arith,
        fill_lem (t2_size - i) i invalidate (own_slots (t (t2_start / t2_size))) s,
        fill_lem j 0 invalidate (own_slots (tb t1_end)) s,
      ))

  -- The test of the first branch compares a page number that is rounded up with one that is not.
  unmarked_lem :
      (k s : ℕ)
      → t1_start ≡ t1_end
      → j ≤ i
      → page_slots (mark_slots t t2_start t2_end k) s
        ≡ (if k == t2_start / t2_size then own_slots (t k) s else page_slots (t k) s)
  unfolding mark_slots change_page
  unmarked_lem k s e h =
      ground (arith, fill_lem (j - i) i invalidate (own_slots (t (t2_start / t2_size))) s)

  overmarked_lem :
      (s : ℕ)
      → s < t2_size
      → 0 < i
      → t2_start / t2_size ≡ t1_end
      → i ≤ s
      → IsMarked (mark_slots t t2_start t2_end) t1_end s
  unfolding mark_slots change_page
  overmarked_lem s small pos e h = ground (
    arith,
    fill_lem (t2_size - i) i invalidate (own_slots (t (t2_start / t2_size))) s,
    fill_lem j 0 invalidate (own_slots (tb t1_end)) s,
  )

-- Where a range of addresses that does not wrap around holds a whole page, every slot of 256
-- addresses that lies in the range is marked.
pub mark_invalid-IsMarked :
    (t : Table) (addr size k s : ℕ)
    → addr + size < word
    → s < t2_size
    → addr ≤ (k * t2_size + s) * t3_size
    → (k * t2_size + s + 1) * t3_size ≤ addr + size
    → (addr + (t23_size - 1)) / t23_size < (addr + size) / t23_size
    → IsMarked (mark_invalid t addr size) k s
unfolding mark_invalid
mark_invalid-IsMarked t addr size k s fits small lo hi whole =
    let end : add_word addr size ≡ addr + size = omega arith in
    let start : add_word addr (t3_size - 1) ≡ addr + (t3_size - 1) = omega arith in
    let ends : ((addr + size) == 0) ≡ false = ground arith in
    rw (end, start, ends)
      (mark_slots-IsMarked t ((addr + (t3_size - 1)) / t3_size) ((addr + size) / t3_size) k s small
        (omega arith) (omega arith) (omega arith))

-- A range of slots that crosses one page boundary, holds no whole page, and has fewer slots behind
-- the boundary than it leaves before it, is not marked at all: slots keep what get_page leaves.
pub mark_slots-unmarked :
    (t : Table) (t2_start t2_end k s : ℕ)
    → t2_start / t2_size + 1 ≡ t2_end / t2_size
    → 0 < t2_start % t2_size
    → t2_end % t2_size ≤ t2_start % t2_size
    → page_slots (mark_slots t t2_start t2_end k) s
      ≡ (if k == t2_start / t2_size then own_slots (t k) s else page_slots (t k) s)
mark_slots-unmarked t t2_start t2_end k s cross pos h =
    unmarked_lem t t2_start t2_end k s (omega arith) h

-- A range of slots inside one page, that does not begin with the page, marks every slot of the page
-- from its beginning on, those behind its end too.
pub mark_slots-overmarked :
    (t : Table) (t2_start t2_end s : ℕ)
    → t2_start / t2_size ≡ t2_end / t2_size
    → 0 < t2_start % t2_size
    → t2_start % t2_size ≤ s
    → s < t2_size
    → IsMarked (mark_slots t t2_start t2_end) (t2_end / t2_size) s
mark_slots-overmarked t t2_start t2_end s one pos h small =
    overmarked_lem t t2_start t2_end s small pos one h
