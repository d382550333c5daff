-- ===== src/Bcheck/Table.antt =====
-- The bounds table and its checks (lib/bcheck.c: get_page, mark_invalid, __bound_new_region,
-- __bound_delete_region, get_region_size, __bound_ptr_add, __bound_ptr_indir, __bound_check).
-- Memory is ample: __bound_new_page and bound_new_entry do not fail.
pub mod Ranges
pub mod Cover
pub mod Invalid
pub mod Checks
use inherpreter.Prelude.{
  ℕ, zero, suc, ◌+◌, ◌-◌, ◌/◌, ◌%◌, ◌^◌, Bool, true, false, not, ◌&&◌, ◌||◌, List, [], ◌∷◌, ltb,
  leb, ◌==◌, if◌then◌else◌, update,
}
use inherpreter.Bcheck.Slot.{
  word, empty_size, invalid_size, sub_word, add_word, Region, Slot, empty_slot, invalid_slot, Entry,
  lookup_region, add_region, delete_region,
}

-- BOUND_T2_SIZE, BOUND_T3_SIZE and BOUND_T23_SIZE
abbrev pub t2_size : ℕ
t2_size = 2048

abbrev pub t3_size : ℕ
t3_size = 256

abbrev pub t23_size : ℕ
t23_size = 0x80000

-- An entry of the first table: the shared empty or invalid page, or a page of its own.
pub data Page : Type 0 where
  empty_t2 invalid_t2 : Page
  own : (ℕ → Slot) → Page

abbrev pub Table : Type 0
Table = ℕ → Page

abbrev pub page_slots : Page → ℕ → Slot
page_slots empty_t2 i = empty_slot
page_slots invalid_t2 i = invalid_slot
page_slots (own slots) i = slots i

-- `addr >> (BOUND_T2_BITS + BOUND_T3_BITS)`, and the slot's number in its page: the code masks
-- `addr >> (BOUND_T3_BITS - BOUND_E_BITS)` to get the byte offset, sixteen times the number.
abbrev pub t1_index : ℕ → ℕ
t1_index addr = addr / t23_size

abbrev pub t2_index : ℕ → ℕ
t2_index addr = addr / t3_size % t2_size

unfoldable pub slot_at : Table → ℕ → Slot
slot_at t addr = page_slots (t (t1_index addr)) (t2_index addr)

-- The page that get_page returns: a shared page is replaced by a new one, of empty slots.
abbrev pub own_slots : Page → ℕ → Slot
own_slots (own slots) i = slots i
own_slots _ i = empty_slot

-- `page = get_page(i)`, with the slots of the page then changed by `f`.
unfoldable pub change_page : Table → ℕ → ((ℕ → Slot) → ℕ → Slot) → Table
change_page t i f k = if k == i then own (f (own_slots (t i))) else t k

-- A change through a pointer into the page of `t[i]`. The shared pages stay as they are: their slots
-- have no further entry, so a search in them moves nothing, and no region in them is deleted.
abbrev pub in_page : ((ℕ → Slot) → ℕ → Slot) → Page → Page
in_page f (own slots) = own (f slots)
in_page f other = other

unfoldable pub write_page : Table → ℕ → ((ℕ → Slot) → ℕ → Slot) → Table
write_page t i f k = if k == i then in_page f (t i) else t k

abbrev pub at_slot : ℕ → (Slot → Slot) → (ℕ → Slot) → ℕ → Slot
at_slot j f slots = update slots j (f (slots j))

-- `for(; e < e2; e++)` with the body `f`, over `n` slots from number `j`.
unfoldable pub fill : (n j : ℕ) → (Slot → Slot) → (ℕ → Slot) → ℕ → Slot
fill zero j f slots = slots
fill (suc n) j f slots = fill n (j + 1) f (at_slot j f slots)

-- `for(i = t1_start + 1; i < t1_end; i++)` over whole pages.
unfoldable pub fill_pages : (n i : ℕ) → (Slot → Slot) → Table → Table
fill_pages zero i f t = t
fill_pages (suc n) i f t = fill_pages n (i + 1) f (change_page t i (fill t2_size 0 f))

abbrev pub set_head : Region → Slot → Slot
set_head r e = record e { head = r }

-- The slots of a page from number `i` to number `j`, from `i` to the end, and from 0 to `j`.
unfoldable pub one_page : (edge inner : Slot → Slot) → (i j : ℕ) → (ℕ → Slot) → ℕ → Slot
unfolding fill
one_page edge inner i j slots k =
    let s1 = at_slot i edge slots in
    if ltb i j then at_slot j edge (fill (j - (i + 1)) (i + 1) inner s1) k else s1 k

unfoldable pub first_page : (edge inner : Slot → Slot) → (i : ℕ) → (ℕ → Slot) → ℕ → Slot
unfolding fill
first_page edge inner i slots = fill (t2_size - (i + 1)) (i + 1) inner (at_slot i edge slots)

unfoldable pub last_page : (edge inner : Slot → Slot) → (j : ℕ) → (ℕ → Slot) → ℕ → Slot
unfolding fill
last_page edge inner j slots = at_slot j edge (fill j 0 inner slots)

-- What __bound_new_region and __bound_delete_region do alike: `edge` at the first and at the last
-- slot, `inner` between. `first` gives access to the first page.
unfoldable pub change_range :
    (first : Table → ℕ → ((ℕ → Slot) → ℕ → Slot) → Table)
    → (edge inner : Slot → Slot) → (start end : ℕ) → Table
    → Table
change_range first edge inner start end t =
    let t1_start = t1_index start in
    let t1_end = t1_index end in
    let i = t2_index start in
    let j = t2_index end in
    if t1_end == t1_start
    then first t t1_start (one_page edge inner i j)
    else let ta = first t t1_start (first_page edge inner i) in
      let tb = fill_pages (t1_end - (t1_start + 1)) (t1_start + 1) inner ta in
      change_page tb t1_end (last_page edge inner j)

unfoldable pub new_region : Table → (p size : ℕ) → Table
unfolding change_range change_page one_page first_page last_page fill_pages
new_region t p size =
    change_range change_page (λ e. add_region e p size)
      (set_head (record { start = p; size = size })) p (add_word p size) t

-- The entry for an address, and the table with that slot's entries put in order.
unfoldable pub lookup : Table → ℕ → Table × Entry
unfolding slot_at write_page
lookup t p =
    let (slot, entry) = lookup_region (slot_at t p) p in
    (write_page t (t1_index p) (λ slots. update slots (t2_index p) slot), entry)

-- True is the error, a return of -1.
unfoldable pub delete_region_at : Table → (p : ℕ) → Table × Bool
unfolding lookup change_range change_page write_page one_page first_page last_page fill_pages
delete_region_at t p =
    let (t', entry) = lookup t p in
    let empty = if entry.is_invalid then invalid_size else empty_size in
    if entry.region.size == empty_size || not (p == entry.region.start) then (t', true) else (
      change_range write_page (λ e. delete_region e p empty)
          (set_head (record { start = 0; size = empty })) p (add_word p entry.region.size) t',
      false,
    )

unfoldable pub get_region_size : Table → ℕ → Table × ℕ
unfolding lookup
get_region_size t p =
    let (t', entry) = lookup t p in
    (t', if entry.region.start == p then entry.region.size else empty_size)

-- (void *)(-2)
abbrev pub invalid_pointer : ℕ
invalid_pointer = word - 2

-- `offset` is the bit pattern of an int.
unfoldable pub ptr_add : Table → (p offset : ℕ) → Table × ℕ
unfolding lookup
ptr_add t p offset =
    let (t', entry) = lookup t p in
    let addr = add_word (sub_word p entry.region.start) offset in
    (t', if ltb entry.region.size addr then invalid_pointer else add_word p offset)

unfoldable pub ptr_indir : (dsize : ℕ) → Table → (p offset : ℕ) → Table × ℕ
unfolding lookup
ptr_indir dsize t p offset =
    let (t', entry) = lookup t p in
    let addr = add_word (sub_word p entry.region.start) (add_word offset dsize) in
    (t', if ltb entry.region.size addr then invalid_pointer else add_word p offset)

-- The local regions of a function: pairs of an offset from the frame and a size, up to an offset 0.
unfoldable pub local_new : Table → (fp : ℕ) → List (ℕ × ℕ) → Table
local_new t fp [] = t
local_new t fp ((addr, size) ∷ ps) =
    let rest = local_new (new_region t (add_word addr fp) size) fp ps in
    if addr == 0 then t else rest

unfoldable pub local_delete : Table → (fp : ℕ) → List (ℕ × ℕ) → Table
local_delete t fp [] = t
local_delete t fp ((addr, size) ∷ ps) =
    let rest = local_delete (delete_region_at t (add_word addr fp)).0 fp ps in
    if addr == 0 then t else rest

abbrev pub invalidate : Slot → Slot
invalidate e = record e {
  head = record { start = e.head.start; size = invalid_size };
  is_invalid = true;
}

-- `for(i = t1_start; i < t1_end; i++) __bound_t1[i] = __bound_invalid_t2;`
abbrev pub invalid_pages : (i n : ℕ) → Table → Table
invalid_pages i n t k = if leb i k && ltb k (i + n) then invalid_t2 else t k

-- The body of mark_invalid, once the range is one of slots, from `t2_start` up to `t2_end`.
unfoldable pub mark_slots : Table → (t2_start t2_end : ℕ) → Table
unfolding fill change_page
mark_slots t t2_start t2_end =
    let t1_start = (t2_start + (t2_size - 1)) / t2_size in
    let t1_end = t2_end / t2_size in
    let i = t2_start % t2_size in
    let j = t2_end % t2_size in
    if t1_start == t1_end
    then change_page t (t2_start / t2_size) (fill (j - i) i invalidate)
    else let ta =
        if ltb 0 i
        then change_page t (t2_start / t2_size) (fill (t2_size - i) i invalidate)
        else t in
      let tb = invalid_pages t1_start (t1_end - t1_start) ta in
      if j == 0 then tb else change_page tb t1_end (fill j 0 invalidate)

unfoldable pub mark_invalid : Table → (addr size : ℕ) → Table
unfolding mark_slots
mark_invalid t addr size =
    let end = add_word addr size in
    mark_slots t (add_word addr (t3_size - 1) / t3_size)
      (if end == 0 then 2 ^ 24 else end / t3_size)
