-- ===== src/Bcheck/Checked/Exact.antt =====
-- What the checked functions let through.
use inherpreter.Prelude.{
  ℕ, ◌+◌, ◌<◌, ◌≡◌, refl, ap, ◌∙◌, inl, inr, Bool, true, false, not, ◌&&◌, Option, none, some,
  arith, ltb, leb, ◌==◌, if◌then◌else◌, Bool-cases, update,
}
use inherpreter.Bcheck.Slot.{word, sub_word, add_word, Region, Slot, covers, lookup_region}
use inherpreter.Bcheck.Table.{
  Page, empty_t2, invalid_t2, own, Table, page_slots, t1_index, t2_index, slot_at, in_page,
  write_page, lookup, invalid_pointer, ptr_add,
}
use inherpreter.Bcheck.Table.Checks.{IsAt, in_bounds, ptr_add_exact}
use inherpreter.Bcheck.Checked.{Memory, bound_check, bound_memcpy}

-- A region below the invalid pointer, at the head of the slot of its address `p`.
pub record IsHeld (t : Table) (r : Region) (p : ℕ) : Type 0 where
  pub fits : r.start + r.size < invalid_pointer
  pub at_head : IsAt t p r
  pub inside : in_bounds r p ≡ true

covered : (t : Table) (r : Region) (p : ℕ) → IsHeld t r p → covers r p ≡ true
unfolding covers
covered t r p h = let i = h.inside in let f = h.fits in ground arith

page_kept :
    (page : Page) (j k : ℕ)
    → page_slots (in_page (λ slots. update slots j (page_slots page j)) page) k ≡ page_slots page k
page_kept empty_t2 j k = refl
page_kept invalid_t2 j k = refl
page_kept (own slots) j k = elim (Bool-cases (j == k)) [
  | inl e ↦ let same : j ≡ k = ground arith in rw (e, same) refl
  | inr e ↦ rw e refl
]

write_page_kept :
    (t : Table) (p q : ℕ)
    → slot_at (write_page t (t1_index p) (λ slots. update slots (t2_index p) (slot_at t p))) q
      ≡ slot_at t q
unfolding slot_at write_page
write_page_kept t p q = elim (Bool-cases (t1_index q == t1_index p)) [
  | inl e ↦
      let same : t1_index q ≡ t1_index p = ground arith in
      rw (e, same) (page_kept (t (t1_index p)) (t2_index p) (t2_index q))
  | inr e ↦ rw e refl
]

-- Looking up an address whose region is at the head moves no region.
pub lookup_kept :
    (t : Table) (r : Region) (p q : ℕ) → IsHeld t r p → slot_at (lookup t p).0 q ≡ slot_at t q
unfolding lookup lookup_region
lookup_kept t r p q h =
    let c : covers (slot_at t p).head p ≡ true = rw h.at_head (covered t r p h) in
    rw c (write_page_kept t p q)

abbrev pub SameSlots : Table → Table → Type 0
SameSlots t t' = (q : ℕ) → slot_at t' q ≡ slot_at t q

pub IsHeld-SameSlots :
    (t t' : Table) (r : Region) (p : ℕ) → SameSlots t t' → IsHeld t r p → IsHeld t' r p
IsHeld-SameSlots t t' r p same h = record {
  fits = h.fits;
  at_head = ap (λ (e : Slot). e.head) (same p) ∙ h.at_head;
  inside = h.inside;
}

abbrev pub end_of : Region → ℕ
end_of r = r.start + r.size

bound_check_lem :
    (t : Table) (r : Region) (p size : ℕ)
    → IsHeld t r p
    → 0 < size
    → p + size < word
    → (bound_check t p size).1 ≡ leb (p + size) (end_of r)
unfolding bound_check
bound_check_lem t r p size h pos fits =
    let inside = h.inside in
    let below = h.fits in
    let some_size : (size == 0) ≡ false = ground arith in
    let offset : sub_word (p + size) p ≡ size = ground arith in
    let exact =
      ptr_add_exact t r p (p + size) (omega (arith, below)) h.at_head inside (omega arith) fits in
    let exact' : (ptr_add t p size).1
        ≡ (if in_bounds r (p + size) then p + size else invalid_pointer) =
      rw offset at exact in
    rw (some_size, exact') (ground arith)

bound_check_kept :
    (t : Table) (r : Region) (p size : ℕ) → IsHeld t r p → SameSlots t (bound_check t p size).0
unfolding bound_check ptr_add
bound_check_kept t r p size h q = elim (Bool-cases (size == 0)) [
  | inl e ↦ rw e refl
  | inr e ↦ rw e (lookup_kept t r p q h)
]

abbrev pub memory_of : Option (Table × Memory) → Option Memory
memory_of none = none
memory_of (some r) = some r.1

memory_cases :
    (a b c : Bool) (t : Table) (mem : Memory)
    → memory_of (if not a then none else if not b then none else if c then none else some (t, mem))
      ≡ (if a && (b && not c) then some mem else none)
memory_cases true true true t mem = refl
memory_cases true true false t mem = refl
memory_cases true false c t mem = refl
memory_cases false b c t mem = refl

-- Where the destination and the source are addresses of regions at the heads of their slots, which
-- end below the invalid pointer, a copy of one byte or more that does not wrap around is let
-- through exactly if both ranges end in their regions and the source does not begin in the
-- destination; a source that begins before the destination and reaches into it is not refused.
pub bound_memcpy_lem :
    (memcpy : Memory → (dst src size : ℕ) → Memory) (t : Table) (mem : Memory) (r1 r2 : Region)
    (dst src size : ℕ)
    → IsHeld t r1 dst
    → IsHeld t r2 src
    → 0 < size
    → dst + size < word
    → src + size < word
    → memory_of (bound_memcpy memcpy t mem dst src size) ≡ (
        if leb (dst + size) (end_of r1)
          && (leb (src + size) (end_of r2) && not (leb dst src && ltb src (dst + size)))
        then some (memcpy mem dst src size)
        else none)
unfolding bound_memcpy
bound_memcpy_lem memcpy t mem r1 r2 dst src size h1 h2 pos fits1 fits2 =
    let c1 = bound_check_lem t r1 dst size h1 pos fits1 in
    let t1 = (bound_check t dst size).0 in
    let held = IsHeld-SameSlots t t1 r2 src (bound_check_kept t r1 dst size h1) h2 in
    let c2 = bound_check_lem t1 r2 src size held pos fits2 in
    let sum : add_word dst size ≡ dst + size = omega arith in
    rw (c1, c2, sum)
      (memory_cases (leb (dst + size) (end_of r1)) (leb (src + size) (end_of r2))
        (leb dst src && ltb src (dst + size)) _ (memcpy mem dst src size))
