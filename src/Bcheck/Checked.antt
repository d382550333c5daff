-- ===== src/Bcheck/Checked.antt =====
-- The checked functions of strings and memory (lib/bcheck.c: __bound_check, __bound_memcpy,
-- __bound_memmove, __bound_memset, __bound_strlen, __bound_strcpy). The functions of the C library that
-- they call are parameters on a memory of bytes; bound_error is `none`.
pub mod Exact
pub mod Lengths
use inherpreter.Prelude.{
  ℕ, zero, suc, ◌+◌, ◌^◌, Bool, true, not, ◌&&◌, Option, none, some, ltb, leb, ◌==◌, if◌then◌else◌,
}
use inherpreter.Bcheck.Slot.{add_word}
use inherpreter.Bcheck.Table.{Table, invalid_pointer, ptr_add, ptr_indir}

abbrev pub Memory : Type 0
Memory = ℕ → ℕ

unfoldable pub bound_check : Table → (p size : ℕ) → Table × Bool
unfolding ptr_add
bound_check t p size =
    let (t', q) = ptr_add t p size in
    if size == 0 then (t, true) else (t', not (q == invalid_pointer))

-- Overlapping regions are an error where the source begins in the destination.
unfoldable pub bound_memcpy :
    (memcpy : Memory → (dst src size : ℕ) → Memory)
    → Table
    → Memory
    → (dst src size : ℕ) → Option (Table × Memory)
unfolding bound_check
bound_memcpy memcpy t mem dst src size =
    let (t1, dst_ok) = bound_check t dst size in
    let (t2, src_ok) = bound_check t1 src size in
    if not dst_ok
    then none
    else if not src_ok
    then none
    else if leb dst src && ltb src (add_word dst size)
    then none
    else some (t2, memcpy mem dst src size)

unfoldable pub bound_memmove :
    (memmove : Memory → (dst src size : ℕ) → Memory)
    → Table
    → Memory
    → (dst src size : ℕ) → Option (Table × Memory)
unfolding bound_check
bound_memmove memmove t mem dst src size =
    let (t1, dst_ok) = bound_check t dst size in
    let (t2, src_ok) = bound_check t1 src size in
    if not dst_ok then none else if not src_ok then none else some (t2, memmove mem dst src size)

unfoldable pub bound_memset :
    (memset : Memory → (dst c size : ℕ) → Memory)
    → Table
    → Memory
    → (dst c size : ℕ) → Option (Table × Memory)
unfolding bound_check
bound_memset memset t mem dst c size =
    let (t1, dst_ok) = bound_check t dst size in
    if not dst_ok then none else some (t1, memset mem dst c size)

-- The loop, on fuel.
unfoldable pub strlen_from : (fuel : ℕ) → Table → Memory → (s len : ℕ) → Option (Table × ℕ)
unfolding ptr_indir
strlen_from zero t mem s len = none
strlen_from (suc fuel) t mem s len =
    let (t', p) = ptr_indir 1 t s len in
    let more = strlen_from fuel t' mem s (len + 1) in
    if p == invalid_pointer then none else if mem p == 0 then some (t', len) else more

-- A length is an int.
unfoldable pub bound_strlen : Table → Memory → (s : ℕ) → Option (Table × ℕ)
unfolding strlen_from
bound_strlen t mem s = strlen_from (2 ^ 31) t mem s 0

unfoldable pub bound_strcpy :
    (memcpy : Memory → (dst src size : ℕ) → Memory)
    → Table
    → Memory
    → (dst src : ℕ) → Option (Table × Memory)
unfolding bound_strlen bound_memcpy
bound_strcpy memcpy t mem dst src = elim (bound_strlen t mem src) [
  | none ↦ none
  | some (t', len) ↦ bound_memcpy memcpy t' mem dst src (len + 1)
]
