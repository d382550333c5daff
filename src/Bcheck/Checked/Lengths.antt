-- ===== src/Bcheck/Checked/Lengths.antt =====
-- The length of a string, within its region.
use inherpreter.Prelude.{
  ℕ, zero, suc, ◌+◌, ◌^◌, ◌≤◌, ◌<◌, ◌≡◌, refl, ap, ◌∙◌, ◌≢◌, inl, inr, true, false, Option, none,
  some, arith, ltb, leb, ◌==◌, if◌then◌else◌, Bool-cases,
}
use inherpreter.Bcheck.Slot.{word, sub_word, Region}
use inherpreter.Bcheck.Table.{Table, invalid_pointer, ptr_indir}
use inherpreter.Bcheck.Table.Checks.{ptr_indir_exact}
use inherpreter.Bcheck.Checked.{Memory, strlen_from, bound_strlen}
use inherpreter.Bcheck.Checked.Exact.{IsHeld, lookup_kept, SameSlots, IsHeld-SameSlots, end_of}

abbrev pub length_of : Option (Table × ℕ) → Option ℕ
length_of none = none
length_of (some r) = some r.1

indir_lem :
    (t : Table) (r : Region) (s len : ℕ)
    → IsHeld t r s
    → s + len + 1 < word
    → (ptr_indir 1 t s len).1 ≡ (if leb (s + len + 1) (end_of r) then s + len else invalid_pointer)
indir_lem t r s len h fits =
    let inside = h.inside in
    let below = h.fits in
    let offset : sub_word (s + len) s ≡ len = ground arith in
    let from : r.start ≤ s + len = ground arith in
    let exact =
      ptr_indir_exact 1 t r s (s + len) (omega (arith, below)) h.at_head inside (omega arith) fits
        from in
    rw offset at exact

indir_kept :
    (t : Table) (r : Region) (s len : ℕ) → IsHeld t r s → SameSlots t (ptr_indir 1 t s len).0
unfolding ptr_indir
indir_kept t r s len h q = lookup_kept t r s q h

-- The string's first 0 is its byte `n`.
abbrev pub EndsAt : Memory → (s n : ℕ) → Type 0
EndsAt mem s n = (mem (s + n) ≡ 0) × ((k : ℕ) → k < n → mem (s + k) ≢ 0)

strlen_step :
    (fuel : ℕ) (t : Table) (mem : Memory) (s len p : ℕ)
    → (ptr_indir 1 t s len).1 ≡ p
    → strlen_from (suc fuel) t mem s len ≡ (
        if p == invalid_pointer
        then none
        else if mem p == 0
        then some ((ptr_indir 1 t s len).0, len)
        else strlen_from fuel (ptr_indir 1 t s len).0 mem s (len + 1))
unfolding strlen_from
strlen_step fuel t mem s len p e = rw e refl

strlen_from_lem :
    (fuel : ℕ) (t : Table) (mem : Memory) (r : Region) (s len n : ℕ)
    → IsHeld t r s
    → EndsAt mem s n
    → len ≤ n
    → n < len + fuel
    → s + n + 1 < word
    → length_of (strlen_from fuel t mem s len) ≡ (if ltb (s + n) (end_of r) then some n else none)
strlen_from_lem zero t mem r s len n h ends le enough fits = absurd (omega arith)
strlen_from_lem (suc fuel) t mem r s len n h (null, others) le enough fits =
    let below = h.fits in
    let t' = (ptr_indir 1 t s len).0 in
    let held = IsHeld-SameSlots t t' r s (indir_kept t r s len h) h in
    elim (Bool-cases (leb (s + len + 1) (end_of r))) [
      | inl within ↦
          let p : (ptr_indir 1 t s len).1 ≡ s + len =
            indir_lem t r s len h (omega arith) ∙ rw within refl in
          let valid : (s + len == invalid_pointer) ≡ false = ground arith in
          rw (strlen_step fuel t mem s len (s + len) p, valid)
            (elim (Bool-cases (len == n)) [
              | inl here ↦
                  let same : len ≡ n = ground arith in
                  let zero : (mem (s + len) == 0) ≡ true = rw (same, null) refl in
                  let inner : ltb (s + n) (end_of r) ≡ true = ground arith in
                  rw (zero, inner) (ap some same)
              | inr later ↦
                  let differs = others len (ground arith) in
                  let more : (mem (s + len) == 0) ≡ false = ground arith in
                  rw more (
                    strlen_from_lem fuel t' mem r s (len + 1) n held (null, others) (ground arith)
                      (omega arith) fits)
            ])
      | inr outside ↦
          let p : (ptr_indir 1 t s len).1 ≡ invalid_pointer =
            indir_lem t r s len h (omega arith) ∙ rw outside refl in
          let past : ltb (s + n) (end_of r) ≡ false = ground arith in
          rw (strlen_step fuel t mem s len invalid_pointer p, past) refl
    ]

-- For a string whose first 0 is its byte `n`, below 2 ^ 31, and that does not wrap around, at an
-- address of a region that is at the head of its slot and ends below the invalid pointer, the
-- checked length is `n` if the 0 lies in the region, and an error otherwise.
pub bound_strlen_lem :
    (t : Table) (mem : Memory) (r : Region) (s n : ℕ)
    → IsHeld t r s
    → EndsAt mem s n
    → n < 2 ^ 31
    → s + n + 1 < word
    → length_of (bound_strlen t mem s) ≡ (if ltb (s + n) (end_of r) then some n else none)
unfolding bound_strlen
bound_strlen_lem t mem r s n h ends small fits =
    strlen_from_lem (2 ^ 31) t mem r s 0 n h ends (omega arith) (omega arith) fits
