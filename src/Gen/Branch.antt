-- ===== src/Gen/Branch.antt =====
-- Branches of ARM code (arm-gen.c: encbranch, decbranch), which hold their distance in words of 4
-- bytes, in 24 bits.
use inherpreter.Prelude.Bits.{bit_or_below}
use inherpreter.Prelude.{
  ℕ, ◌+◌, ◌-◌, ◌*◌, ◌/◌, ◌%◌, ◌^◌, ◌≤◌, ◌<◌, bit_or, ◌≡◌, refl, ◌≢◌, ◌⊎◌, inl, inr, true, false,
  Option, none, some, arith, ltb, leb, if◌then◌else◌,
}

-- A distance as an int that was divided by 4, towards 0.
pub data Distance : Type 0 where
  forward backward : ℕ → Distance

abbrev pub distance : (pos addr : ℕ) → Distance
distance pos addr =
    if leb (pos + 8) addr then forward ((addr - (pos + 8)) / 4) else backward ((pos + 8 - addr) / 4)

-- `none` is the error "function bigger than 32MB", or 0 without `fail`.
unfoldable pub encode : Distance → Option ℕ
encode (forward k) = if leb 0x1000000 k then none else some (bit_or 0x0A000000 (k % 2 ^ 24))
encode (backward k) =
    if ltb 0x1000000 k then none else some (bit_or 0x0A000000 ((2 ^ 24 - k % 2 ^ 24) % 2 ^ 24))

unfoldable pub encbranch : (pos addr : ℕ) → Option ℕ
unfolding encode
encbranch pos addr = encode (distance pos addr)

-- The address as a pattern of 32 bits, from the branch `x` at `pos`.
unfoldable pub decbranch : (pos x : ℕ) → ℕ
decbranch pos x =
    let d = x % 2 ^ 24 in
    if leb 0x800000 d
    then (pos + 8 + d * 4 + 2 ^ 32 - 0x1000000 * 4) % 2 ^ 32
    else (pos + 8 + d * 4) % 2 ^ 32

branch_word : (v : ℕ) → v < 2 ^ 24 → bit_or 0x0A000000 v % 2 ^ 24 ≡ v
branch_word v h =
    let e : bit_or (10 * 2 ^ 24) v ≡ 10 * 2 ^ 24 + v = bit_or_below 24 10 v h in rw e (omega arith)

encbranch_forward :
    (pos addr k : ℕ)
    → addr ≡ pos + 8 + k * 4
    → k < 0x1000000
    → encbranch pos addr ≡ some (bit_or 0x0A000000 (k % 2 ^ 24))
unfolding encbranch
encbranch_forward pos addr k e h =
    let ahead : leb (pos + 8) addr ≡ true = ground arith in
    let words : (addr - (pos + 8)) / 4 ≡ k = omega arith in
    let small : leb 0x1000000 k ≡ false = ground arith in rw (ahead, words, small) refl

encbranch_backward :
    (pos addr k : ℕ)
    → addr + k * 4 ≡ pos + 8
    → 0 < k
    → k ≤ 0x1000000
    → encbranch pos addr ≡ some (bit_or 0x0A000000 ((2 ^ 24 - k % 2 ^ 24) % 2 ^ 24))
unfolding encbranch
encbranch_backward pos addr k e pos_k h =
    let behind : leb (pos + 8) addr ≡ false = ground arith in
    let words : (pos + 8 - addr) / 4 ≡ k = omega arith in
    let small : ltb 0x1000000 k ≡ false = ground arith in rw (behind, words, small) refl

-- The addresses that a branch at `pos` reaches: a multiple of 4 away, less than 32 MB ahead or at
-- most 32 MB behind.
abbrev pub Reaches : (pos addr : ℕ) → Type 0
Reaches pos addr =
    ((k : ℕ) × (addr ≡ pos + 8 + k * 4) × (k < 0x800000))
    ⊎ ((k : ℕ) × (addr + k * 4 ≡ pos + 8) × (0 < k) × (k ≤ 0x800000))

-- A branch to an address that it reaches is encoded, and is decoded to that address.
pub decbranch-encbranch :
    (pos addr : ℕ)
    → addr < 2 ^ 32
    → Reaches pos addr
    → (x : ℕ) × (encbranch pos addr ≡ some x) × (decbranch pos x ≡ addr)
unfolding decbranch
decbranch-encbranch pos addr h (inl (k, e, small)) =
    let word = branch_word (k % 2 ^ 24) (omega arith) in
    let low : leb 0x800000 (k % 2 ^ 24) ≡ false = ground arith in
    (_, encbranch_forward pos addr k e (omega arith), rw (word, low) (omega arith))
decbranch-encbranch pos addr h (inr (k, e, pos_k, small)) =
    let word = branch_word ((2 ^ 24 - k % 2 ^ 24) % 2 ^ 24) (omega arith) in
    let high : leb 0x800000 ((2 ^ 24 - k % 2 ^ 24) % 2 ^ 24) ≡ true = ground arith in
    (_, encbranch_backward pos addr k e pos_k (omega arith), rw (word, high) (omega arith))

-- A branch to an address from 32 MB to 64 MB ahead passes the test of the range, but is decoded to
-- another address, 64 MB before it.
pub encbranch_wrapped :
    (pos addr k : ℕ)
    → addr < 2 ^ 32
    → addr ≡ pos + 8 + k * 4
    → 0x800000 ≤ k
    → k < 0x1000000
    → (x : ℕ) × (encbranch pos addr ≡ some x)
      × ((decbranch pos x + 0x4000000) % 2 ^ 32 ≡ addr)
      × (decbranch pos x ≢ addr)
unfolding decbranch
encbranch_wrapped pos addr k h e far small =
    let word = branch_word (k % 2 ^ 24) (omega arith) in
    let high : leb 0x800000 (k % 2 ^ 24) ≡ true = ground arith in
    (
      _,
      encbranch_forward pos addr k e small,
      rw (word, high) (omega arith),
      rw (word, high) (λ same. absurd (omega arith)),
    )
