-- ===== src/Gen/Opic/Reduction.antt =====
-- Operations that are dropped, and multiplications and divisions that become shifts.
use native.Mathlib.Nat.{pow-suc}
use native.Mathlib.Decide.{dec_lt}
use inherpreter.Prelude.{
  ℕ, zero, suc, ◌+◌, ◌/◌, ◌^◌, ◌≤◌, ◌<◌, ◌≡◌, refl, ◌∙◌, true, false, arith, ltb, ◌==◌,
}
use inherpreter.Prelude.Bits.{pow_two_pos, bit_and_mask, bit_or-zero, bit_xor-zero, power_of_two}
use inherpreter.Gen.Opic.Word.{signed_quotient, shift_right}
use inherpreter.Gen.Opic.{
  Op, op_add, op_sub, op_and, op_xor, op_or, op_mul, op_pdiv, op_div, op_udiv, op_shl, op_shr,
  op_sar, value, fold_op, is_nop, count_shifts, is_power,
}

count_shifts-power : (fuel k n : ℕ) → k < fuel → count_shifts fuel (2 ^ k) n ≡ n + k
unfolding count_shifts
count_shifts-power zero k n h = absurd (omega arith)
count_shifts-power (suc fuel) zero n h = omega arith
count_shifts-power (suc fuel) (suc k) n h =
    let half : 2 ^ suc k / 2 ≡ 2 ^ k = omega (arith, pow-suc 2 k) in
    let more : (2 ^ k == 0) ≡ false = ground (arith, pow_two_pos k) in
    rw (half, more) (count_shifts-power fuel k (n + 1) (omega arith) ∙ omega arith)

pow_mono : (k m : ℕ) → k ≤ m → 2 ^ k ≤ 2 ^ m
pow_mono zero m h = pow_two_pos m
pow_mono (suc k) zero h = absurd (omega arith)
pow_mono (suc k) (suc m) h = omega (arith, pow-suc 2 k, pow-suc 2 m, pow_mono k m (omega arith))

below_pow : (k n : ℕ) → 2 ^ k < 2 ^ n → k < n
below_pow k n h = elim (dec_lt k n) [
  | yes lt ↦ lt
  | no ge ↦ absurd (omega (arith, pow_mono n k (omega arith)))
]

power_count : (fuel l2 k : ℕ) → l2 ≡ 2 ^ k → k < fuel → count_shifts fuel l2 0 ≡ k
power_count fuel l2 k e h = rw e (count_shifts-power fuel k 0 h ∙ omega arith)

exponent_lem :
    (fuel l2 k : ℕ)
    → l2 ≡ 2 ^ k
    → k < fuel
    → (l2 ≡ 2 ^ count_shifts fuel l2 0) × (count_shifts fuel l2 0 < fuel)
exponent_lem fuel l2 k e h = let count = power_count fuel l2 k e h in (rw count e, rw count h)

-- The test and the loop of gen_opic find the exponent of a power of two, which is below 64.
is_power-count_shifts :
    (l2 : ℕ) → is_power l2 ≡ true → (l2 ≡ 2 ^ count_shifts 64 l2 0) × (count_shifts 64 l2 0 < 64)
unfolding is_power
is_power-count_shifts l2 h =
    let p = power_of_two l2 l2 (omega arith) (ground arith) (ground arith) in
    exponent_lem 64 l2 p.0 p.1 (omega (arith, below_pow p.0 63 (rw (← p.1) (ground arith))))

-- Where gen_opic drops an operation with a constant, the operation would give its other operand, a
-- 64-bit pattern.
pub is_nop-fold_op :
    (op : Op) (x l2 : ℕ)
    → x < 2 ^ 64
    → l2 < 2 ^ 64
    → is_nop op l2 ≡ true
    → fold_op op x l2 ≡ value x
unfolding is_nop fold_op signed_quotient shift_right
is_nop-fold_op op_mul x l2 hx hl h = ground arith
is_nop-fold_op op_div x l2 hx hl h = let e : l2 ≡ 1 = ground arith in rw e (ground arith)
is_nop-fold_op op_udiv x l2 hx hl h = ground arith
is_nop-fold_op op_pdiv x l2 hx hl h = let e : l2 ≡ 1 = ground arith in rw e (ground arith)
is_nop-fold_op op_add x l2 hx hl h = ground arith
is_nop-fold_op op_sub x l2 hx hl h = ground arith
is_nop-fold_op op_or x l2 hx hl h = ground (arith, bit_or-zero x)
is_nop-fold_op op_xor x l2 hx hl h = ground (arith, bit_xor-zero x)
is_nop-fold_op op_shl x l2 hx hl h = let e : l2 ≡ 0 = ground arith in rw e (ground arith)
is_nop-fold_op op_shr x l2 hx hl h = let e : l2 ≡ 0 = ground arith in rw e (ground arith)
is_nop-fold_op op_sar x l2 hx hl h = let e : l2 ≡ 0 = ground arith in rw e (ground arith)
is_nop-fold_op op_and x l2 hx hl h = ground (arith, bit_and_mask 64 x hx)
is_nop-fold_op _ x l2 hx hl h = cc

-- On 64-bit patterns, the shift that gen_opic puts for a multiplication or an unsigned division by
-- a power of two gives the same value.
pub shift_op-fold_op :
    (x l2 : ℕ)
    → x < 2 ^ 64
    → is_power l2 ≡ true
    → let n = count_shifts 64 l2 0 in
      (fold_op op_shl x n ≡ fold_op op_mul x l2) × (fold_op op_shr x n ≡ fold_op op_udiv x l2)
unfolding fold_op
shift_op-fold_op x l2 hx h =
    let (p, lt) = is_power-count_shifts l2 h in
    let n = count_shifts 64 l2 0 in
    let pos : (l2 == 0) ≡ false = ground (arith, pow_two_pos n, p) in
    let in_range : ltb n 64 ≡ true = ground arith in rw (pos, in_range, ← p) (refl, refl)
