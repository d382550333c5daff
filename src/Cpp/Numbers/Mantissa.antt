-- ===== src/Cpp/Numbers/Mantissa.antt =====
-- The digits of a float that is not decimal (tccpp.c: bn_lshift, parse_number).
use native.Mathlib.Nat.{mul-suc, mul-zero}
use inherpreter.Prelude.Bits.{bit_or_below}
use inherpreter.Prelude.{
  ℕ, ◌+◌, ◌*◌, ◌/◌, ◌%◌, ◌^◌, ◌≤◌, ◌<◌, ◌≡◌, ap, ◌∙◌, false, List, [], ◌∷◌, ◌++◌, arith, leb, ◌==◌,
  length,
}
use inherpreter.Cpp.Numbers.{BigNum, bn_lshift, ok, head, digit_of, mantissa, fraction, shift_of}
use inherpreter.Cpp.Numbers.Digits.{
  Digit, positional, digit_char, text, AllBelow, digit_of-digit_char, buffered_digit-digit_char,
}

-- The value of the two words.
abbrev pub bn_value : BigNum → ℕ
bn_value bn = bn.low + bn.high * 2 ^ 32

abbrev pub Words : BigNum → Type 0
Words bn = (bn.low < 2 ^ 32) × (bn.high < 2 ^ 32)

pub data FloatBase : Type 0 where
  hexadecimal binary : FloatBase

abbrev pub float_base : FloatBase → ℕ
float_base hexadecimal = 16
float_base binary = 2

-- The base that the shifts of the code stand for: 4 bits a digit, or 2.
abbrev pub shifted_base : FloatBase → ℕ
shifted_base hexadecimal = 16
shifted_base binary = 4

bn_lshift_lem :
    (r : FloatBase) (bn : BigNum) (v : ℕ)
    → v < float_base r
    → Words bn
    → let bn' = bn_lshift bn (shift_of (float_base r)) v in
      Words bn' × (bn_value bn' ≡ (bn_value bn * shifted_base r + v) % 2 ^ 64)
unfolding bn_lshift
bn_lshift_lem hexadecimal bn v h (hl, hh) =
    let mask : (x : ℕ) → x * 2 ^ 4 % 2 ^ 32 ≡ x % 2 ^ 28 * 2 ^ 4 = λ x. omega arith in
    let carry = bn.low / 2 ^ 28 in
    rw
      (
        mask bn.low,
        mask bn.high,
        bit_or_below 4 (bn.low % 2 ^ 28) v (omega arith),
        bit_or_below 4 (bn.high % 2 ^ 28) carry (omega arith),
      )
      ((omega arith, omega arith), omega arith)
bn_lshift_lem binary bn v h (hl, hh) =
    let mask : (x : ℕ) → x * 2 ^ 2 % 2 ^ 32 ≡ x % 2 ^ 30 * 2 ^ 2 = λ x. omega arith in
    let carry = bn.low / 2 ^ 30 in
    rw
      (
        mask bn.low,
        mask bn.high,
        bit_or_below 2 (bn.low % 2 ^ 30) v (omega arith),
        bit_or_below 2 (bn.high % 2 ^ 30) carry (omega arith),
      )
      ((omega arith, omega arith), omega arith)

-- One digit more keeps the words within their 32 bits, and the value as a remainder.
abbrev pub Reads : FloatBase → BigNum → ℕ → Type 0
Reads r bn n = Words bn × (bn_value bn ≡ n % 2 ^ 64)

Reads-bn_lshift :
    (r : FloatBase) (bn : BigNum) (n v : ℕ)
    → v < float_base r
    → Reads r bn n
    → Reads r (bn_lshift bn (shift_of (float_base r)) v) (n * shifted_base r + v)
Reads-bn_lshift hexadecimal bn n v h (words, e) =
    let (words1, e1) = bn_lshift_lem hexadecimal bn v h words in (words1, e1 ∙ rw e (omega arith))
Reads-bn_lshift binary bn n v h (words, e) =
    let (words1, e1) = bn_lshift_lem binary bn v h words in (words1, e1 ∙ rw e (omega arith))

pub float_base_le : (r : FloatBase) → float_base r ≤ 16
float_base_le hexadecimal = omega arith
float_base_le binary = omega arith

pub Reads-mantissa :
    (r : FloatBase) (bn : BigNum) (n : ℕ) (ds : List Digit)
    → AllBelow (float_base r) ds
    → Reads r bn n
    → Reads r (mantissa (shift_of (float_base r)) bn (text ds)) (positional (shifted_base r) n ds)
unfolding mantissa
Reads-mantissa r bn n [] all h = h
Reads-mantissa r bn n (d ∷ ds) (lt, all) h =
    rw (mantissa, buffered_digit-digit_char d (omega (arith, float_base_le r)))
      (Reads-mantissa r (bn_lshift bn (shift_of (float_base r)) d.value)
        (n * shifted_base r + d.value) ds all (Reads-bn_lshift r bn n d.value lt h))

-- The fraction up to a character that is no digit.
pub fraction-text :
    (r : FloatBase) (bn : BigNum) (n bits : ℕ) (ds : List Digit) (rest : List ℕ)
    → AllBelow (float_base r) ds
    → digit_of (head rest) ≡ 255
    → Reads r bn n
    → (bn' : BigNum) × (fraction (float_base r) (shift_of (float_base r)) bn bits (text ds ++ rest)
        ≡ ok (bn', bits + shift_of (float_base r) * length ds, rest))
      × Reads r bn' (positional (shifted_base r) n ds)
unfolding fraction
fraction-text r bn n bits [] [] all stop h =
    (bn, rw (mul-zero (shift_of (float_base r))) (ap (λ k. ok (bn, k, [])) (omega arith)), h)
fraction-text r bn n bits [] (ch ∷ rest) all stop h =
    let stop' : digit_of ch ≡ 255 = stop in
    (
      bn,
      rw (fraction, stop')
          (ap (λ k. ok (bn, k, ch ∷ rest)) (omega (arith, mul-zero (shift_of (float_base r))))),
      h,
    )
fraction-text r bn n bits (d ∷ ds) rest (lt, all) stop h =
    let shift = shift_of (float_base r) in
    let (bn', e, reads) =
      fraction-text r (bn_lshift bn shift d.value) (n * shifted_base r + d.value) (bits + shift) ds
        rest all stop (Reads-bn_lshift r bn n d.value lt h) in
    let digit : digit_of (digit_char d) ≡ d.value =
      digit_of-digit_char d (omega (arith, float_base_le r)) in
    let not_end : (d.value == 255) ≡ false = ground (arith, float_base_le r) in
    let below : leb (float_base r) d.value ≡ false = ground arith in
    (
      bn',
      rw (digit, not_end, below)
          (e ∙ ap (λ k. ok (bn', k, rest)) (omega (arith, mul-suc shift (length ds)))),
      reads,
    )
