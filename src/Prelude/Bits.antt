-- ===== src/Prelude/Bits.antt =====
-- The bit operations at variables, from the recursion on the digits.
use Prim.Native.Nat.{
  ℕ, zero, suc, ◌+◌, ◌-◌, ◌*◌, ◌/◌, ◌%◌, ◌^◌, ◌≤◌, ◌<◌, min, digits, differ, bit_and, bit_or,
  bit_xor, bit_and-bitwise, bit_or-bitwise, bit_xor-bitwise, max,
}
use mathlib.Core.Path.{◌≡◌, refl, sym, ap, ◌∙◌}
use native.Mathlib.Nat.{pow-suc, mul_assoc}
use native.Mathlib.Decide.{dec_lt}
use native.Mathlib.Omega.{arith}

module _ (z : ℕ → ℕ) (f : ℕ → ℕ → ℕ) where
  -- Any count of digits from the first number on gives the same result.
  digits_count : (n m a b : ℕ) → a ≤ n → a ≤ m → digits z f n a b ≡ digits z f m a b
  digits_count zero zero a b p q = refl
  digits_count zero (suc m) zero b p q = refl
  digits_count (suc n) zero zero b p q = refl
  digits_count (suc n) (suc m) zero b p q = refl
  digits_count zero m (suc a) b p q = absurd (omega arith)
  digits_count (suc n) zero (suc a) b p q = absurd (omega arith)
  digits_count (suc n) (suc m) (suc a) b p q =
      ap (λ d. d * 2 + f (suc a % 2) (b % 2))
        (digits_count n m (suc a / 2) (b / 2) (omega arith) (omega arith))

  -- The lowest digits apart.
  digits_step :
      (a b : ℕ)
      → 0 < a
      → digits z f a a b ≡ digits z f (a / 2) (a / 2) (b / 2) * 2 + f (a % 2) (b % 2)
  digits_step zero b h = absurd (omega arith)
  digits_step (suc a) b h =
      ap (λ d. d * 2 + f (suc a % 2) (b % 2))
        (digits_count a (suc a / 2) (suc a / 2) (b / 2) (omega arith) (omega arith))

pub zero-bit_and : (b : ℕ) → bit_and 0 b ≡ 0
zero-bit_and b = bit_and-bitwise 0 b

pub bit_and_halves : (a b : ℕ) → bit_and a b ≡ bit_and (a / 2) (b / 2) * 2 + min (a % 2) (b % 2)
bit_and_halves zero b = omega (arith, zero-bit_and b, zero-bit_and (b / 2))
bit_and_halves (suc a) b = omega (
  arith,
  bit_and-bitwise (suc a) b,
  bit_and-bitwise (suc a / 2) (b / 2),
  digits_step (λ b. zero) min (suc a) b (omega arith),
)

and_self_below : (n a : ℕ) → a ≤ n → bit_and a a ≡ a
and_self_below n zero h = zero-bit_and 0
and_self_below zero (suc a) h = absurd (omega arith)
and_self_below (suc n) (suc a) h =
    omega (arith, bit_and_halves (suc a) (suc a), and_self_below n (suc a / 2) (omega arith))

pub bit_and_self : (a : ℕ) → bit_and a a ≡ a
bit_and_self a = and_self_below a a (omega arith)

and_zero_below : (n a : ℕ) → a ≤ n → bit_and a 0 ≡ 0
and_zero_below n zero h = zero-bit_and 0
and_zero_below zero (suc a) h = absurd (omega arith)
and_zero_below (suc n) (suc a) h =
    omega (arith, bit_and_halves (suc a) 0, and_zero_below n (suc a / 2) (omega arith))

pub bit_and-zero : (a : ℕ) → bit_and a 0 ≡ 0
bit_and-zero a = and_zero_below a a (omega arith)

pub pow_two_pos : (k : ℕ) → 0 < 2 ^ k
pow_two_pos zero = omega arith
pow_two_pos (suc k) = omega (arith, pow-suc 2 k, pow_two_pos k)

-- A mask of `k` ones keeps the `k` lowest digits.
pub bit_and_mask : (k a : ℕ) → a < 2 ^ k → bit_and a (2 ^ k - 1) ≡ a
bit_and_mask zero zero h = zero-bit_and 0
bit_and_mask zero (suc a) h = absurd (omega arith)
bit_and_mask (suc k) a h =
    let p = 2 ^ k in
    let double : 2 ^ suc k ≡ p * 2 = pow-suc 2 k in
    let half : (p * 2 - 1) / 2 ≡ p - 1 = omega (arith, pow_two_pos k) in
    let low : (p * 2 - 1) % 2 ≡ 1 = omega (arith, pow_two_pos k) in
    let ih = bit_and_mask k (a / 2) (omega (arith, double)) in
    rw double (bit_and_halves a (p * 2 - 1) ∙ rw (half, low, ih) (omega arith))

or_zero_below : (n a : ℕ) → a ≤ n → bit_or a 0 ≡ a
or_zero_below n zero h = bit_or-bitwise 0 0
or_zero_below zero (suc a) h = absurd (omega arith)
or_zero_below (suc n) (suc a) h = omega (
  arith,
  bit_or-bitwise (suc a) 0,
  bit_or-bitwise (suc a / 2) 0,
  digits_step (λ b. b) max (suc a) 0 (omega arith),
  or_zero_below n (suc a / 2) (omega arith),
)

pub bit_or-zero : (a : ℕ) → bit_or a 0 ≡ a
bit_or-zero a = or_zero_below a a (omega arith)

pub zero-bit_or : (b : ℕ) → bit_or 0 b ≡ b
zero-bit_or b = bit_or-bitwise 0 b

pub bit_or_halves : (a b : ℕ) → bit_or a b ≡ bit_or (a / 2) (b / 2) * 2 + max (a % 2) (b % 2)
bit_or_halves zero b = omega (arith, zero-bit_or b, zero-bit_or (b / 2))
bit_or_halves (suc a) b = omega (
  arith,
  bit_or-bitwise (suc a) b,
  bit_or-bitwise (suc a / 2) (b / 2),
  digits_step (λ b. b) max (suc a) b (omega arith),
)

-- Digits that are put into the empty lowest places are added.
pub bit_or_below : (s a v : ℕ) → v < 2 ^ s → bit_or (a * 2 ^ s) v ≡ a * 2 ^ s + v
bit_or_below zero a v h =
    let e : v ≡ 0 = omega arith in rw e (bit_or-zero (a * 2 ^ 0) ∙ omega arith)
bit_or_below (suc s) a v h =
    let double : 2 ^ suc s ≡ 2 ^ s * 2 = pow-suc 2 s in
    let split : a * 2 ^ suc s ≡ a * 2 ^ s * 2 = rw double (sym (mul_assoc a (2 ^ s) 2)) in
    let half : (a * 2 ^ s * 2) / 2 ≡ a * 2 ^ s = omega arith in
    let ih = bit_or_below s a (v / 2) (omega (arith, double)) in
    rw split (bit_or_halves (a * 2 ^ s * 2) v ∙ rw (half, ih) (omega arith))

differ-zero : (x : ℕ) → differ x 0 ≡ x
differ-zero zero = refl
differ-zero (suc x) = refl

xor_zero_below : (n a : ℕ) → a ≤ n → bit_xor a 0 ≡ a
xor_zero_below n zero h = bit_xor-bitwise 0 0
xor_zero_below zero (suc a) h = absurd (omega arith)
xor_zero_below (suc n) (suc a) h = omega (
  arith,
  bit_xor-bitwise (suc a) 0,
  bit_xor-bitwise (suc a / 2) 0,
  digits_step (λ b. b) differ (suc a) 0 (omega arith),
  xor_zero_below n (suc a / 2) (omega arith),
  differ-zero (suc a % 2),
)

pub bit_xor-zero : (a : ℕ) → bit_xor a 0 ≡ a
bit_xor-zero a = xor_zero_below a a (omega arith)

-- A number that has no digit in common with its predecessor is a power of two.
pub power_of_two : (n a : ℕ) → a ≤ n → 0 < a → bit_and a (a - 1) ≡ 0 → (k : ℕ) × (a ≡ 2 ^ k)
power_of_two n zero h pos e = absurd (omega arith)
power_of_two zero (suc a) h pos e = absurd (omega arith)
power_of_two (suc n) (suc a) h pos e = elim (dec_lt 0 (suc a % 2)) [
  | yes odd ↦
      let same : suc a / 2 ≡ (suc a - 1) / 2 = omega arith in
      (
        0,
        omega (
          arith,
          bit_and_halves (suc a) (suc a - 1),
          ap (bit_and (suc a / 2)) same,
          bit_and_self (suc a / 2),
        ),
      )
  | no even ↦
      let below : (suc a - 1) / 2 ≡ suc a / 2 - 1 = omega arith in
      let (k, p) =
        power_of_two n (suc a / 2) (omega arith) (omega arith)
          (omega (arith, bit_and_halves (suc a) (suc a - 1), ap (bit_and (suc a / 2)) below)) in
      (suc k, omega (arith, p, pow-suc 2 k))
]
