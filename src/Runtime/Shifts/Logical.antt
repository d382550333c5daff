-- ===== src/Runtime/Shifts/Logical.antt =====
-- The words of a shifted number, where a word is shifted by `b` bits, with 2 ^ b as `p` and
-- 2 ^ (32 - b) as `q`.
use native.Mathlib.Nat.{
  pow-suc, mul_assoc, mul_comm, div-lt_iff_lt-mul, add-mul-div_right, div-add-mod, mod-lt,
  mod-eq_of_lt, add-mul-mod_self_right, mul-lt-mul_of_pos_right, mul-one, div-eq_of_lt, add-mul,
  mul-le-mul_right,
}
use inherpreter.Prelude.{
  ℕ, zero, suc, ◌+◌, ◌-◌, ◌*◌, ◌/◌, ◌%◌, ◌^◌, ◌≤◌, ◌<◌, bit_or, ◌≡◌, refl, sym, ap, ◌∙◌, arith,
}
use inherpreter.Prelude.Bits.{bit_or-zero, zero-bit_or, bit_or_halves}

pub pow-add : (m n : ℕ) → 2 ^ (m + n) ≡ 2 ^ m * 2 ^ n
pow-add m zero = let none_more : m + 0 ≡ m = omega arith in rw (none_more, mul-one (2 ^ m)) refl
pow-add m (suc n) =
    let next : m + suc n ≡ suc (m + n) = omega arith in
    rw (next, pow-suc 2 (m + n), pow-add m n, pow-suc 2 n) (mul_assoc (2 ^ m) (2 ^ n) 2)

or_comm_below : (n a b : ℕ) → a ≤ n → bit_or a b ≡ bit_or b a
or_comm_below n zero b le = zero-bit_or b ∙ sym (bit_or-zero b)
or_comm_below zero (suc a) b le = absurd (omega arith)
or_comm_below (suc n) (suc a) b le = omega (
  arith,
  bit_or_halves (suc a) b,
  bit_or_halves b (suc a),
  or_comm_below n (suc a / 2) (b / 2) (omega arith),
)

pub bit_or_comm : (a b : ℕ) → bit_or a b ≡ bit_or b a
bit_or_comm a b = or_comm_below a a b (omega arith)

module _ (p q : ℕ) (p_pos : 0 < p) (q_pos : 0 < q) where
  parts_of : (h : ℕ) → h ≡ h % p + h / p * p
  parts_of h = omega (arith, div-add-mod h p, mul_comm p (h / p))

  -- The part that stays in the word, and the part that leaves it.
  pub split_mul : (h : ℕ) → h * q ≡ h % p * q + h / p * (p * q)
  split_mul h =
      ap (λ (t : ℕ). t * q) (parts_of h)
      ∙ add-mul (h % p) (h / p * p) q
      ∙ rw (mul_assoc (h / p) p q) refl

  pub mod-mul_lt : (h : ℕ) → h % p * q < p * q
  mod-mul_lt h = mul-lt-mul_of_pos_right (mod-lt h p_pos) q_pos

  pub mod-mul_le : (h : ℕ) → h % p * q + q ≤ p * q
  mod-mul_le h =
      let le = mul-le-mul_right {m = h % p + 1} {n = p} q (omega (arith, mod-lt h p_pos)) in
      omega (arith, add-mul (h % p) 1 q)

  pub mul-mod_lem : (h : ℕ) → h * q % (p * q) ≡ h % p * q
  mul-mod_lem h =
      rw (split_mul h, add-mul-mod_self_right (h % p * q) (h / p) (p * q))
        (mod-eq_of_lt (mod-mul_lt h))

  pub div-below : (l : ℕ) → l < p * q → l / p < q
  div-below l lt = (div-lt_iff_lt-mul p_pos).1 (rw (mul_comm q p) lt)

  -- A complement by its parts.
  complement_parts : (l : ℕ) → l < p * q → p * q - 1 - l ≡ (p - 1 - l % p) + (q - 1 - l / p) * p
  complement_parts l lt =
      let k = l / p in
      let c = q - 1 - k in
      let below = div-below l lt in
      let whole : q ≡ c + (k + 1) = omega arith in
      let product : p * q ≡ c * p + (k * p + 1 * p) =
        mul_comm p q
        ∙ ap (λ (t : ℕ). t * p) whole
        ∙ add-mul c (k + 1) p
        ∙ rw (add-mul k 1 p) refl in
      omega (arith, product, parts_of l, mod-lt l p_pos)

  pub div-complement : (l : ℕ) → l < p * q → (p * q - 1 - l) / p ≡ q - 1 - l / p
  div-complement l lt =
      let small : p - 1 - l % p < p = omega arith in
      rw (complement_parts l lt, add-mul-div_right (p - 1 - l % p) (q - 1 - l / p) p_pos)
        (omega (arith, div-eq_of_lt small))

  pub mod-complement : (h : ℕ) → h < p * q → (p * q - 1 - h) % p ≡ p - 1 - h % p
  mod-complement h lt =
      let small : p - 1 - h % p < p = omega arith in
      rw (complement_parts h lt, add-mul-mod_self_right (p - 1 - h % p) (q - 1 - h / p) p)
        (mod-eq_of_lt small)
