-- ===== src/Runtime/Shifts/Words.antt =====
-- The shifts of both words by less than a word against those of the whole number.
use native.Mathlib.Nat.{
  mul_assoc, mul_comm, add-mul, add-mul-div_right, mul_right_comm, mod-lt, div-le_self,
}
use inherpreter.Prelude.{
  ℕ, ◌+◌, ◌-◌, ◌*◌, ◌/◌, ◌%◌, ◌^◌, ◌≤◌, ◌<◌, bit_or, ◌≡◌, sym, ap, ◌∙◌, arith,
}
use inherpreter.Prelude.Bits.{pow_two_pos, bit_or_below}
use inherpreter.Runtime.Shifts.{DWunion, shl32, shr32, low_shifted}
use inherpreter.Runtime.Shifts.Logical.{
  pow-add, bit_or_comm, split_mul, mod-mul_lt, mod-mul_le, mul-mod_lem, div-below, div-complement,
  mod-complement,
}

-- Shifts by less than a word, and not by 0.
module _ (b : ℕ) (b_pos : 0 < b) (b_lt : b < 32) where
  unfoldable pub p : ℕ
  p = 2 ^ b

  unfoldable pub q : ℕ
  q = 2 ^ (32 - b)

  pq : p * q ≡ 2 ^ 32
  unfolding p q
  pq = let e : b + (32 - b) ≡ 32 = omega arith in sym (pow-add b (32 - b)) ∙ ap (λ (t : ℕ). 2 ^ t) e

  p_pos : 0 < p
  unfolding p
  p_pos = pow_two_pos b

  q_pos : 0 < q
  unfolding q
  q_pos = pow_two_pos (32 - b)

  pub low_shifted_lem :
      (u : DWunion) → u.low < 2 ^ 32 → low_shifted u b ≡ u.low / p + u.high % p * q
  unfolding p q
  low_shifted_lem u lt =
      let small : u.low / p < q = div-below p q p_pos q_pos u.low (rw pq lt) in
      let high : u.high * q % 2 ^ 32 ≡ u.high % p * q =
        rw (← pq) (mul-mod_lem p q p_pos q_pos u.high) in
      ap (λ (t : ℕ). bit_or (u.low / p) t) high
      ∙ bit_or_comm (u.low / p) (u.high % p * q)
      ∙ bit_or_below (32 - b) (u.high % p) (u.low / p) small
      ∙ omega arith

  pub lshr_lem :
      (u : DWunion)
      → u.low < 2 ^ 32
      → u.low / p + u.high % p * q + u.high / p * 2 ^ 32 ≡ (u.low + u.high * 2 ^ 32) / p
  lshr_lem u lt =
      let grouped : u.high * 2 ^ 32 ≡ u.high * q * p =
        ap (λ (t : ℕ). u.high * t) (sym pq ∙ mul_comm p q) ∙ sym (mul_assoc u.high q p) in
      let right : (u.low + u.high * 2 ^ 32) / p ≡ u.low / p + u.high * q =
        ap (λ (t : ℕ). (u.low + t) / p) grouped ∙ add-mul-div_right u.low (u.high * q) p_pos in
      let split : u.high * q ≡ u.high % p * q + u.high / p * 2 ^ 32 =
        split_mul p q p_pos q_pos u.high ∙ ap (λ (t : ℕ). u.high % p * q + u.high / p * t) pq in
      omega (arith, right, split)

  qp : q * p ≡ 2 ^ 32
  qp = mul_comm q p ∙ pq

  pub high_shifted_lem :
      (u : DWunion)
      → u.low < 2 ^ 32
      → bit_or (shl32 u.high b) (shr32 u.low (32 - b)) ≡ u.high % q * p + u.low / q
  unfolding p q
  high_shifted_lem u lt =
      let small : u.low / q < p = div-below q p q_pos p_pos u.low (rw qp lt) in
      let high : u.high * p % 2 ^ 32 ≡ u.high % q * p =
        rw (← qp) (mul-mod_lem q p q_pos p_pos u.high) in
      ap (λ (t : ℕ). bit_or t (u.low / q)) high ∙ bit_or_below b (u.high % q) (u.low / q) small

  split_low : (w : ℕ) → w * p ≡ w % q * p + w / q * 2 ^ 32
  split_low w = split_mul q p q_pos p_pos w ∙ ap (λ (t : ℕ). w % q * p + w / q * t) qp

  shifted_product : (u : DWunion) → (u.low + u.high * 2 ^ 32) * p ≡ u.low * p + u.high * p * 2 ^ 32
  shifted_product u =
      add-mul u.low (u.high * 2 ^ 32) p
      ∙ ap (λ (t : ℕ). u.low * p + t) (mul_right_comm u.high (2 ^ 32) p)

  pub ashl_lem :
      (u : DWunion)
      → u.low < 2 ^ 32
      → u.low * p % 2 ^ 32 + (u.high % q * p + u.low / q) * 2 ^ 32
        ≡ (u.low + u.high * 2 ^ 32) * p % 2 ^ 64
  ashl_lem u lt =
      let small : u.low / q < p = div-below q p q_pos p_pos u.low (rw qp lt) in
      let room : u.high % q * p + p ≤ 2 ^ 32 = rw (← qp) (mod-mul_le q p q_pos p_pos u.high) in
      let below : u.low % q * p < 2 ^ 32 = rw (← qp) (mod-mul_lt q p q_pos p_pos u.low) in
      omega (arith, split_low u.low, split_low u.high, shifted_product u)

  complement_product : (m : ℕ) → m < p → (p - 1 - m) * q + (m * q + q) ≡ 2 ^ 32
  complement_product m lt =
      let whole : p ≡ (p - 1 - m) + (m + 1) = omega arith in
      let product = ap (λ (t : ℕ). t * q) whole ∙ add-mul (p - 1 - m) (m + 1) q in
      omega (arith, product, add-mul m 1 q, pq)

  -- The complement of what the complement of a number is shifted to.
  pub sar_lem :
      (l h : ℕ)
      → l < 2 ^ 32
      → h < 2 ^ 32
      → l / p + h % p * q + (2 ^ 32 - 1 - (2 ^ 32 - 1 - h) / p) * 2 ^ 32
        ≡ 2 ^ 64 - 1 - (2 ^ 64 - 1 - (l + h * 2 ^ 32)) / p
  sar_lem l h l_lt h_lt =
      let l1 = 2 ^ 32 - 1 - l in
      let h1 = 2 ^ 32 - 1 - h in
      let shifted = lshr_lem (record { low = l1; high = h1 }) (omega arith) in
      let whole : 2 ^ 64 - 1 - (l + h * 2 ^ 32) ≡ l1 + h1 * 2 ^ 32 = omega arith in
      let low : l1 / p ≡ q - 1 - l / p =
        (let d = div-complement p q p_pos q_pos l (rw pq l_lt) in rw pq at d) in
      let high : h1 % p ≡ p - 1 - h % p =
        (let d = mod-complement p q p_pos q_pos h (rw pq h_lt) in rw pq at d) in
      let below = div-below p q p_pos q_pos l (rw pq l_lt) in
      let product = complement_product (h % p) (mod-lt h p_pos) in
      let low_high : l1 / p + h1 % p * q ≡ 2 ^ 32 - 1 - (l / p + h % p * q) =
        rw (low, high) (omega (arith, product, below)) in
      let small : h1 / p ≤ h1 = div-le_self h1 p in
      rw whole (omega (arith, shifted, low_high, small, product, below))
