-- ===== src/Runtime/Shifts/Folding.antt =====
-- The shifts at run time beside the folding of constants (Gen.Opic).
use native.Mathlib.Nat.{
  div-div-eq-div-mul, div-one, mul-one, mul_comm, mul_left_comm, mul_right_comm, add-mul,
  div-le_self,
}
use inherpreter.Prelude.{
  ℕ, ◌+◌, ◌-◌, ◌*◌, ◌/◌, ◌%◌, ◌^◌, ◌≤◌, ◌<◌, ◌≡◌, refl, sym, ap, ◌∙◌, ◌⊎◌, inl, inr, true, false,
  arith, ltb, leb, ◌==◌, Bool-cases,
}
use inherpreter.Gen.Opic.{op_shl, op_shr, op_sar, value, fold_op}
use inherpreter.Gen.Opic.Word.{negative, shift_right}
use inherpreter.Runtime.Shifts.{
  set_ll, ll, lshr_words, lshrdi3, ashl_words, ashldi3, ashr_words, ashrdi3,
}
use inherpreter.Runtime.Shifts.Logical.{pow-add}
use inherpreter.Runtime.Shifts.Words.{
  p, q, low_shifted_lem, lshr_lem, high_shifted_lem, ashl_lem, sar_lem,
}

-- An amount below 64 is 0, below a word, or a word and less than a word.
data Amount (b : ℕ) : Type 0 where
  no_shift : b ≡ 0 → Amount b
  part : 0 < b → b < 32 → leb 32 b ≡ false → (b == 0) ≡ false → Amount b
  word : leb 32 b ≡ true → 2 ^ b ≡ 2 ^ 32 * 2 ^ (b - 32) → Amount b

Amount-cases : (b : ℕ) → Amount b
Amount-cases b = elim (Bool-cases (leb 32 b)) [
  | inl e ↦
      let le : 32 ≤ b = ground arith in
      let parts : 32 + (b - 32) ≡ b = omega arith in
      word e (rw (← pow-add 32 (b - 32)) (ap (λ (t : ℕ). 2 ^ t) (sym parts)))
  | inr e ↦ elim (Bool-cases (b == 0)) [
    | inl e1 ↦ no_shift (ground arith)
    | inr e1 ↦ part (ground arith) (ground arith) e e1
  ]
]

low_word : (a : ℕ) → (set_ll a).low < 2 ^ 32
unfolding set_ll
low_word a = omega arith

words_lem : (a : ℕ) → (set_ll a).low + (set_ll a).high * 2 ^ 32 ≡ a
unfolding set_ll
words_lem a = omega arith

lshrdi3_lem : (a b : ℕ) → lshrdi3 a b ≡ a / 2 ^ b
unfolding lshrdi3 lshr_words ll p q
lshrdi3_lem a b = elim (Amount-cases b) [
  | no_shift e ↦ rw (e, div-one a) (words_lem a)
  | part pos lt whole some_ ↦
      let u = set_ll a in
      let low = low_shifted_lem b pos lt u (low_word a) in
      let value = lshr_lem b pos lt u (low_word a) ∙ ap (λ (t : ℕ). t / 2 ^ b) (words_lem a) in
      rw (whole, some_) (ap (λ (t : ℕ). t + u.high / 2 ^ b * 2 ^ 32) low ∙ value)
  | word e pow ↦
      rw (e, pow, ← div-div-eq-div-mul a (2 ^ 32) (2 ^ (b - 32))) (unfold set_ll in omega arith)
]

ashldi3_lem : (a b : ℕ) → a < 2 ^ 64 → ashldi3 a b ≡ a * 2 ^ b % 2 ^ 64
unfolding ashldi3 ashl_words ll p q
ashldi3_lem a b a_lt = elim (Amount-cases b) [
  | no_shift e ↦ rw (e, mul-one a) (words_lem a ∙ omega arith)
  | part pos lt whole some_ ↦
      let u = set_ll a in
      let high = high_shifted_lem b pos lt u (low_word a) in
      let value =
        ashl_lem b pos lt u (low_word a) ∙ ap (λ (t : ℕ). t * 2 ^ b % 2 ^ 64) (words_lem a) in
      rw (whole, some_) (ap (λ (t : ℕ). u.low * 2 ^ b % 2 ^ 32 + t * 2 ^ 32) high ∙ value)
  | word e pow ↦
      let u = set_ll a in
      let k = 2 ^ (b - 32) in
      let product : a * (2 ^ 32 * k) ≡ a * k * 2 ^ 32 =
        mul_left_comm a (2 ^ 32) k ∙ mul_comm (2 ^ 32) (a * k) in
      let parts : a * k ≡ u.low * k + u.high * k * 2 ^ 32 =
        ap (λ (t : ℕ). t * k) (sym (words_lem a))
        ∙ add-mul u.low (u.high * 2 ^ 32) k
        ∙ ap (λ (t : ℕ). u.low * k + t) (mul_right_comm u.high (2 ^ 32) k) in
      rw (e, pow) (omega (arith, product, parts))
]

high_word : (a : ℕ) → a < 2 ^ 64 → (set_ll a).high < 2 ^ 32
unfolding set_ll
high_word a lt = omega arith

-- The sign of a number is that of its high word.
sign_lem :
    (a : ℕ)
    → (ltb (set_ll a).high (2 ^ 31) ≡ true) × (negative a ≡ false)
      ⊎ ((ltb (set_ll a).high (2 ^ 31) ≡ false) × (negative a ≡ true))
unfolding set_ll
sign_lem a = elim (Bool-cases (ltb a (2 ^ 63))) [
  | inl e ↦ inl (ground arith, ground arith)
  | inr e ↦ inr (ground arith, ground arith)
]

high_plus : (a : ℕ) → ltb (set_ll a).high (2 ^ 31) ≡ true → a / 2 ^ 32 < 2 ^ 31
unfolding set_ll
high_plus a h = ground arith

high_minus : (a : ℕ) → ltb (set_ll a).high (2 ^ 31) ≡ false → 2 ^ 31 ≤ a / 2 ^ 32
unfolding set_ll
high_minus a h = ground arith

ashrdi3_lem : (a b : ℕ) → a < 2 ^ 64 → ashrdi3 a b ≡ shift_right a b
unfolding ashrdi3 ashr_words ll p q shift_right
ashrdi3_lem a b a_lt = elim (Amount-cases b) [
  | no_shift e ↦ elim (sign_lem a) [
    | inl (high, low) ↦ rw (e, low, div-one a) (words_lem a)
    | inr (high, low) ↦ rw (e, low, div-one (2 ^ 64 - 1 - a)) (words_lem a ∙ omega arith)
  ]
  | part pos lt whole some_ ↦
      let u = set_ll a in
      let low = low_shifted_lem b pos lt u (low_word a) in
      elim (sign_lem a) [
        | inl (plus, plus1) ↦
            let value =
              lshr_lem b pos lt u (low_word a) ∙ ap (λ (t : ℕ). t / 2 ^ b) (words_lem a) in
            rw (whole, some_, plus, plus1) (ap (λ (t : ℕ). t + u.high / 2 ^ b * 2 ^ 32) low ∙ value)
        | inr (minus, minus1) ↦
            let value =
              sar_lem b pos lt u.low u.high (low_word a) (high_word a a_lt)
              ∙ ap (λ (t : ℕ). 2 ^ 64 - 1 - (2 ^ 64 - 1 - t) / 2 ^ b) (words_lem a) in
            rw (whole, some_, minus, minus1)
              (ap (λ (t : ℕ). t + (2 ^ 32 - 1 - (2 ^ 32 - 1 - u.high) / 2 ^ b) * 2 ^ 32) low
                ∙ value)
      ]
  | word e pow ↦
      let u = set_ll a in
      elim (sign_lem a) [
        | inl (plus, plus1) ↦
            let lt : a / 2 ^ 32 < 2 ^ 31 = high_plus a plus in
            rw (e, plus, plus1, pow, ← div-div-eq-div-mul a (2 ^ 32) (2 ^ (b - 32)))
              (unfold set_ll in omega arith)
        | inr (minus, minus1) ↦
            let le : 2 ^ 31 ≤ a / 2 ^ 32 = high_minus a minus in
            let complement : (2 ^ 64 - 1 - a) / 2 ^ 32 ≡ 2 ^ 32 - 1 - a / 2 ^ 32 = omega arith in
            let small = div-le_self (2 ^ 32 - 1 - a / 2 ^ 32) (2 ^ (b - 32)) in
            rw
              (
                e,
                minus,
                minus1,
                pow,
                ← div-div-eq-div-mul (2 ^ 64 - 1 - a) (2 ^ 32) (2 ^ (b - 32)),
                complement,
              )
              (unfold set_ll in omega arith)
      ]
]

-- For each amount below 64, the three shifts that compiled programs call give the value that the
-- compiler folds for the same shift of constants.
pub shifts-fold_op :
    (a b : ℕ)
    → a < 2 ^ 64
    → b < 64
    → (fold_op op_shl a b ≡ value (ashldi3 a b))
      × (fold_op op_shr a b ≡ value (lshrdi3 a b))
      × (fold_op op_sar a b ≡ value (ashrdi3 a b))
unfolding fold_op
shifts-fold_op a b a_lt b_lt =
    let defined : ltb b 64 ≡ true = ground arith in
    (
      rw (defined, ashldi3_lem a b a_lt) refl,
      rw (defined, lshrdi3_lem a b) refl,
      rw (defined, ashrdi3_lem a b a_lt) refl,
    )
