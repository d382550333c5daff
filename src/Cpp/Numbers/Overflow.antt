-- ===== src/Cpp/Numbers/Overflow.antt =====
-- Integer literals that are too large (tccpp.c: parse_number).
use inherpreter.Prelude.{
  ℕ, ◌+◌, ◌*◌, ◌%◌, ◌^◌, ◌≤◌, ◌<◌, ◌≡◌, refl, ◌∙◌, true, false, List, [], ◌∷◌, ◌++◌, arith, ltb,
}
use inherpreter.Cpp.Numbers.{integer_constant_overflow, ok, failed, digits_value}
use inherpreter.Cpp.Numbers.Digits.{
  Digit, positional, text, AllBelow, buffered_digit-digit_char, letter, positional_le,
  positional-append, digits_value_digit,
}

digits_value-append :
    (b n : ℕ) (ds es : List Digit)
    → 0 < b
    → b ≤ 16
    → AllBelow b ds
    → positional b n ds < 2 ^ 64
    → digits_value b n (text (ds ++ es)) ≡ digits_value b (positional b n ds) (text es)
digits_value-append b n [] es pos le all h = refl
digits_value-append b n (d ∷ ds) es pos le (lt, all) h =
    digits_value_digit b n d (text (ds ++ es)) pos le lt
      (omega (arith, positional_le b (n * b + d.value) ds pos))
    ∙ digits_value-append b (n * b + d.value) ds es pos le all h

-- The test for overflow compares the wrapped value with the value before the last digit: a literal
-- too large for 64 bits by its last digit is accepted, with another value, where the wrapped value
-- is not smaller.
pub digits_value_wrapped :
    (b : ℕ) (d : Digit) (ds : List Digit)
    → 0 < b
    → b ≤ 16
    → AllBelow b ds
    → d.value < b
    → let v = positional b 0 ds in
      v < 2 ^ 64
      → 2 ^ 64 ≤ v * b + d.value
      → v ≤ (v * b + d.value) % 2 ^ 64
      → (n : ℕ) × (digits_value b 0 (text (ds ++ d ∷ [])) ≡ ok n)
        × (n < positional b 0 (ds ++ d ∷ []))
unfolding digits_value
digits_value_wrapped b d ds pos le all lt small big wraps =
    let v = positional b 0 ds in
    let wrapped : ltb ((v * b + d.value) % 2 ^ 64) v ≡ false = ground arith in
    (
      (v * b + d.value) % 2 ^ 64,
      digits_value-append b 0 ds (d ∷ []) pos le all small
          ∙ rw (buffered_digit-digit_char d (omega arith), letter b d (omega arith) lt, wrapped)
              refl,
      rw (positional-append b 0 ds (d ∷ [])) (omega arith),
    )

-- A literal whose value is too large by its last digit is refused where the wrapped value is smaller
-- than the value before that digit.
pub digits_value_refused :
    (b : ℕ) (d : Digit) (ds es : List Digit)
    → 0 < b
    → b ≤ 16
    → AllBelow b ds
    → d.value < b
    → let v = positional b 0 ds in
      v < 2 ^ 64
      → (v * b + d.value) % 2 ^ 64 < v
      → digits_value b 0 (text (ds ++ d ∷ es)) ≡ failed integer_constant_overflow
unfolding digits_value
digits_value_refused b d ds es pos le all lt small wraps =
    let v = positional b 0 ds in
    let wrapped : ltb ((v * b + d.value) % 2 ^ 64) v ≡ true = ground arith in
    digits_value-append b 0 ds (d ∷ es) pos le all small
    ∙ rw (buffered_digit-digit_char d (omega arith), letter b d (omega arith) lt, wrapped) refl
