-- ===== src/Tests/Numerals.antt =====
-- Number literals.
use inherpreter.Prelude.{ℕ, ◌<◌, ◌≡◌, refl, true, false, none, some, List, [], ◌∷◌, ◌++◌, arith}
use inherpreter.Cpp.Numbers.{tok_cullong, integer, ok, digits_value, parse_number}
use inherpreter.Cpp.Numbers.Digits.{Digit, positional, digit_char, text, AllBelow, hex}
use inherpreter.Cpp.Numbers.Integers.{end_suffix, with_l, with_u, accepted, parse_number_lem}
use inherpreter.Cpp.Numbers.Overflow.{digits_value_wrapped}

abbrev lower_digits : List ℕ → List Digit
lower_digits [] = []
lower_digits (v ∷ vs) = record { value = v; upper = false } ∷ lower_digits vs

abbrev upper_a : Digit
upper_a = record { value = 10; upper = true }

-- 0X8aA00000uL
parse_number_lem_example :
    accepted (
      parse_number false b'0'
        (b'X' ∷ b'8' ∷ b'a' ∷ b'A' ∷ b'0' ∷ b'0' ∷ b'0' ∷ b'0' ∷ b'0' ∷ b'u' ∷ b'L' ∷ []))
    ≡ some (integer tok_cullong 0x8aa0_0000)
unfolding digit_char
parse_number_lem_example =
    parse_number_lem false (hex true) (record { value = 8; upper = false })
      (record { value = 10; upper = false } ∷ upper_a ∷ lower_digits (0 ∷ 0 ∷ 0 ∷ 0 ∷ 0 ∷ []))
      (with_u false (with_l true end_suffix)) tt
      (
        omega arith,
        (
          omega arith,
          (
            omega arith,
            (omega arith, (omega arith, (omega arith, (omega arith, (omega arith, tt))))),
          ),
        ),
      )
      (omega arith) (omega arith)

two_us_run : accepted (parse_number false b'0' (b'x' ∷ b'a' ∷ b'U' ∷ b'u' ∷ [])) ≡ none
unfolding parse_number
two_us_run = refl

-- 0x123456789abcdef0
abbrev sixteen_digits : List Digit
sixteen_digits =
    lower_digits (1 ∷ 2 ∷ 3 ∷ 4 ∷ 5 ∷ 6 ∷ 7 ∷ 8 ∷ 9 ∷ 10 ∷ 11 ∷ 12 ∷ 13 ∷ 14 ∷ 15 ∷ 0 ∷ [])

abbrev one : Digit
one = record { value = 1; upper = false }

sixteen_digits-AllBelow : AllBelow 16 sixteen_digits
sixteen_digits-AllBelow = ground arith

-- 0x123456789abcdef01 is read as 0x23456789abcdef01.
digits_value_wrapped_example :
    (n : ℕ) × (digits_value 16 0 (text (sixteen_digits ++ one ∷ [])) ≡ ok n)
    × (n < positional 16 0 (sixteen_digits ++ one ∷ []))
digits_value_wrapped_example =
    digits_value_wrapped 16 one sixteen_digits (omega arith) (omega arith) sixteen_digits-AllBelow
      (omega arith) (omega arith) (omega arith) (omega arith)
