-- ===== src/Cpp/Numbers/Floats.antt =====
-- Floats that are not decimal (tccpp.c: parse_number).
use inherpreter.Prelude.{
  ℕ, ◌+◌, ◌*◌, ◌%◌, ◌^◌, ◌<◌, ◌≡◌, Bool, true, false, Option, none, some, List, [], ◌∷◌, ◌++◌,
  length,
}
use inherpreter.Cpp.Numbers.{
  BigNum, FloatTok, tok_cfloat, tok_cdouble, tok_cldouble, Number, scaled, Result, ok, shift_of,
}
use inherpreter.Cpp.Numbers.Digits.{Digit, positional, text, AllBelow, cased}
use inherpreter.Cpp.Numbers.Mantissa.{
  bn_value, FloatBase, hexadecimal, binary, float_base, shifted_base,
}

-- The text of an exponent's sign, and of a float's suffix.
pub data Sign : Type 0 where
  unsigned plus minus : Sign

abbrev pub sign_text : Sign → List ℕ
sign_text unsigned = []
sign_text plus = b'+' ∷ []
sign_text minus = b'-' ∷ []

abbrev pub is_minus : Sign → Bool
is_minus minus = true
is_minus _ = false

abbrev pub suffix_text : (upper : Bool) → FloatTok → List ℕ
suffix_text upper tok_cfloat = cased upper b'f' ∷ []
suffix_text upper tok_cldouble = cased upper b'l' ∷ []
suffix_text upper tok_cdouble = []

-- An exponent has one digit or more; `pu` and `su` are the cases of the letters.
abbrev pub exponent_text :
    (pu su : Bool) → Sign → (x : Digit) → (xs : List Digit) → FloatTok → List ℕ
exponent_text pu su s x xs tok = cased pu b'p' ∷ sign_text s ++ text (x ∷ xs) ++ suffix_text su tok

-- The exponent's digits, and their value, which stays in an int.
abbrev pub IsExponent : (x : Digit) → (xs : List Digit) → Type 0
IsExponent x xs = AllBelow 10 (x ∷ xs) × (positional 10 0 (x ∷ xs) + b'0' < 2 ^ 31)

-- The fraction of a literal, if it has one.
abbrev pub frac_text : Option (List Digit) → List ℕ
frac_text none = []
frac_text (some es) = b'.' ∷ text es

abbrev pub frac_digits : Option (List Digit) → List Digit
frac_digits none = []
frac_digits (some es) = es

-- A literal as the code reads it: its digits in the base that the shifts stand for, and the scale.
abbrev pub IsScaled :
    FloatBase
    → Result Number
    → (ds es : List Digit) → (negative : Bool) → (exp_val : ℕ) → FloatTok
    → Type 0
IsScaled r result ds es negative exp_val tok =
    (bn : BigNum) × (result
      ≡ ok (scaled tok bn negative exp_val (shift_of (float_base r) * length es)))
    × (bn_value bn ≡ positional (shifted_base r) 0 (ds ++ es) % 2 ^ 64)

-- The prefix of a base.
abbrev pub prefix : FloatBase → ℕ
prefix hexadecimal = b'x'
prefix binary = b'b'
