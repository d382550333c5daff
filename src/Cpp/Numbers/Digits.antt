-- ===== src/Cpp/Numbers/Digits.antt =====
-- Integer literals (tccpp.c: parse_number): digits are read as positional notation.
use native.Mathlib.Nat.{mul-suc}
use inherpreter.Prelude.{
  ℕ, zero, suc, ◌+◌, ◌-◌, ◌*◌, ◌%◌, ◌^◌, ◌≤◌, ◌<◌, ◌≡◌, refl, ap, ◌∙◌, Bool, true, false, ◌&&◌,
  ◌||◌, List, [], ◌∷◌, ◌++◌, append_assoc, append-nil, arith, ltb, leb, ◌==◌, if◌then◌else◌, length,
  length-append,
}
use inherpreter.Cpp.Numbers.{
  Number, integer, Result, ok, ◌>>=◌, head, tail, digit_of, read_digits, buffered_digit,
  digits_value, int_tok, int_suffix, stored, radix, without_zero, integer_number, is_float,
  number_from, parse_number,
}

-- A digit, and whether it is written as an upper-case letter if it is a letter.
pub record Digit : Type 0 where
  pub value : ℕ
  pub upper : Bool

-- The value of digits behind `n`, without a bound.
abbrev pub positional : (b n : ℕ) → List Digit → ℕ
positional b n [] = n
positional b n (d ∷ ds) = positional b (n * b + d.value) ds

-- A digit as it is written.
unfoldable pub digit_char : Digit → ℕ
digit_char d =
    if ltb d.value 10
    then d.value + b'0'
    else if d.upper
    then d.value - 10 + b'A'
    else d.value - 10 + b'a'

abbrev pub text : List Digit → List ℕ
text [] = []
text (d ∷ ds) = digit_char d ∷ text ds

abbrev pub AllBelow : ℕ → List Digit → Type 0
AllBelow b [] = Unit
AllBelow b (d ∷ ds) = (d.value < b) × AllBelow b ds

pub digit_of-digit_char : (d : Digit) → d.value < 16 → digit_of (digit_char d) ≡ d.value
unfolding digit_of digit_char
digit_of-digit_char d h = ground arith

pub buffered_digit-digit_char : (d : Digit) → d.value < 16 → buffered_digit (digit_char d) ≡ d.value
unfolding digit_char
buffered_digit-digit_char d h = ground arith

pub letter :
    (b : ℕ) (d : Digit)
    → d.value < 16
    → d.value < b
    → (ltb (digit_char d) b'A' && leb b d.value) ≡ false
unfolding digit_char
letter b d h lt = ground arith

le_mul : (n b : ℕ) → 0 < b → n ≤ n * b
le_mul n zero h = absurd (omega arith)
le_mul n (suc b) h = omega (arith, mul-suc n b)

pub positional_le : (b n : ℕ) (ds : List Digit) → 0 < b → n ≤ positional b n ds
positional_le b n [] h = omega arith
positional_le b n (d ∷ ds) h = omega (arith, le_mul n b h, positional_le b (n * b + d.value) ds h)

pub positional-append :
    (b n : ℕ) (ds es : List Digit) → positional b n (ds ++ es) ≡ positional b (positional b n ds) es
positional-append b n [] es = refl
positional-append b n (d ∷ ds) es = positional-append b (n * b + d.value) ds es

-- One digit of a value that stays in 64 bits.
pub digits_value_digit :
    (b n : ℕ) (d : Digit) (q : List ℕ)
    → 0 < b
    → b ≤ 16
    → d.value < b
    → n * b + d.value < 2 ^ 64
    → digits_value b n (digit_char d ∷ q) ≡ digits_value b (n * b + d.value) q
unfolding digits_value
digits_value_digit b n d q pos le lt h =
    let e : (n * b + d.value) % 2 ^ 64 ≡ n * b + d.value = omega arith in
    let grows : ltb (n * b + d.value) n ≡ false = ground (arith, le_mul n b pos) in
    rw (buffered_digit-digit_char d (omega arith), letter b d (omega arith) lt, e, grows) refl

digits_value-text :
    (b n : ℕ) (ds : List Digit)
    → 0 < b
    → b ≤ 16
    → AllBelow b ds
    → positional b n ds < 2 ^ 64
    → digits_value b n (text ds) ≡ ok (positional b n ds)
unfolding digits_value
digits_value-text b n [] pos le all h = refl
digits_value-text b n (d ∷ ds) pos le (lt, all) h =
    digits_value_digit b n d (text ds) pos le lt
      (omega (arith, positional_le b (n * b + d.value) ds pos))
    ∙ digits_value-text b (n * b + d.value) ds pos le all h

pub read_digits-text :
    (b : ℕ) (q : List ℕ) (ds : List Digit) (rest : List ℕ)
    → b ≤ 16
    → AllBelow b ds
    → length q + length ds ≤ 1024
    → ltb (digit_of (head rest)) b ≡ false
    → read_digits b q (text ds ++ rest) ≡ ok (q ++ text ds, rest)
unfolding read_digits
read_digits-text b q [] [] le all h stop = rw (append-nil q) refl
read_digits-text b q [] (ch ∷ rest) le all h stop =
    let stop' : ltb (digit_of ch) b ≡ false = stop in rw (append-nil q, read_digits, stop') refl
read_digits-text b q (d ∷ ds) rest le (lt, all) h stop =
    let below : ltb (digit_of (digit_char d)) b ≡ true =
      rw (digit_of-digit_char d (omega arith)) (ground arith) in
    let room : leb 1024 (length q) ≡ false = ground arith in
    rw (read_digits, below, room)
      (read_digits-text b (q ++ digit_char d ∷ []) ds rest le all
          (omega (arith, length-append q (digit_char d ∷ []))) stop
        ∙ ap (λ l. ok (l, rest)) (append_assoc q (digit_char d ∷ []) (text ds)))

-- A letter of the literal, which may be written in upper case.
abbrev pub cased : (upper : Bool) → ℕ → ℕ
cased true c = c - 32
cased false c = c

-- A literal of the source: decimal with a first digit that is not 0, octal, or hexadecimal.
pub data Radix : Type 0 where
  dec oct : Radix
  hex : (upper : Bool) → Radix

abbrev pub base : Radix → ℕ
base dec = 10
base oct = 8
base (hex upper) = 16

-- The character before the digits, and the base that the digits are scanned with.
abbrev pub literal : Radix → (d : Digit) → (ds : List Digit) (rest : List ℕ) → List ℕ
literal dec d ds rest = text (d ∷ ds) ++ rest
literal oct d ds rest = b'0' ∷ text (d ∷ ds) ++ rest
literal (hex upper) d ds rest = b'0' ∷ cased upper b'x' ∷ text (d ∷ ds) ++ rest

abbrev pub scanned_base : Radix → ℕ
scanned_base (hex upper) = 16
scanned_base _ = 10

-- What follows is no digit, and does not make the literal a float.
abbrev pub EndsDigits : Radix → List ℕ → Type 0
EndsDigits r rest =
    (ltb (digit_of (head rest)) (scanned_base r) ≡ false)
    × (is_float (scanned_base r) (head rest) ≡ false)

abbrev pub Leads : Radix → Digit → Type 0
Leads dec d = 0 < d.value
Leads r d = Unit

AllBelow-le : (b c : ℕ) (ds : List Digit) → b ≤ c → AllBelow b ds → AllBelow c ds
AllBelow-le b c [] le all = tt
AllBelow-le b c (d ∷ ds) le (lt, all) = (omega arith, AllBelow-le b c ds le all)

-- The digits as they are left in token_buf.
abbrev buffered : Radix → List Digit → List ℕ
buffered oct ds = b'0' ∷ text ds
buffered r ds = text ds

pub number_from-text :
    (b : ℕ) (q : List ℕ) (ds : List Digit) (rest : List ℕ)
    → b ≤ 16
    → AllBelow b ds
    → length q + length ds ≤ 1024
    → ltb (digit_of (head rest)) b ≡ false
    → is_float b (head rest) ≡ false
    → number_from b q (text ds ++ rest) ≡ integer_number b (q ++ text ds) rest
unfolding number_from
number_from-text b q ds rest le all h stop int =
    rw (read_digits-text b q ds rest le all h stop, int) refl

-- The number of a literal with a value and what follows its digits.
abbrev pub suffixed_integer : ℕ → List ℕ → Result Number
suffixed_integer n rest = int_suffix 0 0 (int_tok n) rest >>= λ tok. ok (integer tok (stored tok n))

integer_number-text :
    (b c : ℕ) (q : List ℕ) (ds : List Digit) (rest : List ℕ)
    → 0 < c
    → c ≤ 16
    → radix b q ≡ c
    → without_zero b q ≡ text ds
    → AllBelow c ds
    → positional c 0 ds < 2 ^ 64
    → integer_number b q rest ≡ suffixed_integer (positional c 0 ds) rest
unfolding integer_number
integer_number-text b c q ds rest pos le eb e all h =
    rw (eb, e, digits_value-text c 0 ds pos le all h) refl

dec_digit : (d : Digit) → 0 < d.value → d.value < 10 → (digit_char d == b'0') ≡ false
unfolding digit_char
dec_digit d pos h = ground arith

dec_start : (d : Digit) → 0 < d.value → d.value < 10 → (digit_char d == b'.') ≡ false
unfolding digit_char
dec_start d pos h = ground arith

oct_digit :
    (ext : Bool) (d : Digit)
    → d.value < 8
    → ((digit_char d == b'x' || digit_char d == b'X') ≡ false)
      × ((ext && (digit_char d == b'b' || digit_char d == b'B')) ≡ false)
unfolding digit_char
oct_digit ext d h = (ground arith, ground arith)

hex_literal :
    (d : Digit) (ds : List Digit) (rest : List ℕ)
    → AllBelow 16 (d ∷ ds)
    → length ds ≤ 1022
    → ltb (digit_of (head rest)) 16 ≡ false
    → is_float 16 (head rest) ≡ false
    → positional 16 0 (d ∷ ds) < 2 ^ 64
    → number_from 16 [] (text (d ∷ ds) ++ rest) ≡ suffixed_integer (positional 16 0 (d ∷ ds)) rest
hex_literal d ds rest all h stop int fits =
    number_from-text 16 [] (d ∷ ds) rest (omega arith) all (omega arith) stop int
    ∙ integer_number-text 16 16 (text (d ∷ ds)) (d ∷ ds) rest (omega arith) (omega arith) refl refl
        all fits

pub integer_literal :
    (tcc_ext : Bool) (r : Radix) (d : Digit) (ds : List Digit) (rest : List ℕ)
    → Leads r d
    → AllBelow (base r) (d ∷ ds)
    → length ds ≤ 1022
    → EndsDigits r rest
    → positional (base r) 0 (d ∷ ds) < 2 ^ 64
    → parse_number tcc_ext (head (literal r d ds rest)) (tail (literal r d ds rest))
      ≡ suffixed_integer (positional (base r) 0 (d ∷ ds)) rest
unfolding parse_number
integer_literal tcc_ext dec d ds rest pos (lt, all) h (stop, int) fits =
    rw (dec_digit d pos lt, dec_start d pos lt)
      (number_from-text 10 (digit_char d ∷ []) ds rest (omega arith) all (omega arith) stop int
        ∙ integer_number-text 10 10 (text (d ∷ ds)) (d ∷ ds) rest (omega arith) (omega arith)
            (rw (dec_digit d pos lt) refl) (rw (dec_digit d pos lt) refl) (lt, all) fits)
integer_literal tcc_ext oct d ds rest pos (lt, all) h (stop, int) fits =
    let (not_hex, not_bin) = oct_digit tcc_ext d lt in
    rw (not_hex, not_bin)
      (number_from-text 10 (b'0' ∷ []) (d ∷ ds) rest (omega arith)
          (omega arith, AllBelow-le 8 10 ds (omega arith) all) (omega arith) stop int
        ∙ integer_number-text 10 8 (b'0' ∷ text (d ∷ ds)) (d ∷ ds) rest (omega arith) (omega arith)
            refl refl (lt, all) fits)
integer_literal tcc_ext (hex true) d ds rest pos all h (stop, int) fits =
    hex_literal d ds rest all h stop int fits
integer_literal tcc_ext (hex false) d ds rest pos all h (stop, int) fits =
    hex_literal d ds rest all h stop int fits
