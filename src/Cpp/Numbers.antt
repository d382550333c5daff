-- ===== src/Cpp/Numbers.antt =====
-- Numbers (tccpp.c: bn_lshift, bn_zero, parse_number), for x86_64. A string is the list of its bytes
-- without the terminating 0, so `ch` is the first byte of what is left, or 0.
pub mod Digits
pub mod Integers
pub mod Mantissa
pub mod Floats
pub mod Overflow
use inherpreter.Prelude.{
  ℕ, ◌+◌, ◌-◌, ◌*◌, ◌/◌, ◌%◌, ◌^◌, bit_or, Bool, true, false, not, ◌&&◌, ◌||◌, List, [], ◌∷◌, ◌++◌,
  ltb, leb, ◌==◌, if◌then◌else◌, length,
}

-- The low and the high word of `bn`.
pub record BigNum : Type 0 where
  pub low : ℕ
  pub high : ℕ

abbrev pub bn_zero : BigNum
bn_zero = record { low = 0; high = 0 }

-- `v << shift` on an unsigned int
abbrev pub shift_left : (v shift : ℕ) → ℕ
shift_left v shift = v * 2 ^ shift % 2 ^ 32

unfoldable pub bn_lshift : BigNum → (shift or_val : ℕ) → BigNum
bn_lshift bn shift or_val = record {
  low = bit_or (shift_left bn.low shift) or_val;
  high = bit_or (shift_left bn.high shift) (bn.low / 2 ^ (32 - shift));
}

pub data IntTok : Type 0 where
  tok_cint tok_cuint tok_cllong tok_cullong : IntTok

pub data FloatTok : Type 0 where
  tok_cfloat tok_cdouble tok_cldouble : FloatTok

-- The token with its value. A decimal float is the text that is handed to strtof, strtod or strtold;
-- another one is `ldexp(mantissa, exponent - frac_bits)`, the exponent with its sign.
pub data Number : Type 0 where
  integer : IntTok → ℕ → Number
  decimal : FloatTok → List ℕ → Number
  scaled : FloatTok → (mantissa : BigNum) → (negative : Bool) → (exponent frac_bits : ℕ) → Number

pub data Error : Type 0 where
  number_too_long invalid_digit expected_exponent expected_exponent_digits : Error
  integer_constant_overflow three_ls two_us invalid_number : Error
  exponent_overflow : Error

pub data Result {ℓ} (A : Type ℓ) : Type ℓ where
  ok : A → Result A
  failed : Error → Result A

infixl 5 ◌>>=◌
abbrev pub ◌>>=◌ {ℓ κ} : {A : Type ℓ} {B : Type κ} → Result A → (A → Result B) → Result B
ok a >>= f = f a
failed e >>= f = failed e

abbrev pub head : List ℕ → ℕ
head [] = 0
head (c ∷ cs) = c

abbrev pub tail : List ℕ → List ℕ
tail [] = []
tail (c ∷ cs) = cs

abbrev pub is_num : ℕ → Bool
is_num c = leb b'0' c && leb c b'9'

abbrev toup : ℕ → ℕ
toup c = if leb b'a' c && leb c b'z' then c - 32 else c

-- The value of a digit as the loops test it; 255 is no digit.
unfoldable pub digit_of : ℕ → ℕ
digit_of c =
    if leb b'a' c && leb c b'f'
    then c - b'a' + 10
    else if leb b'A' c && leb c b'F'
    then c - b'A' + 10
    else if is_num c
    then c - b'0'
    else 255

abbrev string_max_size : ℕ
string_max_size = 1024

abbrev put : (q : List ℕ) → ℕ → Result (List ℕ)
put q ch = if leb string_max_size (length q) then failed number_too_long else ok (q ++ ch ∷ [])

-- All digits below `b`: `token_buf` and what follows.
unfoldable pub read_digits : (b : ℕ) → (q cs : List ℕ) → Result (List ℕ × List ℕ)
unfolding digit_of
read_digits b q [] = ok (q, [])
read_digits b q (ch ∷ cs) = elim (ltb (digit_of ch) b) [
  | true ↦ put q ch >>= λ q1. read_digits b q1 cs
  | false ↦ ok (q, ch ∷ cs)
]

-- The decimal digits of a fraction or an exponent.
unfoldable pub read_decimals : (q cs : List ℕ) → Result (List ℕ × List ℕ)
read_decimals q [] = ok (q, [])
read_decimals q (ch ∷ cs) = elim (is_num ch) [
  | true ↦ put q ch >>= λ q1. read_decimals q1 cs
  | false ↦ ok (q, ch ∷ cs)
]

-- A digit in `token_buf`, which is known to be one.
abbrev pub buffered_digit : ℕ → ℕ
buffered_digit t =
    if leb b'a' t then t - b'a' + 10 else if leb b'A' t then t - b'A' + 10 else t - b'0'

-- The digits before the point of a float that is not decimal.
unfoldable pub mantissa : (shift : ℕ) → BigNum → List ℕ → BigNum
unfolding bn_lshift
mantissa shift bn [] = bn
mantissa shift bn (t ∷ q) = mantissa shift (bn_lshift bn shift (buffered_digit t)) q

-- The digits behind the point.
unfoldable pub fraction :
    (b shift : ℕ) → BigNum → (frac_bits : ℕ) → List ℕ → Result (BigNum × ℕ × List ℕ)
unfolding bn_lshift digit_of
fraction b shift bn frac_bits [] = ok (bn, frac_bits, [])
fraction b shift bn frac_bits (ch ∷ cs) =
    let more = fraction b shift (bn_lshift bn shift (digit_of ch)) (frac_bits + shift) cs in
    if digit_of ch == 255
    then ok (bn, frac_bits, ch ∷ cs)
    else if leb b (digit_of ch)
    then failed invalid_digit
    else more

-- `exp_val` and what follows. Where the int overflows, what the code does is undefined: the outcome
-- `exponent_overflow` is no error of the code.
unfoldable pub exponent_digits : (exp_val : ℕ) → List ℕ → Result (ℕ × List ℕ)
exponent_digits exp_val [] = ok (exp_val, [])
exponent_digits exp_val (ch ∷ cs) = elim (is_num ch) [
  | true ↦
      let more = exponent_digits (exp_val * 10 + ch - b'0') cs in
      if leb (2 ^ 31) (exp_val * 10 + ch) then failed exponent_overflow else more
  | false ↦ ok (exp_val, ch ∷ cs)
]

-- The suffix of a float, and the test that nothing is left.
abbrev pub suffixed : (FloatTok → Number) → List ℕ → Result Number
suffixed number cs =
    let t = toup (head cs) in
    let is_suffix = t == b'F' || t == b'L' in
    let tok = if t == b'F' then tok_cfloat else if t == b'L' then tok_cldouble else tok_cdouble in
    if (if is_suffix then head (tail cs) else head cs) == 0
    then ok (number tok)
    else failed invalid_number

abbrev pub shift_of : (b : ℕ) → ℕ
shift_of b = if b == 16 then 4 else 2

abbrev pub is_sign : ℕ → Bool
is_sign ch = ch == b'+' || ch == b'-'

-- From the first digit of an exponent on.
unfoldable pub signed_exponent :
    BigNum → (negative : Bool) → (frac_bits : ℕ) → List ℕ → Result Number
unfolding exponent_digits
signed_exponent bn negative frac_bits cs =
    if not (is_num (head cs))
    then failed expected_exponent_digits
    else (exponent_digits 0 cs >>= λ (exp_val, cs1).
        suffixed (λ tok. scaled tok bn negative exp_val frac_bits) cs1)

-- From the exponent of a float that is not decimal.
unfoldable pub scaled_exponent : BigNum → (frac_bits : ℕ) → List ℕ → Result Number
unfolding signed_exponent
scaled_exponent bn frac_bits cs =
    if not (head cs == b'p' || head cs == b'P')
    then failed expected_exponent
    else let cs1 = tail cs in
      let cs2 = if is_sign (head cs1) then tail cs1 else cs1 in
      signed_exponent bn (head cs1 == b'-') frac_bits cs2

unfoldable pub scaled_float : (b : ℕ) → (q cs : List ℕ) → Result Number
unfolding mantissa fraction scaled_exponent
scaled_float b q cs =
    let bn = mantissa (shift_of b) bn_zero q in
    if head cs == b'.'
    then (fraction b (shift_of b) bn 0 (tail cs) >>= λ (bn1, frac_bits, cs1).
        scaled_exponent bn1 frac_bits cs1)
    else scaled_exponent bn 0 cs

-- The exponent of a decimal float, from `ch == 'e' || ch == 'E'` on.
unfoldable pub decimal_exponent : (q cs : List ℕ) → Result (List ℕ × List ℕ)
unfolding read_decimals
decimal_exponent q cs =
    if head cs == b'e' || head cs == b'E'
    then (put q (head cs) >>= λ q1.
        (if is_sign (head (tail cs)) then put q1 (head (tail cs)) else ok q1) >>= λ q2.
        let cs2 = if is_sign (head (tail cs)) then tail (tail cs) else tail cs in
        if is_num (head cs2) then read_decimals q2 cs2 else failed expected_exponent_digits)
    else ok (q, cs)

-- The label float_frac_parse.
unfoldable pub float_frac_parse : (q cs : List ℕ) → Result Number
unfolding read_decimals decimal_exponent
float_frac_parse q cs = read_decimals q cs >>= λ (q1, cs1).
    decimal_exponent q1 cs1 >>= λ (q2, cs2). suffixed (λ tok. decimal tok q2) cs2

unfoldable pub decimal_float : (q cs : List ℕ) → Result Number
unfolding float_frac_parse decimal_exponent
decimal_float q cs =
    if head cs == b'.'
    then (put q (head cs) >>= λ q1. float_frac_parse q1 (tail cs))
    else (decimal_exponent q cs >>= λ (q2, cs2). suffixed (λ tok. decimal tok q2) cs2)

-- The value of the digits in `token_buf`.
unfoldable pub digits_value : (b n : ℕ) → (q : List ℕ) → Result ℕ
digits_value b n [] = ok n
digits_value b n (t ∷ q) =
    let d = buffered_digit t in
    let n' = (n * b + d) % 2 ^ 64 in
    let more = digits_value b n' q in
    if ltb t b'A' && leb b d
    then failed invalid_digit
    else if ltb n' n
    then failed integer_constant_overflow
    else more

unfoldable pub int_tok : ℕ → IntTok
int_tok n =
    if leb (2 ^ 32) n
    then if leb (2 ^ 63) n then tok_cullong else tok_cllong
    else if ltb 0x7fff_ffff n
    then tok_cuint
    else tok_cint

abbrev pub long_tok : IntTok → IntTok
long_tok tok_cint = tok_cllong
long_tok tok_cuint = tok_cullong
long_tok tok = tok

abbrev pub unsigned_tok : IntTok → IntTok
unsigned_tok tok_cint = tok_cuint
unsigned_tok tok_cllong = tok_cullong
unsigned_tok tok = tok

-- The suffixes, and the test that nothing is left.
unfoldable pub int_suffix : (lcount ucount : ℕ) → IntTok → List ℕ → Result IntTok
int_suffix lcount ucount tok [] = ok tok
int_suffix lcount ucount tok (ch ∷ cs) =
    let long = int_suffix (lcount + 1) ucount (long_tok tok) cs in
    let unsigned = int_suffix lcount (ucount + 1) (unsigned_tok tok) cs in
    if toup ch == b'L'
    then if leb 2 lcount then failed three_ls else long
    else if toup ch == b'U'
    then if leb 1 ucount then failed two_us else unsigned
    else failed invalid_number

abbrev pub stored : IntTok → ℕ → ℕ
stored tok_cint n = n % 2 ^ 32
stored tok_cuint n = n % 2 ^ 32
stored tok n = n

-- `b == 10 && *q == '0'` is an octal number.
abbrev pub radix : (b : ℕ) → List ℕ → ℕ
radix b q = if b == 10 && (head q == b'0') then 8 else b

abbrev pub without_zero : (b : ℕ) → List ℕ → List ℕ
without_zero b q = if b == 10 && (head q == b'0') then tail q else q

unfoldable pub integer_number : (b : ℕ) → (q cs : List ℕ) → Result Number
unfolding digits_value int_tok int_suffix
integer_number b q cs = digits_value (radix b q) 0 (without_zero b q) >>= λ n.
    int_suffix 0 0 (int_tok n) cs >>= λ tok. ok (integer tok (stored tok n))

abbrev pub is_float : (b ch : ℕ) → Bool
is_float b ch =
    ch == b'.'
    || (ch == b'e' || ch == b'E') && (b == 10)
    || (ch == b'p' || ch == b'P') && (b == 16 || b == 2)

-- From the loop over all digits on.
unfoldable pub number_from : (b : ℕ) → (q cs : List ℕ) → Result Number
unfolding read_digits scaled_float decimal_float integer_number
number_from b q cs = read_digits b q cs >>= λ (q1, cs1).
    if is_float b (head cs1)
    then if b == 10 then decimal_float q1 cs1 else scaled_float b q1 cs1
    else integer_number b q1 cs1

-- `t` is the first character.
unfoldable pub parse_number : (tcc_ext : Bool) → (t : ℕ) → List ℕ → Result Number
unfolding number_from float_frac_parse
parse_number tcc_ext t cs =
    let ch = head cs in
    if t == b'.'
    then float_frac_parse (t ∷ []) cs
    else if t == b'0' && (ch == b'x' || ch == b'X')
    then number_from 16 [] (tail cs)
    else if t == b'0' && (tcc_ext && (ch == b'b' || ch == b'B'))
    then number_from 2 [] (tail cs)
    else number_from 10 (t ∷ []) cs
