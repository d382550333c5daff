-- ===== src/Cpp/Strings.antt =====
-- Growing strings and the escapes in them (tccpp.c: cstr_realloc, cstr_ccat, cstr_wccat, cstr_cat,
-- cstr_reset, add_char, parse_escape_string).
pub mod Escapes
use inherpreter.Prelude.{
  ℕ, zero, suc, ◌+◌, ◌-◌, ◌*◌, ◌/◌, ◌%◌, Bool, true, false, ◌&&◌, ◌||◌, Option, none, some, List,
  [], ◌∷◌, ◌++◌, ltb, leb, ◌==◌, if◌then◌else◌, to_nat, length,
}
use inherpreter.Prelude.Doubling.{double_until}

-- The bytes up to `size`; `size` is their number.
pub record CString : Type 0 where
  pub bytes : List ℕ
  pub size_allocated : ℕ

abbrev pub cstr_new : CString
cstr_new = record { bytes = []; size_allocated = 0 }

unfoldable pub cstr_realloc : CString → (new_size : ℕ) → CString
unfolding double_until
cstr_realloc cstr new_size =
    let size = cstr.size_allocated in
    record cstr { size_allocated = double_until new_size (if size == 0 then 8 else size) new_size }

-- Room for `n` more bytes, and the bytes.
abbrev add_bytes : CString → List ℕ → CString
add_bytes cstr bs =
    let size = length cstr.bytes + length bs in
    let grown = if ltb cstr.size_allocated size then cstr_realloc cstr size else cstr in
    record grown { bytes = cstr.bytes ++ bs }

-- Adds a byte: `ch` is cut to an unsigned char.
unfoldable pub cstr_ccat : CString → (ch : ℕ) → CString
unfolding cstr_realloc
cstr_ccat cstr ch = add_bytes cstr (ch % 256 ∷ [])

unfoldable pub cstr_cat : CString → List ℕ → CString
unfolding cstr_ccat
cstr_cat cstr [] = cstr
cstr_cat cstr (c ∷ str) = cstr_cat (cstr_ccat cstr c) str

-- Adds a wide char of four bytes, the lowest byte first.
unfoldable pub cstr_wccat : CString → (ch : ℕ) → CString
unfolding cstr_realloc
cstr_wccat cstr ch =
    add_bytes cstr (ch % 256 ∷ ch / 0x100 % 256 ∷ ch / 0x10000 % 256 ∷ ch / 0x1000000 % 256 ∷ [])

unfoldable pub cstr_reset : CString → CString
cstr_reset cstr = record cstr { bytes = [] }

abbrev is_quoted : ℕ → Bool
is_quoted c = c == 39 || c == 34 || c == 92

-- `c` is a byte.
unfoldable pub add_char : CString → (c : ℕ) → CString
add_char cstr c =
    let cstr1 = if is_quoted c then cstr_ccat cstr 92 else cstr in
    if leb 32 c && leb c 126
    then cstr_ccat cstr1 c
    else let cstr2 = cstr_ccat cstr1 92 in
      if c == 10
      then cstr_ccat cstr2 110
      else cstr_ccat (cstr_ccat (cstr_ccat cstr2 (48 + c / 64 % 8)) (48 + c / 8 % 8)) (48 + c % 8)

abbrev pub is_oct : ℕ → Bool
is_oct c = leb b'0' c && leb c b'7'

abbrev hex_value : ℕ → Option ℕ
hex_value c =
    if leb b'a' c && leb c b'f'
    then some (c - b'a' + 10)
    else if leb b'A' c && leb c b'F'
    then some (c - b'A' + 10)
    else if leb b'0' c && leb c b'9'
    then some (c - b'0')
    else none

-- The loop of `\x`. An int would keep the low bits of `n`, and no more than those are stored.
unfoldable pub hex_digits : (n : ℕ) → List ℕ → ℕ × List ℕ
hex_digits n [] = (n, [])
hex_digits n (c ∷ p) = elim (hex_value c) [ none ↦ (n, c ∷ p) | some d ↦ hex_digits (n * 16 + d) p ]

-- At most two more octal digits.
unfoldable pub oct_digits : (n left : ℕ) → List ℕ → ℕ × List ℕ
oct_digits n left [] = (n, [])
oct_digits n zero (c ∷ p) = (n, c ∷ p)
oct_digits n (suc left) (c ∷ p) =
    let more = oct_digits (n * 8 + (c - b'0')) left p in if is_oct c then more else (n, c ∷ p)

-- The single letters; `none` is an unknown escape.
abbrev letter : (gnu_ext : Bool) → ℕ → Option ℕ
letter gnu_ext c =
    if c == b'a'
    then some 7
    else if c == b'b'
    then some 8
    else if c == b'f'
    then some 12
    else if c == b'n'
    then some 10
    else if c == b'r'
    then some 13
    else if c == b't'
    then some 9
    else if c == b'v'
    then some 11
    else if c == b'e' && gnu_ext
    then some 27
    else if c == 39 || c == 34 || c == 92 || c == b'?'
    then some c
    else none

-- One character: its value, what follows it, and whether the escape was unknown.
pub record Char1 : Type 0 where
  pub value : ℕ
  pub rest : List ℕ
  pub warned : Bool

abbrev of_digits : ℕ × List ℕ → Option Char1
of_digits (n, rest) = some (record { value = n; rest = rest; warned = false })

abbrev of_letter : Option ℕ → ℕ → List ℕ → Option Char1
of_letter (some d) c p = some (record { value = d; rest = p; warned = false })
of_letter none c p = some (record { value = c; rest = p; warned = true })

-- What stands behind a backslash. `none`: the string ends there, and the code reads past its end.
unfoldable pub escape : (gnu_ext : Bool) → List ℕ → Option Char1
escape gnu_ext [] = none
escape gnu_ext (c ∷ p) =
    if is_oct c
    then of_digits (oct_digits (c - b'0') 2 p)
    else if c == b'x' || c == b'u' || c == b'U'
    then of_digits (hex_digits 0 p)
    else of_letter (letter gnu_ext c) c p

unfoldable pub next_char : (gnu_ext : Bool) → ℕ → List ℕ → Option Char1
unfolding escape
next_char gnu_ext c p =
    if c == 92 then escape gnu_ext p else some (record { value = c; rest = p; warned = false })

abbrev emit : (is_long : Bool) → CString → ℕ → CString
emit true outstr c = cstr_wccat outstr c
emit false outstr c = cstr_ccat outstr c

-- The string being built, and the number of warnings.
pub record Parsed : Type 0 where
  pub outstr : CString
  pub warnings : ℕ

-- The loop, on fuel.
unfoldable pub parse_chars : (gnu_ext is_long : Bool) → ℕ → Parsed → List ℕ → Option Parsed
unfolding next_char cstr_ccat cstr_wccat
parse_chars gnu_ext is_long fuel s [] = some (record s { outstr = emit is_long s.outstr 0 })
parse_chars gnu_ext is_long zero s (c ∷ p) = none
parse_chars gnu_ext is_long (suc fuel) s (c ∷ p) = elim (next_char gnu_ext c p) [
  | none ↦ none
  | some r ↦
      parse_chars gnu_ext is_long fuel
        (record { outstr = emit is_long s.outstr r.value; warnings = s.warnings + to_nat r.warned })
        r.rest
]

-- `buf` is the string without its terminating 0. Each round reads a byte or more.
unfoldable pub parse_escape_string : (gnu_ext is_long : Bool) → CString → List ℕ → Option Parsed
unfolding parse_chars
parse_escape_string gnu_ext is_long outstr buf =
    parse_chars gnu_ext is_long (length buf) (record { outstr = outstr; warnings = 0 }) buf
