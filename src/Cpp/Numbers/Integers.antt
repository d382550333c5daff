-- ===== src/Cpp/Numbers/Integers.antt =====
-- Integer literals with their suffixes: their values and types (tccpp.c: parse_number).
use inherpreter.Prelude.{
  ℕ, ◌+◌, ◌^◌, ◌≤◌, ◌<◌, ◌≡◌, refl, ap, ◌∙◌, inl, inr, Bool, true, false, ◌&&◌, ◌||◌, Option, none,
  some, List, [], ◌∷◌, arith, ltb, leb, ◌==◌, if◌then◌else◌, Bool-cases, length,
}
use inherpreter.Cpp.Numbers.{
  IntTok, tok_cint, tok_cuint, tok_cllong, tok_cullong, Number, integer, Result, ok, failed, ◌>>=◌,
  head, tail, toup, digit_of, int_tok, long_tok, unsigned_tok, int_suffix, stored, parse_number,
}
use inherpreter.Cpp.Numbers.Digits.{
  Digit, positional, AllBelow, cased, Radix, dec, oct, hex, base, literal, EndsDigits, Leads,
  suffixed_integer, integer_literal,
}

-- The letters of a suffix, in lower or upper case.
pub data Suffix : Type 0 where
  end_suffix : Suffix
  with_l with_u : (upper : Bool) → Suffix → Suffix

abbrev pub suffix_chars : Suffix → List ℕ
suffix_chars end_suffix = []
suffix_chars (with_l upper s) = cased upper b'l' ∷ suffix_chars s
suffix_chars (with_u upper s) = cased upper b'u' ∷ suffix_chars s

abbrev pub ls : Suffix → ℕ
ls end_suffix = 0
ls (with_l upper s) = ls s + 1
ls (with_u upper s) = ls s

abbrev pub us : Suffix → ℕ
us end_suffix = 0
us (with_l upper s) = us s
us (with_u upper s) = us s + 1

abbrev pub int_type : (long unsigned : Bool) → IntTok
int_type false false = tok_cint
int_type false true = tok_cuint
int_type true false = tok_cllong
int_type true true = tok_cullong

abbrev is_long : IntTok → Bool
is_long tok_cllong = true
is_long tok_cullong = true
is_long _ = false

abbrev is_unsigned : IntTok → Bool
is_unsigned tok_cuint = true
is_unsigned tok_cullong = true
is_unsigned _ = false

-- The result without the error.
abbrev pub accepted {ℓ} : {A : Type ℓ} → Result A → Option A
accepted (ok a) = some a
accepted (failed e) = none

int_type_lem : (tok : IntTok) → int_type (is_long tok || false) (is_unsigned tok || false) ≡ tok
int_type_lem tok_cint = refl
int_type_lem tok_cuint = refl
int_type_lem tok_cllong = refl
int_type_lem tok_cullong = refl

-- What an `l` and a `u` make of the type, before a further suffix.
long_step :
    (tok : IntTok) (a b : Bool)
    → int_type (is_long (long_tok tok) || a) (is_unsigned (long_tok tok) || b)
      ≡ int_type (is_long tok || true) (is_unsigned tok || b)
long_step tok_cint a b = refl
long_step tok_cuint a b = refl
long_step tok_cllong a b = refl
long_step tok_cullong a b = refl

unsigned_step :
    (tok : IntTok) (a b : Bool)
    → int_type (is_long (unsigned_tok tok) || a) (is_unsigned (unsigned_tok tok) || b)
      ≡ int_type (is_long tok || a) (is_unsigned tok || true)
unsigned_step tok_cint a b = refl
unsigned_step tok_cuint a b = refl
unsigned_step tok_cllong a b = refl
unsigned_step tok_cullong a b = refl

-- The type behind a suffix, if it has at most two `l` and one `u` with those that were read.
abbrev suffixed_type : (lcount ucount : ℕ) → IntTok → Suffix → Option IntTok
suffixed_type lcount ucount tok s =
    if leb (lcount + ls s) 2 && leb (ucount + us s) 1
    then some (int_type (is_long tok || ltb 0 (ls s)) (is_unsigned tok || ltb 0 (us s)))
    else none

toup_l : (upper : Bool) → (toup (cased upper b'l') == b'L') ≡ true
toup_l true = refl
toup_l false = refl

toup_u :
    (upper : Bool)
    → ((toup (cased upper b'u') == b'L') ≡ false) × ((toup (cased upper b'u') == b'U') ≡ true)
toup_u true = (refl, refl)
toup_u false = (refl, refl)

accepted-int_suffix :
    (s : Suffix) (lcount ucount : ℕ) (tok : IntTok)
    → lcount ≤ 2
    → ucount ≤ 1
    → accepted (int_suffix lcount ucount tok (suffix_chars s)) ≡ suffixed_type lcount ucount tok s
unfolding int_suffix
accepted-int_suffix end_suffix lcount ucount tok hl hu =
    let some_l : leb (lcount + 0) 2 ≡ true = ground arith in
    let some_u : leb (ucount + 0) 1 ≡ true = ground arith in
    rw (some_l, some_u, int_type_lem tok) refl
accepted-int_suffix (with_l upper s) lcount ucount tok hl hu =
    let pos : ltb 0 (ls s + 1) ≡ true = ground arith in
    elim (Bool-cases (leb 2 lcount)) [
      | inl e ↦
          let over : leb (lcount + (ls s + 1)) 2 ≡ false = ground arith in
          rw (int_suffix, toup_l upper, e, over) refl
      | inr e ↦
          let shift : lcount + 1 + ls s ≡ lcount + (ls s + 1) = omega arith in
          rw
            (
              int_suffix,
              toup_l upper,
              e,
              accepted-int_suffix s (lcount + 1) ucount (long_tok tok) (ground arith) hu,
              shift,
              pos,
              long_step tok (ltb 0 (ls s)) (ltb 0 (us s)),
            )
            refl
    ]
accepted-int_suffix (with_u upper s) lcount ucount tok hl hu =
    let pos : ltb 0 (us s + 1) ≡ true = ground arith in
    let (not_l, is_u) = toup_u upper in
    elim (Bool-cases (leb 1 ucount)) [
      | inl e ↦
          let over : leb (ucount + (us s + 1)) 1 ≡ false = ground arith in
          rw (int_suffix, not_l, is_u, e, over) (ground arith)
      | inr e ↦
          let shift : ucount + 1 + us s ≡ ucount + (us s + 1) = omega arith in
          rw
            (
              int_suffix,
              not_l,
              is_u,
              e,
              accepted-int_suffix s lcount (ucount + 1) (unsigned_tok tok) hl (ground arith),
              shift,
              pos,
              unsigned_step tok (ltb 0 (ls s)) (ltb 0 (us s)),
            )
            refl
    ]

-- Whether a value without a suffix is of an unsigned type: it needs bit 31 of 32, or bit 63 of 64.
abbrev pub needs_top_bit : ℕ → Bool
needs_top_bit n = leb (2 ^ 31) n && ltb n (2 ^ 32) || leb (2 ^ 63) n

int_tok_lem :
    (n : ℕ) → (is_long (int_tok n) ≡ leb (2 ^ 32) n) × (is_unsigned (int_tok n) ≡ needs_top_bit n)
unfolding int_tok
int_tok_lem n = (ground arith, ground arith)

stored_lem : (n : ℕ) (a b : Bool) → stored (int_type (leb (2 ^ 32) n || a) b) n ≡ n
stored_lem n a true = ground arith
stored_lem n a false = ground arith

suffix-EndsDigits : (r : Radix) (s : Suffix) → EndsDigits r (suffix_chars s)
unfolding digit_of
suffix-EndsDigits dec end_suffix = (refl, refl)
suffix-EndsDigits dec (with_l true s) = (refl, refl)
suffix-EndsDigits dec (with_l false s) = (refl, refl)
suffix-EndsDigits dec (with_u true s) = (refl, refl)
suffix-EndsDigits dec (with_u false s) = (refl, refl)
suffix-EndsDigits oct end_suffix = (refl, refl)
suffix-EndsDigits oct (with_l true s) = (refl, refl)
suffix-EndsDigits oct (with_l false s) = (refl, refl)
suffix-EndsDigits oct (with_u true s) = (refl, refl)
suffix-EndsDigits oct (with_u false s) = (refl, refl)
suffix-EndsDigits (hex upper) end_suffix = (refl, refl)
suffix-EndsDigits (hex upper) (with_l true s) = (refl, refl)
suffix-EndsDigits (hex upper) (with_l false s) = (refl, refl)
suffix-EndsDigits (hex upper) (with_u true s) = (refl, refl)
suffix-EndsDigits (hex upper) (with_u false s) = (refl, refl)

-- The number of a literal by its value and its suffix.
abbrev pub typed : (n : ℕ) → Suffix → Option Number
typed n s =
    if leb (ls s) 2 && leb (us s) 1
    then some
        (integer (int_type (leb (2 ^ 32) n || ltb 0 (ls s)) (needs_top_bit n || ltb 0 (us s))) n)
    else none

accepted-number :
    (n : ℕ) (x : Result IntTok) (y : Option IntTok)
    → accepted x ≡ y
    → accepted (x >>= λ tok. ok (integer tok (stored tok n)))
      ≡ elim y [ none ↦ none | some tok ↦ some (integer tok (stored tok n)) ]
accepted-number n (ok tok) y e = rw (← e) refl
accepted-number n (failed f) y e = rw (← e) refl

accepted-suffixed_integer :
    (n : ℕ) (s : Suffix) → accepted (suffixed_integer n (suffix_chars s)) ≡ typed n s
accepted-suffixed_integer n s =
    let suffix = accepted-int_suffix s 0 0 (int_tok n) (omega arith) (omega arith) in
    let (long, unsigned) = int_tok_lem n in
    let none_l : 0 + ls s ≡ ls s = omega arith in
    let none_u : 0 + us s ≡ us s = omega arith in
    accepted-number n (int_suffix 0 0 (int_tok n) (suffix_chars s)) _ suffix
    ∙ elim (Bool-cases (leb (ls s) 2 && leb (us s) 1)) [
      | inl e ↦
          rw
            (
              none_l,
              none_u,
              e,
              long,
              unsigned,
              stored_lem n (ltb 0 (ls s)) (needs_top_bit n || ltb 0 (us s)),
            )
            refl
      | inr e ↦ rw (none_l, none_u, e) refl
    ]

-- A decimal, octal or hexadecimal literal of up to 1023 digits below its base, in lower or upper
-- case, whose value fits in 64 bits, with letters `l` and `u` behind it in either case and any order,
-- is accepted if and only if these are at most two `l` and one `u`. Its number is then its value in
-- positional notation; it is a long type with an `l` or from 2 ^ 32 on, and an unsigned one with a
-- `u`, from 2 ^ 31 up to 2 ^ 32, or from 2 ^ 63 on. A decimal literal begins with a digit that is
-- not 0.
pub parse_number_lem :
    (tcc_ext : Bool) (r : Radix) (d : Digit) (ds : List Digit) (s : Suffix)
    → Leads r d
    → AllBelow (base r) (d ∷ ds)
    → length ds ≤ 1022
    → positional (base r) 0 (d ∷ ds) < 2 ^ 64
    → let cs = literal r d ds (suffix_chars s) in
      accepted (parse_number tcc_ext (head cs) (tail cs)) ≡ typed (positional (base r) 0 (d ∷ ds)) s
parse_number_lem tcc_ext r d ds s leads all h fits =
    ap accepted
      (integer_literal tcc_ext r d ds (suffix_chars s) leads all h (suffix-EndsDigits r s) fits)
    ∙ accepted-suffixed_integer (positional (base r) 0 (d ∷ ds)) s
