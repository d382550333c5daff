-- ===== src/Cpp/Strings/Escapes.antt =====
-- Quoting a string and reading it back.
use native.Mathlib.Nat.{mod-eq_of_lt}
use inherpreter.Prelude.{
  ℕ, zero, suc, ◌+◌, ◌-◌, ◌*◌, ◌/◌, ◌%◌, ◌≤◌, ◌<◌, ◌≡◌, refl, sym, ◌∙◌, inl, inr, Bool, true, false,
  ◌&&◌, Option, some, List, [], ◌∷◌, ◌++◌, append_assoc, append-nil, arith, leb, ◌==◌,
  if◌then◌else◌, Bool-cases, length, length-append,
}
use inherpreter.Prelude.Doubling.{double_until_bounds}
use inherpreter.Cpp.Strings.{
  CString, cstr_new, cstr_realloc, cstr_ccat, is_quoted, add_char, is_oct, oct_digits, escape,
  next_char, Parsed, parse_chars, parse_escape_string,
}

-- The bytes of a string never outgrow its buffer.
abbrev pub Fits : CString → Type 0
Fits s = length s.bytes ≤ s.size_allocated

cstr_ccat_lem :
    (s : CString) (c : ℕ) → ((cstr_ccat s c).bytes ≡ s.bytes ++ c % 256 ∷ []) × Fits (cstr_ccat s c)
unfolding cstr_ccat cstr_realloc
cstr_ccat_lem s c =
    let n = length s.bytes + 1 in
    let b = double_until_bounds n (if s.size_allocated == 0 then 8 else s.size_allocated) n in
    (ground arith, ground (arith, length-append s.bytes (c % 256 ∷ []), b))

cstr_ccat_bytes : (s : CString) (c : ℕ) → (cstr_ccat s c).bytes ≡ s.bytes ++ c % 256 ∷ []
cstr_ccat_bytes s c = (cstr_ccat_lem s c).0

-- The bytes that stand for one byte in a quoted string.
quoted : ℕ → List ℕ
quoted c =
    if is_quoted c
    then 92 ∷ c ∷ []
    else if leb 32 c && leb c 126
    then c ∷ []
    else if c == 10
    then 92 ∷ 110 ∷ []
    else 92 ∷ (48 + c / 64 % 8) ∷ (48 + c / 8 % 8) ∷ (48 + c % 8) ∷ []

add_char-quoted : (s : CString) (c : ℕ) → c < 256 → (add_char s c).bytes ≡ s.bytes ++ quoted c
unfolding add_char quoted
add_char-quoted s c h = elim (Bool-cases (is_quoted c)) [
  | inl q ↦ elim (Bool-cases (leb 32 c && leb c 126)) [
    | inl p ↦ rw (q, p) (simp (cstr_ccat_bytes, append_assoc) (ground arith))
    | inr p ↦ absurd (ground arith)
  ]
  | inr q ↦ elim (Bool-cases (leb 32 c && leb c 126)) [
    | inl p ↦ rw (q, p) (simp (cstr_ccat_bytes, append_assoc) (ground arith))
    | inr p ↦ elim (Bool-cases (c == 10)) [
      | inl n ↦ rw (q, p, n) (simp (cstr_ccat_bytes, append_assoc) (ground arith))
      | inr n ↦ rw (q, p, n) (simp (cstr_ccat_bytes, append_assoc) (ground arith))
    ]
  ]
]

-- One byte, quoted, is read back as that byte, whatever follows.
IsRead : Bool → ℕ → List ℕ → List ℕ → Type 0
IsRead gnu_ext c rest [] = ⊥
IsRead gnu_ext c rest (d ∷ p) =
    next_char gnu_ext d p ≡ some (record { value = c; rest = rest; warned = false })

oct_digits_done : (n : ℕ) (rest : List ℕ) → oct_digits n 0 rest ≡ (n, rest)
unfolding oct_digits
oct_digits_done n [] = refl
oct_digits_done n (c ∷ rest) = refl

escape_octal :
    (gnu_ext : Bool) (a b e : ℕ) (rest : List ℕ)
    → a < 8
    → b < 8
    → e < 8
    → next_char gnu_ext 92 ((48 + a) ∷ (48 + b) ∷ (48 + e) ∷ rest)
      ≡ some (record { value = a * 64 + b * 8 + e; rest = rest; warned = false })
unfolding next_char escape oct_digits
escape_octal gnu_ext a b e rest ha hb he =
    let oa : is_oct (48 + a) ≡ true = ground arith in
    let ob : is_oct (48 + b) ≡ true = ground arith in
    let oe : is_oct (48 + e) ≡ true = ground arith in
    let value : ((48 + a - 48) * 8 + (48 + b - 48)) * 8 + (48 + e - 48) ≡ a * 64 + b * 8 + e =
      omega arith in
    rw (oa, ob, oe, value, oct_digits_done)

next_char-quoted :
    (gnu_ext : Bool) (c : ℕ) (rest : List ℕ) → c < 256 → IsRead gnu_ext c rest (quoted c ++ rest)
unfolding next_char escape quoted oct_digits IsRead
next_char-quoted gnu_ext c rest h = elim (Bool-cases (is_quoted c)) [
  | inl q ↦ rw q (ground arith)
  | inr q ↦ elim (Bool-cases (leb 32 c && leb c 126)) [
    | inl p ↦ rw (q, p) (ground arith)
    | inr p ↦ elim (Bool-cases (c == 10)) [
      | inl n ↦ rw (q, p, n) (ground arith)
      | inr n ↦
          rw (q, p, n)
            (escape_octal gnu_ext (c / 64 % 8) (c / 8 % 8) (c % 8) rest (omega arith) (omega arith)
                (omega arith)
              ∙ ground arith)
    ]
  ]
]

-- A whole string, quoted byte by byte.
unfoldable pub add_chars : CString → List ℕ → CString
add_chars s [] = s
add_chars s (c ∷ cs) = add_chars (add_char s c) cs

quote : List ℕ → List ℕ
quote [] = []
quote (c ∷ cs) = quoted c ++ quote cs

abbrev pub AreBytes : List ℕ → Type 0
AreBytes [] = Unit {0}
AreBytes (c ∷ cs) = (c < 256) × AreBytes cs

add_chars-quote :
    (s : CString) (cs : List ℕ) → AreBytes cs → (add_chars s cs).bytes ≡ s.bytes ++ quote cs
unfolding add_chars quote
add_chars-quote s [] h = sym (append-nil s.bytes)
add_chars-quote s (c ∷ cs) (b, h) =
    add_chars-quote (add_char s c) cs h
    ∙ rw (add_char-quoted s c b) (append_assoc s.bytes (quoted c) (quote cs))

length-quoted-pos : (c : ℕ) → 0 < length (quoted c)
unfolding quoted
length-quoted-pos c = ground arith

length-quote-le : (cs : List ℕ) → length cs ≤ length (quote cs)
unfolding quote
length-quote-le [] = omega arith
length-quote-le (c ∷ cs) =
    omega (arith, length-quote-le cs, length-quoted-pos c, length-append (quoted c) (quote cs))

-- The reading of a string ends in `out`, with no more warnings than before.
abbrev Reads : (s : Parsed) (out : List ℕ) → Option Parsed → Type 0
Reads s out result =
    (r : Parsed) × (result ≡ some r) × (r.outstr.bytes ≡ out) × (r.warnings ≡ s.warnings)

step :
    (gnu_ext : Bool) (fuel c : ℕ) (s : Parsed) (text rest : List ℕ)
    → IsRead gnu_ext c rest text
    → parse_chars gnu_ext false (suc fuel) s text
      ≡ parse_chars gnu_ext false fuel
          (record { outstr = cstr_ccat s.outstr c; warnings = s.warnings + 0 })
          rest
unfolding parse_chars IsRead
step gnu_ext fuel c s [] rest h = elim h [ ]
step gnu_ext fuel c s (d ∷ p) rest h = rw (h, parse_chars)

parse_chars_end :
    (gnu_ext : Bool) (fuel : ℕ) (s : Parsed)
    → parse_chars gnu_ext false fuel s [] ≡ some (record s { outstr = cstr_ccat s.outstr 0 })
unfolding parse_chars
parse_chars_end gnu_ext zero s = refl
parse_chars_end gnu_ext (suc fuel) s = refl

parse_chars-quote :
    (gnu_ext : Bool) (fuel : ℕ) (s : Parsed) (cs : List ℕ)
    → length cs ≤ fuel
    → AreBytes cs
    → Reads s (s.outstr.bytes ++ (cs ++ 0 ∷ [])) (parse_chars gnu_ext false fuel s (quote cs))
unfolding quote
parse_chars-quote gnu_ext fuel s [] le h = (
  record s { outstr = cstr_ccat s.outstr 0 },
  parse_chars_end gnu_ext fuel s,
  cstr_ccat_bytes s.outstr 0,
  refl,
)
parse_chars-quote gnu_ext zero s (c ∷ cs) le h = absurd (omega arith)
parse_chars-quote gnu_ext (suc fuel) s (c ∷ cs) le (b, h) =
    let next : Parsed = record { outstr = cstr_ccat s.outstr c; warnings = s.warnings + 0 } in
    let (r, e, bytes, w) = parse_chars-quote gnu_ext fuel next cs (omega arith) h in
    (
      r,
      step gnu_ext fuel c s (quoted c ++ quote cs) (quote cs)
            (next_char-quoted gnu_ext c (quote cs) b)
          ∙ e,
      bytes
          ∙ rw (cstr_ccat_bytes s.outstr c, mod-eq_of_lt b)
              (append_assoc s.outstr.bytes (c ∷ []) (cs ++ 0 ∷ [])),
      omega (arith, w),
    )

-- Quoting any bytes with add_char, and reading the result with parse_escape_string, gives the bytes
-- back, with the terminating 0 behind them, and no warning.
pub parse_escape_string-add_chars :
    (gnu_ext : Bool) (cs : List ℕ)
    → AreBytes cs
    → (r : Parsed) × (parse_escape_string gnu_ext false cstr_new (add_chars cstr_new cs).bytes
        ≡ some r)
      × (r.outstr.bytes ≡ cs ++ 0 ∷ [])
      × (r.warnings ≡ 0)
unfolding parse_escape_string
parse_escape_string-add_chars gnu_ext cs h = rw (add_chars-quote cstr_new cs h) (
    parse_chars-quote gnu_ext (length (quote cs)) (record { outstr = cstr_new; warnings = 0 }) cs
      (length-quote-le cs) h)
