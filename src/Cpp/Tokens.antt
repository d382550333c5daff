-- ===== src/Cpp/Tokens.antt =====
-- Token strings (tccpp.c: tok_ext_size, tok_str_realloc, tok_str_add, tok_str_add2,
-- tok_str_add_tok, TOK_GET), for x86_64: a long double has 16 bytes, and a CString has 32.
pub mod Encoding
use inherpreter.Prelude.{
  ℕ, zero, suc, ◌+◌, ◌-◌, ◌*◌, ◌/◌, ◌%◌, ◌^◌, Bool, false, ◌||◌, Option, none, some, List, [], ◌∷◌,
  ◌++◌, ltb, leb, ◌==◌, if◌then◌else◌, length, get_or, drop, take,
}

-- How the value of a token is stored behind it; by the `case` labels of the three functions.
pub data Kind : Type 0 where
  plain : Kind
  words : ℕ → Kind
  text : Kind

abbrev pub one_of : ℕ → List ℕ → Bool
one_of t [] = false
one_of t (u ∷ us) = t == u || one_of t us

-- TOK_CINT, TOK_CUINT, TOK_CCHAR, TOK_LCHAR, TOK_CFLOAT and TOK_LINENUM; TOK_PPNUM, TOK_STR and
-- TOK_LSTR; TOK_CDOUBLE, TOK_CLLONG and TOK_CULLONG; TOK_CLDOUBLE.
abbrev pub tok_linenum : ℕ
tok_linenum = 0xba

abbrev pub tok_cldouble : ℕ
tok_cldouble = 0xc1

unfoldable pub kind : ℕ → Kind
kind t =
    if one_of t (0xb3 ∷ 0xc8 ∷ 0xb4 ∷ 0xb7 ∷ 0xb9 ∷ tok_linenum ∷ [])
    then words 1
    else if one_of t (0xce ∷ 0xb5 ∷ 0xb8 ∷ [])
    then text
    else if one_of t (0xc0 ∷ 0xc9 ∷ 0xca ∷ [])
    then words 2
    else if t == tok_cldouble
    then words 4
    else plain

-- `none` is the error "unsupported token".
unfoldable pub tok_ext_size : ℕ → Option ℕ
unfolding kind
tok_ext_size t = elim (kind t) [ plain ↦ some 0 | words n ↦ some n | text ↦ none ]

-- A CValue: the ints of `tab`, or the bytes of `cstr`.
pub data CValue : Type 0 where
  tab : List ℕ → CValue
  cstr : List ℕ → CValue

-- The ints up to `len`, and the number of ints in the allocated block. `last_line_num` is the bit
-- pattern of an int.
pub record TokenString : Type 0 where
  pub str : List ℕ
  pub allocated_len : ℕ
  pub last_line_num : ℕ

abbrev pub tok_str_new : TokenString
tok_str_new = record { str = []; allocated_len = 0; last_line_num = 2 ^ 32 - 1 }

unfoldable pub tok_str_realloc : TokenString → TokenString
tok_str_realloc s = record s {
  allocated_len = if s.allocated_len == 0 then 8 else s.allocated_len * 2;
}

unfoldable pub tok_str_add : TokenString → (t : ℕ) → TokenString
unfolding tok_str_realloc
tok_str_add s t =
    let grown = if leb s.allocated_len (length s.str) then tok_str_realloc s else s in
    record grown { str = s.str ++ t ∷ [] }

-- `while ((len + nb_words) > s->allocated_len) str = tok_str_realloc(s);`, on fuel.
unfoldable pub realloc_until : ℕ → TokenString → (needed : ℕ) → TokenString
unfolding tok_str_realloc
realloc_until zero s needed = s
realloc_until (suc fuel) s needed =
    let rest = realloc_until fuel (tok_str_realloc s) needed in
    if ltb s.allocated_len needed then rest else s

-- Bytes in ints, the lowest byte first; the last int is filled up with 0, where the code leaves what
-- the block held.
unfoldable pub pack : List ℕ → List ℕ
pack [] = []
pack (a ∷ []) = a ∷ []
pack (a ∷ b ∷ []) = (a + b * 256) ∷ []
pack (a ∷ b ∷ c ∷ []) = (a + b * 256 + c * 65536) ∷ []
pack (a ∷ b ∷ c ∷ d ∷ bs) = (a + b * 256 + c * 65536 + d * 16777216) ∷ pack bs

-- The CString that is stored: its fields `size`, `data`, `size_allocated` and `data_allocated`, and
-- the unused bytes between them (taken to be 0), then the text.
unfoldable pub stored_text : List ℕ → List ℕ
unfolding pack
stored_text bytes = length bytes ∷ 0 ∷ 0 ∷ 0 ∷ length bytes ∷ 0 ∷ 0 ∷ 0 ∷ pack bytes

abbrev pub text_words : ℕ → ℕ
text_words size = (32 + size + 3) / 4

abbrev pub take_words : ℕ → CValue → List ℕ
take_words n (tab ws) = take n ws
take_words n (cstr bytes) = []

abbrev pub text_of : CValue → List ℕ
text_of (tab ws) = []
text_of (cstr bytes) = bytes

-- Room is made for `TOK_MAX_SIZE` ints, which is 4.
abbrev reserve : TokenString → TokenString
reserve s = if ltb s.allocated_len (length s.str + 4) then tok_str_realloc s else s

abbrev put_value : Kind → TokenString → (t : ℕ) → CValue → TokenString
put_value plain s t cv = record s { str = s.str ++ t ∷ [] }
put_value (words n) s t cv = record s { str = s.str ++ t ∷ take_words n cv }
put_value text s t cv =
    let bytes = text_of cv in
    let needed = length s.str + 1 + text_words (length bytes) in
    record (realloc_until needed s needed) { str = s.str ++ t ∷ stored_text bytes }

unfoldable pub tok_str_add2 : TokenString → (t : ℕ) → CValue → TokenString
unfolding tok_str_realloc realloc_until stored_text kind
tok_str_add2 s t cv = put_value (kind t) (reserve s) t cv

-- The current token `tok` with its value `tokc`, behind the line number where that has changed.
unfoldable pub tok_str_add_tok : TokenString → (line_num tok : ℕ) → (tokc : CValue) → TokenString
unfolding tok_str_add2
tok_str_add_tok s line_num tok tokc =
    let numbered = record s { last_line_num = line_num } in
    let s1 =
      if line_num == s.last_line_num
      then s
      else tok_str_add2 numbered tok_linenum (tab (line_num ∷ [])) in
    tok_str_add2 s1 tok tokc

unfoldable pub unpack : List ℕ → List ℕ
unpack [] = []
unpack (w ∷ ws) = w % 256 ∷ w / 256 % 256 ∷ w / 65536 % 256 ∷ w / 16777216 % 256 ∷ unpack ws

-- What is read from the ints behind the token: its value, and the ints that follow it.
unfoldable pub get_value : Kind → List ℕ → CValue × List ℕ
unfolding unpack
get_value plain p = (tab [], p)
get_value (words n) p = (tab (take n p), drop n p)
get_value text p =
    let size = get_or p 0 0 in (cstr (take size (unpack (drop 8 p))), drop (text_words size) p)

unfoldable pub tok_get : List ℕ → Option (ℕ × CValue × List ℕ)
unfolding get_value kind
tok_get [] = none
tok_get (t ∷ p) = let (cv, rest) = get_value (kind t) p in some (t, cv, rest)
