-- ===== src/Tests/Tokens.antt =====
-- Strings, tokens and names.
use Prim.{tt}
use inherpreter.Prelude.{◌+◌, ◌≡◌, refl, true, false, some, [], ◌∷◌, ◌++◌, arith, length, drop}
use inherpreter.Cpp.Strings.{cstr_new, Parsed, parse_escape_string}
use inherpreter.Cpp.Strings.Escapes.{add_chars, parse_escape_string-add_chars}
use inherpreter.Cpp.Tokens.{
  tok_cldouble, kind, CValue, tab, cstr, TokenString, tok_str_new, tok_str_add2, tok_get,
}
use inherpreter.Cpp.Tokens.Encoding.{FitsKind, tok_get-tok_str_add2, tok_str_add2-overrun}

parse_escape_string-add_chars_example :
    (r : Parsed) × (parse_escape_string true false cstr_new
        (add_chars cstr_new (104 ∷ 10 ∷ 1 ∷ 55 ∷ [])).bytes
      ≡ some r)
    × (r.outstr.bytes ≡ 104 ∷ 10 ∷ 1 ∷ 55 ∷ 0 ∷ [])
    × (r.warnings ≡ 0)
parse_escape_string-add_chars_example =
    parse_escape_string-add_chars true (104 ∷ 10 ∷ 1 ∷ 55 ∷ [])
      (omega arith, (omega arith, (omega arith, (omega arith, tt))))

abbrev hi_text : CValue
hi_text = cstr (104 ∷ 105 ∷ 0 ∷ [])

hi_text-FitsKind : FitsKind (kind 0xb5) hi_text
unfolding kind
hi_text-FitsKind = (104 ∷ 105 ∷ 0 ∷ [], refl, (omega arith, (omega arith, (omega arith, tt))))

tok_get-tok_str_add2_example :
    tok_get (drop 0 ((tok_str_add2 tok_str_new 0xb5 hi_text).str ++ 59 ∷ []))
    ≡ some (0xb5, hi_text, 59 ∷ [])
tok_get-tok_str_add2_example =
    tok_get-tok_str_add2 tok_str_new 0xb5 hi_text (59 ∷ []) hi_text-FitsKind

abbrev four_tokens : TokenString
four_tokens = record { str = 59 ∷ 59 ∷ 59 ∷ 59 ∷ []; allocated_len = 8; last_line_num = 1 }

tok_str_add2-overrun_example :
    length (tok_str_add2 four_tokens tok_cldouble (tab (1 ∷ 2 ∷ 3 ∷ 0 ∷ []))).str
    ≡ (tok_str_add2 four_tokens tok_cldouble (tab (1 ∷ 2 ∷ 3 ∷ 0 ∷ []))).allocated_len + 1
tok_str_add2-overrun_example = tok_str_add2-overrun four_tokens (1 ∷ 2 ∷ 3 ∷ 0 ∷ []) refl refl
