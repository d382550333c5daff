-- ===== src/Cpp/Macros/Arguments.antt =====
-- The arguments of a macro call (tccpp.c: the loops of macro_subst_tok that read them, and
-- macro_arg_subst, which puts them into the macro's tokens).
use inherpreter.Prelude.{
  ℕ, zero, suc, ◌+◌, ◌-◌, Bool, false, not, ◌&&◌, ◌||◌, Option, none, some, List, [], ◌∷◌, ◌++◌,
  ltb, leb, ◌==◌, if◌then◌else◌, length,
}
use inherpreter.Cpp.Idents.{tok_ident_base}
use inherpreter.Cpp.Tokens.{plain, words, text, kind, cstr, stored_text, take_words, text_of}
use inherpreter.Cpp.Macros.{
  Token, plain_token, tok_str, tok_twosharps, tok_linefeed, minus_one, is_space, Param, Env, Spaced,
  add_spaced, drop_last, trimmed, too_many_args, too_few_args, expected_comma, malformed, Result,
  ok, error, out_of_fuel, ◌>>=◌, Cursor, next_nomacro_spc, next_nomacro,
}

abbrev not_line : Token → Token
not_line tk = if tk.t == tok_linefeed then record tk { t = 32 } else tk

abbrev pub nesting : (parlevel t : ℕ) → ℕ
nesting parlevel t =
    if t == b'(' then parlevel + 1 else if t == b')' then parlevel - 1 else parlevel

-- The test of the inner loop.
abbrev pub in_arg : (va : Bool) → (parlevel t : ℕ) → Bool
in_arg va parlevel t =
    (ltb 0 parlevel || (not (t == b')') && (not (t == b',') || va))) && not (t == minus_one)

-- The inner loop, which reads one argument, on fuel.
unfoldable pub read_arg :
    ℕ → (va : Bool) → (parlevel : ℕ) → Spaced → Cursor → Result (Spaced × Cursor)
read_arg zero va parlevel s c = out_of_fuel
read_arg (suc f) va parlevel s c =
    let rest =
      read_arg f va (nesting parlevel c.tok.t) (add_spaced s (not_line c.tok))
        (next_nomacro_spc c.input) in
    if in_arg va parlevel c.tok.t then rest else ok (s, c)

-- An argument under the name of its parameter.
pub record Arg : Type 0 where
  pub v : ℕ
  pub va : Bool
  pub d : List Token

abbrev next_va : List Param → Bool
next_va [] = false
next_va (p ∷ ps) = p.va

-- The outer loop, over the parameters `sa`; the latest argument comes first.
unfoldable pub read_args :
    (gnu_ext : Bool) → ℕ → List Param → List Arg → Cursor → Result (List Arg × Cursor)
unfolding read_arg
read_args gnu_ext f [] [] c = if c.tok.t == b')' then ok ([], c) else error too_many_args
read_args gnu_ext f [] (a ∷ args) c = error too_many_args
read_args gnu_ext f (p ∷ sa) args c = do
  (s, c1) ← read_arg f p.va 0 (record { str = []; spc = false }) c
  let args1 = record { v = p.v; va = p.va; d = trimmed s } ∷ args
  let omitted = read_args gnu_ext f sa args1 c1
  let others = read_args gnu_ext f sa args1 (next_nomacro c1.input)
  if c1.tok.t == b')'
      then if next_va sa && gnu_ext
        then omitted
        else elim sa [ [] ↦ ok (args1, c1) | q ∷ qs ↦ error too_few_args ]
      else if c1.tok.t == b','
      then others
      else error expected_comma

-- sym_find2 on the arguments.
unfoldable pub find_arg : List Arg → (t : ℕ) → Option Arg
find_arg [] t = none
find_arg (a ∷ args) t = if a.v == t then some a else find_arg args t

-- The argument that an identifier stands for.
abbrev pub named : List Arg → (t : ℕ) → Option Arg
named args t = if leb tok_ident_base t then find_arg args t else none

-- The text that `#` makes of an argument, without its last space.
unfoldable pub stringized : (Token → List ℕ) → List Token → (out : List ℕ) → (spc : Bool) → List ℕ
unfolding drop_last
stringized str [] out spc = if spc then drop_last out else out
stringized str (tk ∷ ts) out spc =
    if is_space tk.t && spc
    then stringized str ts out spc
    else stringized str ts (out ++ str tk) (is_space tk.t)

unfoldable pub last_or {ℓ} : {A : Type ℓ} → A → List A → A
last_or d [] = d
last_or d (x ∷ xs) = last_or x xs

-- The ints of a string of tokens.
unfoldable pub ints : List Token → List ℕ
unfolding stored_text kind
ints [] = []
ints (tk ∷ ts) = elim (kind tk.t) [
  | plain ↦ tk.t ∷ ints ts
  | words n ↦ tk.t ∷ (take_words n tk.cval ++ ints ts)
  | text ↦ tk.t ∷ (stored_text (text_of tk.cval) ++ ints ts)
]

-- Of the test for `,` before the last int: it is a token, or 44 in the value of the token before the
-- last one, or in that of the last one.
pub data Comma : Type 0 where
  comma other in_value in_last : Comma

abbrev one_int : Token → Bool
one_int tk = length (ints (tk ∷ [])) == 1

abbrev found : Token → Token → Comma
found before last = if one_int last then if before.t == b',' then comma else in_value else in_last

unfoldable pub comma_before : List Token → Comma
unfolding ints last_or drop_last
comma_before str =
    let nothing = plain_token 0 in
    let last = last_or nothing str in
    let before = last_or nothing (drop_last str) in
    if last_or 0 (drop_last (ints str)) == b',' then found before last else other

module _ (env : Env) where
  -- macro_arg_subst on an argument next to `##`.
  unfoldable pub paste_arg : (last_tok : ℕ) → Arg → List Token → Result (List Token)
  unfolding comma_before drop_last
  paste_arg last_tok a str =
      if env.gnu_ext && a.va && (last_tok == tok_twosharps)
      then elim (comma_before str) [
        | other ↦ ok (str ++ a.d)
        | comma ↦ elim a.d [
          | [] ↦ ok (drop_last (drop_last str))
          | x ∷ xs ↦ ok (drop_last str ++ (x ∷ xs))
        ]
        | in_value ↦ elim a.d [ [] ↦ error malformed | x ∷ xs ↦ ok (drop_last str ++ (x ∷ xs)) ]
        | in_last ↦ error malformed
      ]
      else ok (str ++ a.d)

  abbrev is_twosharps : List Token → Bool
  is_twosharps [] = false
  is_twosharps (tk ∷ ts) = tk.t == tok_twosharps

  -- macro_arg_subst; `expand` is macro_subst on an argument, behind the string.
  unfoldable pub macro_arg_subst :
      (expand : List Token → List Token → Result (List Token))
      → (args : List Arg) → (last_tok : ℕ) → (str macro_str : List Token) → Result (List Token)
  unfolding find_arg paste_arg stringized
  macro_arg_subst expand args last_tok str [] = ok str
  macro_arg_subst expand args last_tok str (tk ∷ []) =
      if tk.t == b'#' then ok str else elim (named args tk.t) [
        | none ↦ ok (str ++ tk ∷ [])
        | some a ↦ if last_tok == tok_twosharps then paste_arg last_tok a str else expand str a.d
      ]
  macro_arg_subst expand args last_tok str (tk ∷ next ∷ ts) =
      if tk.t == b'#'
      then elim (find_arg args next.t) [
        | none ↦ macro_arg_subst expand args next.t (str ++ next ∷ []) ts
        | some a ↦
            macro_arg_subst expand args (last_or next a.d).t
              (str
                ++ (record {
                  t = tok_str;
                  cval = cstr (stringized env.get_tok_str a.d [] false ++ 0 ∷ []);
                }
                    ∷ []))
              ts
      ]
      else elim (named args tk.t) [
        | none ↦ macro_arg_subst expand args tk.t (str ++ tk ∷ []) (next ∷ ts)
        | some a ↦
            (if next.t == tok_twosharps || last_tok == tok_twosharps
              then paste_arg last_tok a str
              else expand str a.d)
            >>= λ str1. macro_arg_subst expand args tk.t str1 (next ∷ ts)
      ]
