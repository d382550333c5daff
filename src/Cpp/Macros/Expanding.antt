-- ===== src/Cpp/Macros/Expanding.antt =====
-- Expansion (tccpp.c: macro_subst_tok, macro_subst).
use inherpreter.Prelude.{
  ℕ, zero, suc, subst, Bool, true, false, ◌&&◌, ◌||◌, Option, none, some, List, [], ◌∷◌, ◌++◌, ◌==◌,
  if◌then◌else◌, length,
}
use inherpreter.Cpp.Tokens.{one_of, cstr}
use inherpreter.Cpp.Macros.{
  Token, plain_token, tok_str, tok_ppnum, tok_nosubst, tok_linefeed, minus_one, is_space, Macro,
  Env, define_find, Spaced, add_spaced, malformed, Result, ok, error, out_of_fuel, ◌>>=◌, Input,
  read_nonspace, next_nomacro,
}
use inherpreter.Cpp.Macros.Pasting.{macro_twosharps}
use inherpreter.Cpp.Macros.Arguments.{read_args, macro_arg_subst}

-- The rest of the string that is expanded (`macro_ptr`, `none` for NULL), the tokens of the file, the
-- levels that `*can_read_stream` leads to, each with its pointer, and the names of `nested_list`.
pub record Stream : Type 0 where
  pub macro_ptr : Option (List Token)
  pub file : List Token
  pub levels : List (Option (List Token))
  pub nested : List ℕ

-- The special macros, TOK___LINE__ to TOK___TIME__.
unfoldable pub special : Env → (tok : ℕ) → Option Token
special env tok =
    let token = λ (t : ℕ) (bytes : List ℕ).
      let tk : Token = record { t = t; cval = cstr (bytes ++ 0 ∷ []) } in some tk in
    if tok == 326
    then token tok_ppnum env.line_num
    else if tok == 327
    then token tok_str env.filename
    else if tok == 328
    then token tok_str env.date
    else if tok == 329
    then token tok_str env.time
    else none

-- Where a call's arguments are read from.
abbrev pub input : Stream → Input
input st = elim st.macro_ptr [
  | none ↦ record { ended_by = minus_one; rest = st.file }
  | some p ↦ record { ended_by = 0; rest = p }
]

abbrev pub set_rest : Stream → List Token → Stream
set_rest st p = elim st.macro_ptr [
  | none ↦ record st { file = p }
  | some q ↦ record st { macro_ptr = some p }
]

-- The spaces and the ends of lines in front of `(`.
unfoldable pub skip_blank : List Token → List Token
skip_blank [] = []
skip_blank (tk ∷ ts) =
    let later = skip_blank ts in if is_space tk.t || tk.t == tok_linefeed then later else tk ∷ ts

abbrev is_empty : List Token → Bool
is_empty [] = true
is_empty (tk ∷ ts) = false

abbrev starts_paren : List Token → Bool
starts_paren [] = false
starts_paren (tk ∷ ts) = tk.t == b'('

-- `(*nested_list)->v = -1`
abbrev pub end_scope : List ℕ → List ℕ
end_scope [] = []
end_scope (v ∷ vs) = minus_one ∷ vs

abbrev in_file : Stream → Bool × Stream
in_file st = let rest = skip_blank st.file in (starts_paren rest, record st { file = rest })

-- Whether `(` follows; the blanks of the file are read. At the end of a string that is not the end
-- of the stream, the levels `levels` are left until a token is found.
unfoldable pub find_paren :
    (levels : List (Option (List Token))) → (can_read : Bool) → Stream → Bool × Stream
unfolding skip_blank
find_paren [] can_read st = elim st.macro_ptr [
  | none ↦ in_file st
  | some p ↦
      if is_empty (skip_blank p) && can_read
      then in_file (record st { macro_ptr = none; levels = []; nested = end_scope st.nested })
      else (starts_paren (skip_blank p), st)
]
find_paren (l ∷ ls) can_read st = elim st.macro_ptr [
  | none ↦ in_file st
  | some p ↦
      let outer =
        find_paren ls can_read
          (record st { macro_ptr = l; levels = ls; nested = end_scope st.nested }) in
      if is_empty (skip_blank p) && can_read then outer else (starts_paren (skip_blank p), st)
]

abbrev pub tail {ℓ} : {A : Type ℓ} → List A → List A
tail [] = []
tail (x ∷ xs) = xs

-- A stream and the string that was written.
abbrev pub Written : Type 0
Written = Stream × List Token

-- macro_subst on a string: whether `can_read_stream` is given, the stream, and the string written.
abbrev pub Subst : Type 0
Subst = Bool → Stream → (str : List Token) → (macro_str : List Token) → Result Written

-- The loop of macro_subst: it goes on with the rest of a string, or with none.
abbrev pub Loop : Type 0
Loop =
    (can_read : Bool)
    → Stream
    → Spaced
    → (force_blank : Bool) → (ptr : Option (List Token)) → Result Written

-- The stream of an argument's expansion is as before, so only the string counts.
abbrev pub expand_arg : Subst → Stream → List Token → List Token → Result (List Token)
expand_arg subst st str d = subst false st str d >>= λ w. ok w.1

module _ (env : Env) where
  -- The arguments of a call behind its `(`, put into the tokens of the macro.
  unfoldable pub call : ℕ → Subst → Macro → Stream → Result (Stream × List Token)
  unfolding read_nonspace read_args macro_arg_subst
  call f subst m st = do
    let first = next_nomacro (next_nomacro (input st)).input
    (args, c) ← read_args env.gnu_ext f m.params [] first
    let st1 = set_rest st c.input.rest
    mstr ← macro_arg_subst env (expand_arg subst st1) args 0 [] m.d
    ok (st1, mstr)

  -- The end of macro_subst_tok: the string of the macro is expanded inside its name.
  unfoldable pub rescan :
      Subst → (can_read : Bool) → Stream → (tok : ℕ) → (str mstr : List Token) → Result Written
  rescan subst can_read st tok str mstr = do
    (st1, str1) ← subst can_read (record st { nested = tok ∷ st.nested }) str mstr
    ok (record st1 { nested = tail st1.nested }, str1)

  -- A macro with parameters is substituted where `(` follows.
  unfoldable pub expand_func :
      ℕ
      → Subst
      → (can_read : Bool) → (str : List Token) → (tok : ℕ) → Macro
      → Bool × Stream
      → Result (Bool × Written)
  unfolding call rescan
  expand_func f subst can_read str tok m (false, st) = ok (false, (st, str))
  expand_func f subst can_read str tok m (true, st) = do
    (st1, mstr) ← call f subst m st
    w ← rescan subst can_read st1 tok str mstr
    ok (true, w)

  -- macro_subst_tok: whether `tok` was substituted.
  unfoldable pub macro_subst_tok :
      ℕ
      → Subst
      → (can_read : Bool) → Stream
      → (str : List Token) → (tok : ℕ) → Macro
      → Result (Bool × Written)
  unfolding special find_paren expand_func rescan
  macro_subst_tok f subst can_read st str tok m = elim (special env tok) [
    | some tk ↦ ok (true, (st, str ++ tk ∷ []))
    | none ↦
        if m.is_func
        then expand_func f subst can_read str tok m (find_paren st.levels can_read st)
        else rescan subst can_read st tok str m.d >>= λ w. ok (true, w)
  ]

  abbrev blank : Token
  blank = plain_token 32

  -- no_subst: the token is written, behind a blank where one is due.
  abbrev pub no_subst : (force_blank : Bool) → Spaced → Token → Spaced
  no_subst force_blank s tk =
      add_spaced (if force_blank then record { str = s.str ++ blank ∷ []; spc = true } else s) tk

  -- A level is entered with the rest of the string.
  abbrev pub enter : (can_read : Bool) → Stream → List Token → Stream
  enter can_read st ts = record st {
    macro_ptr = some ts;
    levels = if can_read then st.macro_ptr ∷ st.levels else st.levels;
  }

  -- The level is left, unless the end of its string was passed: `outer` is the stream before it.
  abbrev pub leave : (can_read : Bool) → (outer st : Stream) → Stream
  leave can_read outer st =
      if can_read
      then if length st.levels == suc (length outer.levels)
        then record st { macro_ptr = outer.macro_ptr; levels = tail st.levels }
        else record st { macro_ptr = none }
      else record st { macro_ptr = outer.macro_ptr }

  -- A mark TOK_NOSUBST is written without a blank before it.
  abbrev pub nosubst : Spaced → Spaced
  nosubst s = record s { str = s.str ++ plain_token tok_nosubst ∷ [] }

  abbrev pub copy_next :
      Spaced → List Token → (Spaced → Token → List Token → Result Written) → Result Written
  copy_next s [] k = error malformed
  copy_next s (next ∷ rest) k = k (nosubst s) next rest

  -- macro_subst after the search for `##`, by its loop.
  abbrev pub subst_by : Loop → Subst
  subst_by loop c st str mstr = loop c st (record { str = str; spc = false }) false (some mstr)

  abbrev pub expand_by : Loop → Subst
  expand_by loop c st str mstr = subst_by loop c st str (macro_twosharps env mstr)

  abbrev pub behind :
      Loop
      → (can_read : Bool) → (outer : Stream) → (fb : Bool) → Spaced
      → Token
      → Bool × Written
      → Result Written
  behind loop can_read outer fb s tk (done, (st, str)) =
      let st1 = leave can_read outer st in
      let s1 : Spaced = record s { str = str } in
      if done
      then loop can_read st1 s1 (env.keep_spaces || fb) st.macro_ptr
      else loop can_read st1 (no_subst fb s1 tk) false st.macro_ptr

  -- One turn of the loop of macro_subst, for the token `tk`; `loop` goes on.
  unfoldable pub turn :
      Loop
      → ℕ
      → (can_read : Bool) → Stream
      → Spaced
      → (force_blank : Bool) → Token
      → List Token
      → Result Written
  unfolding define_find macro_subst_tok macro_twosharps
  turn loop f can_read st s fb tk ts =
      let copy = λ (s1 : Spaced). loop can_read st (no_subst fb s1 tk) false (some ts) in
      if tk.t == tok_nosubst
      then copy_next s ts (λ s1 next rest. loop can_read st (no_subst fb s1 next) false (some rest))
      else elim (define_find env tk.t) [
        | none ↦ copy s
        | some m ↦
            if one_of tk.t st.nested
            then copy (nosubst s)
            else macro_subst_tok f (expand_by loop) can_read (enter can_read st ts) s.str tk.t m
              >>= behind loop can_read st fb s tk
      ]

  -- The loop of macro_subst over `ptr`, on fuel; `none` for NULL.
  unfoldable pub subst_loop : ℕ → Loop
  unfolding turn
  subst_loop zero can_read st s fb ptr = out_of_fuel
  subst_loop (suc f) can_read st s fb none = ok (st, s.str)
  subst_loop (suc f) can_read st s fb (some []) = ok (st, s.str)
  subst_loop (suc f) can_read st s fb (some (tk ∷ ts)) =
      turn (subst_loop f) f can_read st s fb tk ts

  -- macro_subst: `##` first, then the loop.
  unfoldable pub macro_subst : ℕ → Subst
  unfolding macro_twosharps subst_loop
  macro_subst f = expand_by (subst_loop f)
