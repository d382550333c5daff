-- ===== src/Cpp/Macros/Endless.antt =====
-- A call whose arguments do not end in the macro's string.
use Prim.{tt}
use inherpreter.Prelude.{
  ℕ, zero, suc, ◌≡◌, refl, subst, ◌≢◌, inl, inr, Bool, true, false, ◌||◌, Option, none, some, List,
  [], ◌∷◌, arith, ltb, ◌==◌, Bool-cases,
}
use inherpreter.Cpp.Tokens.{tok_linenum}
use inherpreter.Cpp.Macros.{
  Token, minus_one, is_space, Param, Macro, Env, Spaced, out_of_fuel, Cursor, read_token,
  next_nomacro_spc, read_nonspace,
}
use inherpreter.Cpp.Macros.Arguments.{in_arg, read_arg, read_args}
use inherpreter.Cpp.Macros.Expanding.{
  Stream, special, skip_blank, find_paren, Subst, call, expand_func, macro_subst_tok,
}

-- A token that ends no argument.
abbrev IsInside : ℕ → Type 0
IsInside t = (t ≢ b')') × (t ≢ b',') × (t ≢ minus_one)

abbrev pub IsOpen : List Token → Type 0
IsOpen [] = Unit
IsOpen (tk ∷ ts) = IsInside tk.t × IsOpen ts

abbrev OpenCursor : Cursor → Type 0
OpenCursor c = IsInside c.tok.t × (c.input.ended_by ≡ 0) × IsOpen c.input.rest

zero-IsInside : IsInside 0
zero-IsInside = (omega arith, omega arith, omega arith)

read_token-OpenCursor : (ts : List Token) → IsOpen ts → OpenCursor (read_token 0 ts)
unfolding read_token
read_token-OpenCursor [] h = (zero-IsInside, refl, tt)
read_token-OpenCursor (tk ∷ ts) (inside, open_ts) = elim (Bool-cases (tk.t == tok_linenum)) [
  | inl e ↦ rw e (read_token-OpenCursor ts open_ts)
  | inr e ↦ rw e (inside, refl, open_ts)
]

read_nonspace-OpenCursor : (ts : List Token) → IsOpen ts → OpenCursor (read_nonspace 0 ts)
unfolding read_nonspace
read_nonspace-OpenCursor [] h = (zero-IsInside, refl, tt)
read_nonspace-OpenCursor (tk ∷ ts) (inside, open_ts) =
    elim (Bool-cases (tk.t == tok_linenum || is_space tk.t)) [
      | inl e ↦ rw e (read_nonspace-OpenCursor ts open_ts)
      | inr e ↦ rw e (inside, refl, open_ts)
    ]

in_arg-open : (va : Bool) (parlevel t : ℕ) → IsInside t → in_arg va parlevel t ≡ true
in_arg-open va parlevel t (a, b, c) =
    let paren : (t == b')') ≡ false = ground arith in
    let separator : (t == b',') ≡ false = ground arith in
    let ended : (t == minus_one) ≡ false = ground arith in
    elim (Bool-cases (ltb 0 parlevel)) [
      | inl e ↦ rw (e, ended) refl
      | inr e ↦ rw (e, paren, separator, ended) refl
    ]

read_arg-endless :
    (f : ℕ) (va : Bool) (parlevel : ℕ) (s : Spaced) (c : Cursor)
    → OpenCursor c
    → read_arg f va parlevel s c ≡ out_of_fuel
unfolding read_arg
read_arg-endless zero va parlevel s c h = refl
read_arg-endless (suc f) va parlevel s c (inside, ended, open_rest) =
    let more = in_arg-open va parlevel c.tok.t inside in
    let next : OpenCursor (next_nomacro_spc c.input) =
      rw ended (read_token-OpenCursor c.input.rest open_rest) in
    rw more (read_arg-endless f va _ _ (next_nomacro_spc c.input) next)

find_paren-here :
    (levels : List (Option (List Token))) (can_read : Bool) (st : Stream) (paren : Token)
    (ts : List Token)
    → paren.t ≡ b'('
    → st.macro_ptr ≡ some (paren ∷ ts)
    → find_paren levels can_read st ≡ (true, st)
unfolding find_paren skip_blank
find_paren-here [] can_read st paren ts e ptr = rw (ptr, e) refl
find_paren-here (l ∷ ls) can_read st paren ts e ptr = rw (ptr, e) refl

call-endless :
    (env : Env) (f : ℕ) (subst : Subst) (m : Macro) (st : Stream) (p : Param) (ps : List Param)
    (paren : Token) (ts : List Token)
    → m.params ≡ p ∷ ps
    → paren.t ≡ b'('
    → st.macro_ptr ≡ some (paren ∷ ts)
    → IsOpen ts
    → call env f subst m st ≡ out_of_fuel
unfolding call read_args read_nonspace
call-endless env f subst m st p ps paren ts params e ptr open_ts =
    let c = read_nonspace 0 ts in
    let endless =
      read_arg-endless f p.va 0 (record { str = []; spc = false }) c
        (read_nonspace-OpenCursor ts open_ts) in
    rw (params, ptr, e, endless) refl

-- A macro with parameters is expanded behind its name in a string; behind the `(` stand no `)`, no
-- `,` and no TOK_EOF in the rest of the string. Then no fuel is enough: the code reads the end of the
-- string for ever, and never the file.
pub macro_subst_tok-endless :
    (env : Env) (f : ℕ) (subst : Subst) (can_read : Bool) (st : Stream) (str : List Token) (tok : ℕ)
    (m : Macro) (p : Param) (ps : List Param) (paren : Token) (ts : List Token)
    → special env tok ≡ none
    → m.is_func ≡ true
    → m.params ≡ p ∷ ps
    → paren.t ≡ b'('
    → st.macro_ptr ≡ some (paren ∷ ts)
    → IsOpen ts
    → macro_subst_tok env f subst can_read st str tok m ≡ out_of_fuel
unfolding macro_subst_tok expand_func
macro_subst_tok-endless env f subst can_read st str tok m p ps paren ts sp fn params e ptr open_ts =
    let here = find_paren-here st.levels can_read st paren ts e ptr in
    rw
      (
        macro_subst_tok,
        sp,
        fn,
        here,
        call-endless env f subst m st p ps paren ts params e ptr open_ts,
      )
      refl
