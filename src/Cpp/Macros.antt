-- ===== src/Cpp/Macros.antt =====
-- Macros and the strings and streams of tokens that they are expanded in (tccpp.c: check_space,
-- next_nomacro_spc, next_nomacro, define_find, and the reading of arguments in macro_subst_tok).
-- A string of tokens is a list; its encoding in ints is that of Tokens.
pub mod Arguments
pub mod Endless
pub mod Calls
pub mod Substituted
pub mod Pasting
pub mod Expanding
pub mod Next
pub mod Settled
pub mod Names
pub mod Complete
pub mod Rescanned
pub mod Reading
use inherpreter.Prelude.{
  ℕ, ◌-◌, ◌^◌, Bool, true, false, ◌&&◌, ◌||◌, Option, none, List, [], ◌∷◌, ◌++◌, ltb, leb, ◌==◌,
  if◌then◌else◌,
}
use inherpreter.Cpp.Idents.{tok_ident_base}
use inherpreter.Cpp.Tokens.{tok_linenum, CValue, tab}

pub record Token : Type 0 where
  pub t : ℕ
  pub cval : CValue

abbrev pub plain_token : ℕ → Token
plain_token t = record { t = t; cval = tab [] }

-- TOK_STR, TOK_TWOSHARPS, TOK_PPNUM and TOK_NOSUBST; TOK_EOF is -1, on 32 bits.
abbrev pub tok_str : ℕ
tok_str = 0xb5

abbrev pub tok_twosharps : ℕ
tok_twosharps = 0xb6

abbrev pub tok_ppnum : ℕ
tok_ppnum = 0xce

abbrev pub tok_nosubst : ℕ
tok_nosubst = 0xcf

abbrev pub tok_linefeed : ℕ
tok_linefeed = 10

abbrev pub minus_one : ℕ
minus_one = 2 ^ 32 - 1

abbrev pub is_space : ℕ → Bool
is_space ch = ch == 32 || ch == 9 || ch == 11 || ch == 12 || ch == 13

-- A parameter of a macro without SYM_FIELD in `v`; `va` is its `type.t`.
pub record Param : Type 0 where
  pub v : ℕ
  pub va : Bool

-- The symbol of a macro: whether `type.t` is MACRO_FUNC, the tokens `d`, and the parameters `next`.
pub record Macro : Type 0 where
  pub is_func : Bool
  pub d : List Token
  pub params : List Param

-- What expansion reads: the macros bound to the names, the flags, what get_tok_str writes for a
-- token, the tokens that the lexer makes of pasted text, and the texts of the special macros.
pub record Env : Type 0 where
  pub tok_ident : ℕ
  pub sym_define : ℕ → Option Macro
  pub gnu_ext : Bool
  pub keep_spaces : Bool
  pub get_tok_str : Token → List ℕ
  pub lex : List ℕ → List Token
  pub line_num : List ℕ
  pub filename : List ℕ
  pub date : List ℕ
  pub time : List ℕ

unfoldable pub define_find : Env → (v : ℕ) → Option Macro
define_find env v = if leb tok_ident_base v && ltb v env.tok_ident then env.sym_define v else none

-- check_space with the write behind it: the string, and `spc`. A second space is not written.
pub record Spaced : Type 0 where
  pub str : List Token
  pub spc : Bool

abbrev pub add_spaced : Spaced → Token → Spaced
add_spaced s tk =
    if is_space tk.t
    then if s.spc then s else record { str = s.str ++ tk ∷ []; spc = true }
    else record { str = s.str ++ tk ∷ []; spc = false }

-- `str.len -= spc;`, where the last int is a space.
unfoldable pub drop_last {ℓ} : {A : Type ℓ} → List A → List A
drop_last [] = []
drop_last (x ∷ []) = []
drop_last (x ∷ y ∷ xs) = x ∷ drop_last (y ∷ xs)

abbrev pub trimmed : Spaced → List Token
trimmed s = if s.spc then drop_last s.str else s.str

-- `malformed`: the code goes on behind the end of a string, or reads the value of a token as one.
pub data Error : Type 0 where
  too_many_args too_few_args expected_comma malformed : Error

pub data Result {ℓ} (A : Type ℓ) : Type ℓ where
  ok : A → Result A
  error : Error → Result A
  out_of_fuel : Result A

module _ {ℓ κ} {A : Type ℓ} {B : Type κ} where
  infixl 5 ◌>>=◌
  abbrev pub ◌>>=◌ : Result A → (A → Result B) → Result B
  ok a >>= k = k a
  error e >>= k = error e
  out_of_fuel >>= k = out_of_fuel

-- The tokens that are read, and the token that is read again and again behind the last of them: 0 in
-- a macro's string, TOK_EOF in the file.
pub record Input : Type 0 where
  pub ended_by : ℕ
  pub rest : List Token

-- A token that was read with what follows.
pub record Cursor : Type 0 where
  pub tok : Token
  pub input : Input

-- next_nomacro_spc; a TOK_LINENUM only sets the number of the line.
unfoldable pub read_token : (ended_by : ℕ) → List Token → Cursor
read_token e [] = record { tok = plain_token e; input = record { ended_by = e; rest = [] } }
read_token e (tk ∷ ts) =
    let later = read_token e ts in
    if tk.t == tok_linenum
    then later
    else record { tok = tk; input = record { ended_by = e; rest = ts } }

abbrev pub next_nomacro_spc : Input → Cursor
next_nomacro_spc i = read_token i.ended_by i.rest

-- next_nomacro
unfoldable pub read_nonspace : (ended_by : ℕ) → List Token → Cursor
read_nonspace e [] = record { tok = plain_token e; input = record { ended_by = e; rest = [] } }
read_nonspace e (tk ∷ ts) =
    let later = read_nonspace e ts in
    if tk.t == tok_linenum || is_space tk.t
    then later
    else record { tok = tk; input = record { ended_by = e; rest = ts } }

abbrev pub next_nomacro : Input → Cursor
next_nomacro i = read_nonspace i.ended_by i.rest
