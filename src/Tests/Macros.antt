-- ===== src/Tests/Macros.antt =====
-- Macros A, B, F(x) and G on short strings of tokens.
use Prim.{tt}
use inherpreter.Prelude.{
  ℕ, ◌≡◌, refl, inl, inr, true, false, ◌&&◌, Option, none, some, List, [], ◌∷◌, ◌++◌, map,
  append_assoc, arith, ltb, leb, ◌==◌, if◌then◌else◌, Bool-cases, some_eq,
}
use inherpreter.Cpp.Macros.{
  Token, plain_token, Param, Macro, Env, define_find, Result, ok, out_of_fuel, read_token,
  next_nomacro,
}
use inherpreter.Cpp.Macros.Arguments.{Arg, read_args, macro_arg_subst}
use inherpreter.Cpp.Macros.Expanding.{
  Stream, special, Written, expand_arg, macro_subst_tok, macro_subst,
}
use inherpreter.Cpp.Macros.Settled.{AllObjects, settled}
use inherpreter.Cpp.Macros.Complete.{Settles, macro_subst-settled}
use inherpreter.Cpp.Macros.Rescanned.{macro_subst-rescanned}
use inherpreter.Cpp.Macros.Reading.{Returns, next-Returns}
use inherpreter.Cpp.Macros.Endless.{macro_subst_tok-endless}
use inherpreter.Cpp.Macros.Substituted.{substituted, HaveExpansions, macro_arg_subst-substituted}
use inherpreter.Cpp.Macros.Calls.{
  Items, done, word, group, mark, emit, IsWord, behind_token, emit_args, Fits, bound,
  read_args-emit_args,
}

-- A is `B A`, B is `A C`, F(x) is `x F(x)`, and G is `F(`; their tokens are 400 to 403, x is 404
-- and C is 405.
abbrev t : ℕ → Token
t = plain_token

abbrev macros : ℕ → Option Macro
macros v =
    if v == 400
    then some (record { is_func = false; d = t 401 ∷ t 400 ∷ []; params = [] })
    else if v == 401
    then some (record { is_func = false; d = t 400 ∷ t 405 ∷ []; params = [] })
    else if v == 402
    then some (record {
      is_func = true;
      d = t 404 ∷ t 402 ∷ t b'(' ∷ t 404 ∷ t b')' ∷ [];
      params = record { v = 404; va = false } ∷ [];
    })
    else if v == 403
    then some (record { is_func = false; d = t 402 ∷ t b'(' ∷ []; params = [] })
    else none

abbrev env : Env
env = record {
  tok_ident = 1000;
  sym_define = macros;
  gnu_ext = true;
  keep_spaces = false;
  get_tok_str = λ tk. [];
  lex = λ s. [];
  line_num = b'7' ∷ [];
  filename = [];
  date = [];
  time = [];
}

abbrev idle : Stream
idle = record { macro_ptr = none; file = []; levels = []; nested = [] }

abbrev tokens : Result Written → List ℕ
tokens (ok (st, str)) = map (λ (tk : Token). tk.t) str
tokens _ = []

objects_run :
    tokens (macro_subst env 20 true idle [] (t 400 ∷ t 405 ∷ []))
    ≡ 0xcf ∷ 400 ∷ 405 ∷ 0xcf ∷ 400 ∷ 405 ∷ []
unfolding macro_subst
objects_run = refl

call_run :
    tokens (macro_subst env 30 true idle [] (t 402 ∷ t b'(' ∷ t 400 ∷ t b')' ∷ []))
    ≡ 0xcf ∷ 400 ∷ 405 ∷ 0xcf ∷ 400 ∷ 0xcf ∷ 402 ∷ b'(' ∷ 0xcf ∷ 400 ∷ 405 ∷ 0xcf ∷ 400 ∷ b')' ∷ []
unfolding macro_subst read_token
call_run = refl

abbrev objects : ℕ → Option Macro
objects v =
    if v == 400
    then some (record { is_func = false; d = t 401 ∷ t 400 ∷ []; params = [] })
    else if v == 401
    then some (record { is_func = false; d = t 400 ∷ t 405 ∷ []; params = [] })
    else none

abbrev object_env : Env
object_env = record env { sym_define = objects }

objects-AllObjects : AllObjects object_env
unfolding define_find
objects-AllObjects v m h = elim (Bool-cases (leb 256 v && ltb v 1000)) [
  | inr e ↦ let no : none ≡ some m = rw e at h in absurd (cc)
  | inl e ↦ elim (Bool-cases (v == 400)) [
    | inl a ↦
        let same : record { is_func = false; d = t 401 ∷ t 400 ∷ []; params = [] } ≡ m =
          some_eq (rw (e, a) at h) in
        rw (← same) (refl, refl)
    | inr a ↦ elim (Bool-cases (v == 401)) [
      | inl b ↦
          let same : record { is_func = false; d = t 400 ∷ t 405 ∷ []; params = [] } ≡ m =
            some_eq (rw (e, a, b) at h) in
          rw (← same) (refl, refl)
      | inr b ↦ let no : none ≡ some m = rw (e, a, b) at h in absurd (cc)
    ]
  ]
]

macro_subst-settled_example : Settles object_env true idle [] (t 400 ∷ t 405 ∷ [])
macro_subst-settled_example =
    macro_subst-settled object_env refl objects-AllObjects true idle [] (t 400 ∷ t 405 ∷ []) refl

macro_subst-rescanned_example :
    macro_subst env 5 true idle [] (t 0xcf ∷ t 400 ∷ t 405 ∷ [])
    ≡ ok (idle, t 0xcf ∷ t 400 ∷ t 405 ∷ [])
unfolding settled
macro_subst-rescanned_example =
    macro_subst-rescanned env 5 true idle [] (t 0xcf ∷ t 400 ∷ t 405 ∷ []) (omega arith) refl refl
      (λ e. refl, (λ e. absurd (omega arith), (λ e. absurd (omega arith), tt))) refl

next-Returns_example : Returns object_env (record { pending = none; source = t 400 ∷ t 405 ∷ [] })
next-Returns_example =
    next-Returns object_env (omega arith) refl objects-AllObjects
      (record { pending = none; source = t 400 ∷ t 405 ∷ [] }) refl

-- The string of G, behind F; a `)` that comes in the file is not read.
abbrev in_g : Stream
in_g = record {
  macro_ptr = some (t b'(' ∷ []);
  file = t 405 ∷ t b')' ∷ [];
  levels = none ∷ [];
  nested = 403 ∷ [];
}

abbrev f_macro : Macro
f_macro = record { is_func = true; d = t 404 ∷ []; params = record { v = 404; va = false } ∷ [] }

macro_subst_tok-endless_example :
    macro_subst_tok env 9 (macro_subst env 9) true in_g [] 402 f_macro ≡ out_of_fuel
unfolding special
macro_subst_tok-endless_example =
    macro_subst_tok-endless env 9 (macro_subst env 9) true in_g [] 402 f_macro
      (record { v = 404; va = false }) [] (t b'(') [] refl refl refl refl refl tt

abbrev two_params : List Param
two_params = record { v = 404; va = false } ∷ record { v = 405; va = true } ∷ []

abbrev two_args : List Items
two_args = group (word (t 400) done) done ∷ word (t 401) (word (t b',') (word (t 401) done)) ∷ []

name_400 : IsWord 400
name_400 = ((omega arith, omega arith, refl), omega arith, omega arith, omega arith)

name_401 : IsWord 401
name_401 = ((omega arith, omega arith, refl), omega arith, omega arith, omega arith)

comma-IsWord : IsWord b','
comma-IsWord = ((omega arith, omega arith, refl), omega arith, omega arith, omega arith)

two_args-Fits : Fits two_params two_args
two_args-Fits = (
  refl,
  ((name_400, λ e. omega arith, tt), tt),
  (
    name_401,
    λ e. omega arith,
    (comma-IsWord, λ e. let no : true ≡ false = e in absurd (cc), (name_401, λ e. omega arith, tt)),
  ),
)

read_args-emit_args_example :
    read_args true 20 two_params []
      (next_nomacro (record { ended_by = 0; rest = emit_args two_args ++ t 405 ∷ [] }))
    ≡ ok (bound two_params two_args [], behind_token 0 (mark b')') (t 405 ∷ []))
unfolding emit_args emit
read_args-emit_args_example =
    read_args-emit_args true 20 two_params two_args 0 (t 405 ∷ []) two_args-Fits (omega arith)

-- The first argument is the macro A.
abbrev two_bound : List Arg
two_bound =
    record { v = 404; va = false; d = t 400 ∷ t b'*' ∷ [] }
    ∷ record { v = 405; va = false; d = t 406 ∷ [] }
    ∷ []

abbrev expansion_of : List Token → List Token
expansion_of (tk ∷ []) = t 406 ∷ []
expansion_of _ = t 0xcf ∷ t 400 ∷ t 405 ∷ t 0xcf ∷ t 400 ∷ t b'*' ∷ []

first_expands :
    (str : List Token)
    → expand_arg (macro_subst object_env 20) idle str (t 400 ∷ t b'*' ∷ [])
      ≡ ok (str ++ t 0xcf ∷ t 400 ∷ t 405 ∷ t 0xcf ∷ t 400 ∷ t b'*' ∷ [])
unfolding macro_subst
first_expands str = simp append_assoc refl

second_expands :
    (str : List Token)
    → expand_arg (macro_subst object_env 20) idle str (t 406 ∷ []) ≡ ok (str ++ t 406 ∷ [])
unfolding macro_subst
second_expands str = refl

two_bound-HaveExpansions :
    HaveExpansions
      (expand_arg (macro_subst object_env 20) idle)
      expansion_of
      two_bound
      (t 404 ∷ t b'+' ∷ t 405 ∷ t 404 ∷ [])
unfolding inherpreter.Cpp.Macros.Arguments.find_arg
two_bound-HaveExpansions = (
  λ a e. rw (← some_eq e) first_expands,
  (
    λ a e. let no : none ≡ some a = e in absurd (cc),
    (λ a e. rw (← some_eq e) second_expands, (λ a e. rw (← some_eq e) first_expands, tt)),
  ),
)

macro_arg_subst-substituted_example :
    macro_arg_subst object_env
      (expand_arg (macro_subst object_env 20) idle)
      two_bound
      0
      []
      (t 404 ∷ t b'+' ∷ t 405 ∷ t 404 ∷ [])
    ≡ ok ([] ++ substituted expansion_of two_bound (t 404 ∷ t b'+' ∷ t 405 ∷ t 404 ∷ []))
macro_arg_subst-substituted_example =
    macro_arg_subst-substituted object_env 20 idle expansion_of two_bound []
      (t 404 ∷ t b'+' ∷ t 405 ∷ t 404 ∷ []) refl two_bound-HaveExpansions
