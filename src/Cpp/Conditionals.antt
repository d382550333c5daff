-- ===== src/Cpp/Conditionals.antt =====
-- Conditional inclusion in one file (tccpp.c: preprocess, preprocess_skip, next_nomacro1). A line
-- is a directive or a line of ordinary tokens, after comments, strings and continued lines have been
-- read; a line without tokens is left out, and so are #include, #line, #error and #pragma.
pub mod Grammar
pub mod Skipping
pub mod Nesting
pub mod Meaning
pub mod Guard
use inherpreter.Prelude.{
  ℕ, zero, suc, ◌+◌, bit_and, bit_xor, Bool, true, false, not, ◌&&◌, Option, none, some, List, [],
  ◌∷◌, ◌++◌, ltb, leb, ◌==◌, if◌then◌else◌, to_nat, length, update,
}
use inherpreter.Cpp.Idents.{tok_ident_base}

-- A name is its token, an expression of #if the list of its tokens.
pub data Line : Type 0 where
  text define undef ifdef ifndef : ℕ → Line
  if_ elif : List ℕ → Line
  else_ endif : Line

pub data Error : Type 0 where
  invalid_macro_name invalid_argument memory_full missing_endif expected_endif : Error
  else_without_if else_after_else elif_without_if elif_after_else endif_without_if : Error

pub data Result {ℓ} (A : Type ℓ) : Type ℓ where
  ok : A → Result A
  failed : Error → Result A

-- `defines v`: define_find(v) is not NULL. `output` holds the lines of tokens that were read.
pub record Text : Type 0 where
  pub defines : ℕ → Bool
  pub output : List ℕ

-- `stack` is ifdef_stack with its top first, and `floor` its length where the file began
-- (file->ifdef_stack_ptr). `is_bof` and `at_endif` are the flags TOK_FLAG_BOF and TOK_FLAG_ENDIF of
-- tok_flags.
pub record State : Type 0 where
  pub text_state : Text
  pub stack : List ℕ
  pub floor : ℕ
  pub ifndef_macro : ℕ
  pub ifndef_macro_saved : ℕ
  pub is_bof : Bool
  pub at_endif : Bool

-- Reading, or in preprocess_skip with its depth `a`.
pub data Mode : Type 0 where
  reading : Mode
  skipping : ℕ → Mode

abbrev pub ifdef_stack_size : ℕ
ifdef_stack_size = 64

-- The first token of a line sets tok_flags to 0.
abbrev pub begin_line : State → State
begin_line st = record st { is_bof = false; at_endif = false }

abbrev pub set_define : (v : ℕ) → Bool → Text → Text
set_define v b w = record w { defines = update w.defines v b }

abbrev pub put_text : ℕ → Text → Text
put_text t w = record w { output = w.output ++ t ∷ [] }

abbrev pub mode_of : Bool → Mode
mode_of true = reading
mode_of false = skipping 0

-- The label do_if.
abbrev pub do_if : Bool → State → Result (State × Mode)
do_if c st =
    if leb ifdef_stack_size (length st.stack)
    then failed memory_full
    else ok (record st { stack = to_nat c ∷ st.stack }, mode_of c)

-- The labels test_else and test_skip.
abbrev pub test_else : (c : ℕ) → State → Result (State × Mode)
test_else c st =
    let macro = if length st.stack == st.floor + 1 then 0 else st.ifndef_macro in
    ok (record st { ifndef_macro = macro }, mode_of (not (bit_and c 1 == 0)))

-- The case TOK_ENDIF, for a stack whose rest is `cs`.
abbrev pub pop_if : List ℕ → State → State
pop_if cs st =
    if not (st.ifndef_macro == 0) && (length cs == st.floor)
    then record st {
      stack = cs;
      ifndef_macro = 0;
      ifndef_macro_saved = st.ifndef_macro;
      at_endif = true;
    }
    else record st { stack = cs }

-- The value of an expression is a parameter that sees which names are defined, not the bodies of the
-- macros, and has no errors.
module _ (expr_preprocess : (defines : ℕ → Bool) → List ℕ → Bool) where
  -- The directives, on a state whose flags are those before the line.
  unfoldable pub preprocess : State → Line → Result (State × Mode)
  preprocess st0 (text t) =
      let st = begin_line st0 in ok (record st { text_state = put_text t st.text_state }, reading)
  preprocess st0 (define v) =
      let st = begin_line st0 in
      if ltb v tok_ident_base
      then failed invalid_macro_name
      else ok (record st { text_state = set_define v true st.text_state }, reading)
  preprocess st0 (undef v) =
      let st = begin_line st0 in
      ok (record st { text_state = set_define v false st.text_state }, reading)
  preprocess st0 (ifdef v) =
      let st = begin_line st0 in
      if ltb v tok_ident_base then failed invalid_argument else do_if (st.text_state.defines v) st
  preprocess st0 (ifndef v) =
      let st = begin_line st0 in
      let macro = if st0.is_bof then v else st.ifndef_macro in
      if ltb v tok_ident_base
      then failed invalid_argument
      else do_if (not (st.text_state.defines v)) (record st { ifndef_macro = macro })
  preprocess st0 (if_ e) =
      let st = begin_line st0 in do_if (expr_preprocess st.text_state.defines e) st
  preprocess st0 else_ =
      let st = begin_line st0 in
      elim st.stack [
        | [] ↦ failed else_without_if
        | c ∷ cs ↦
            if not (bit_and c 2 == 0)
            then failed else_after_else
            else test_else (bit_xor c 3) (record st { stack = bit_xor c 3 ∷ cs })
      ]
  preprocess st0 (elif e) =
      let st = begin_line st0 in
      let c' = to_nat (expr_preprocess st.text_state.defines e) in
      elim st.stack [
        | [] ↦ failed elif_without_if
        | c ∷ cs ↦
            if ltb 1 c
            then failed elif_after_else
            else if c == 1
            then ok (st, skipping 0)
            else test_else c' (record st { stack = c' ∷ cs })
      ]
  preprocess st0 endif =
      let st = begin_line st0 in
      if leb (length st.stack) st.floor
      then failed endif_without_if
      else elim st.stack [ [] ↦ failed endif_without_if | c ∷ cs ↦ ok (pop_if cs st, reading) ]

-- A line in preprocess_skip: `none` where it ends the block, or the depth behind the line.
unfoldable pub preprocess_skip : (a : ℕ) → Line → Option ℕ
preprocess_skip zero else_ = none
preprocess_skip zero (elif e) = none
preprocess_skip zero endif = none
preprocess_skip a (if_ e) = some (suc a)
preprocess_skip a (ifdef v) = some (suc a)
preprocess_skip a (ifndef v) = some (suc a)
preprocess_skip (suc a) endif = some a
preprocess_skip a _ = some a

module _ (expr_preprocess : (defines : ℕ → Bool) → List ℕ → Bool) where
  -- The lines of a file to its end.
  unfoldable pub read_lines : State → Mode → List Line → Result State
  unfolding preprocess preprocess_skip
  read_lines st reading [] = if length st.stack == st.floor then ok st else failed missing_endif
  read_lines st (skipping a) [] = failed expected_endif
  read_lines st reading (l ∷ ls) = elim (preprocess expr_preprocess st l) [
    | ok (st', mode) ↦ read_lines st' mode ls
    | failed e ↦ failed e
  ]
  read_lines st (skipping a) (l ∷ ls) = elim (preprocess_skip a l) [
    | some a' ↦ read_lines st (skipping a') ls
    | none ↦ elim (preprocess expr_preprocess st l) [
      | ok (st', mode) ↦ read_lines st' mode ls
      | failed e ↦ failed e
    ]
  ]
