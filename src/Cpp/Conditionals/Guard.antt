-- ===== src/Cpp/Conditionals/Guard.antt =====
-- The #ifndef around a file (tccpp.c: preprocess, next_nomacro1): the macro that is recorded for it.
use inherpreter.Prelude.{
  ℕ, suc, ◌+◌, ◌≤◌, ◌<◌, ◌≡◌, refl, sym, ◌∙◌, Bool, true, false, not, ◌&&◌, List, [], ◌∷◌, ◌++◌,
  append-nil, arith, ◌==◌, length,
}
use inherpreter.Cpp.Idents.{tok_ident_base}
use inherpreter.Cpp.Conditionals.{
  Line, ifndef, elif, endif, Result, ok, Text, State, reading, skipping, begin_line, pop_if,
  preprocess, preprocess_skip, read_lines,
}
use inherpreter.Cpp.Conditionals.Grammar.{
  on_undefined, Items, done, conditional, closed, else_if, emit_items, eval_items, IsNested,
}
use inherpreter.Cpp.Conditionals.Skipping.{read_line, skip_end, skips_items}
use inherpreter.Cpp.Conditionals.Nesting.{
  opened, with_stack, open_test, read_endif, read_elif_taken,
}
use inherpreter.Cpp.Conditionals.Meaning.{reads_items, reads_file}

-- A file that begins: no token was read, and no macro is known.
pub record IsStart (st : State) : Type 0 where
  pub bof : st.is_bof ≡ true
  pub at_floor : length st.stack ≡ st.floor

-- The file was read to its end, and its name is entered with the macro `v`.
abbrev pub Records : Result State → (v : ℕ) → Text → Type 0
Records result v w =
    (st' : State) × (result ≡ ok st')
    × (st'.text_state ≡ w)
    × (st'.at_endif ≡ true)
    × (st'.ifndef_macro_saved ≡ v)

module _ (expr_preprocess : (defines : ℕ → Bool) → List ℕ → Bool) where
  Records-endif :
      (st : State) (c v : ℕ) (cs : List ℕ)
      → st.stack ≡ c ∷ cs
      → length cs ≡ st.floor
      → st.ifndef_macro ≡ v
      → 0 < v
      → Records (read_lines expr_preprocess st reading (endif ∷ [])) v st.text_state
  unfolding read_lines
  Records-endif st c v cs e f g pos =
      let guards : (not (st.ifndef_macro == 0) && (length cs == st.floor)) ≡ true = ground arith in
      let at_floor : (length cs == st.floor) ≡ true = ground arith in
      let next = pop_if cs (begin_line st) in
      (
        next,
        read_line expr_preprocess st endif [] next reading
              (read_endif expr_preprocess st c cs e (omega (arith, f)))
            ∙ rw (guards, at_floor) refl,
        rw guards refl,
        rw guards refl,
        rw guards g,
      )

  -- The state behind the group of the first #ifndef.
  abbrev IsBehind : (st a : State) (v : ℕ) → Type 0
  IsBehind st a v = (a.stack ≡ 1 ∷ st.stack) × (length st.stack ≡ a.floor) × (a.ifndef_macro ≡ v)

  reads_guarded :
      (v : ℕ) (body : Items) (room : ℕ) (st : State) (rest : List Line)
      → IsStart st
      → tok_ident_base ≤ v
      → st.text_state.defines v ≡ false
      → IsNested room body
      → length st.stack + suc room ≤ 64
      → (a : State) × (read_lines expr_preprocess st reading (ifndef v ∷ (emit_items body ++ rest))
          ≡ read_lines expr_preprocess a reading rest)
        × (a.text_state ≡ eval_items expr_preprocess body st.text_state)
        × IsBehind st a v
  reads_guarded v body room st rest start named absent nested size =
      let st1 =
        with_stack expr_preprocess (1 ∷ st.stack) (opened expr_preprocess (on_undefined v) st) in
      let floor = start.at_floor in
      let opening : preprocess expr_preprocess st (ifndef v) ≡ ok (st1, reading) =
        open_test expr_preprocess (on_undefined v) st named (omega arith) ∙ rw absent refl in
      let c =
        reads_items expr_preprocess body room st1 rest nested (omega (arith, floor))
          (omega arith) in
      let guard = c.same_guard (omega (arith, floor)) refl in
      (
        c.after,
        read_line expr_preprocess st (ifndef v) (emit_items body ++ rest) st1 reading opening
            ∙ c.runs,
        c.means,
        (c.unwound, floor ∙ sym c.same_floor, guard.0 ∙ rw start.bof refl),
      )

  -- A file that is one #ifndef of a macro that is not defined, without #else or #elif, is read as its
  -- group, and recorded with the macro; where the macro is defined, reading the file leaves
  -- the text as it is, so that it need not be read.
  pub read_lines_guarded :
      (v : ℕ) (body : Items) (room : ℕ) (st later : State)
      → tok_ident_base ≤ v
      → IsNested room body
      → IsStart st
      → st.text_state.defines v ≡ false
      → length st.stack + suc room ≤ 64
      → IsStart later
      → later.text_state.defines v ≡ true
      → length later.stack + suc room ≤ 64
      → let file = emit_items (conditional (on_undefined v) body closed done) in
        Records
          (read_lines expr_preprocess st reading file)
          v
          (eval_items expr_preprocess body st.text_state)
        × ((st' : State) × (read_lines expr_preprocess later reading file ≡ ok st')
            × (st'.text_state ≡ later.text_state))
  unfolding emit_items eval_items IsNested
  read_lines_guarded v body room st later named nested start absent size begins present size' =
      let (a, run, means, (stack, floor, macro)) =
        reads_guarded v body room st (endif ∷ []) start named absent nested size in
      let (st', ends, same_text, flag, saved) =
        Records-endif a 1 v st.stack stack floor macro (omega arith) in
      let file = conditional (on_undefined v) body closed done in
      let (again, read, same, unwound) =
        reads_file expr_preprocess file (suc room) later (named, nested, tt, tt) begins.at_floor
          size' in
      ((st', run ∙ ends, same_text ∙ means, flag, saved), (again, read, same ∙ rw present refl))

  -- With an #elif the macro is recorded as well, but where the macro and the expression of
  -- the #elif hold, reading the file gives the group of the #elif, which is lost where the file
  -- is not read.
  pub read_lines_guarded_elif :
      (v : ℕ) (body other : Items) (e : List ℕ) (room : ℕ) (st later : State)
      → tok_ident_base ≤ v
      → IsNested room body
      → IsNested room other
      → IsStart st
      → st.text_state.defines v ≡ false
      → length st.stack + suc room ≤ 64
      → IsStart later
      → later.text_state.defines v ≡ true
      → expr_preprocess later.text_state.defines e ≡ true
      → length later.stack + suc room ≤ 64
      → let file = emit_items (conditional (on_undefined v) body (else_if e other closed) done) in
        Records
          (read_lines expr_preprocess st reading file)
          v
          (eval_items expr_preprocess body st.text_state)
        × ((st' : State) × (read_lines expr_preprocess later reading file ≡ ok st')
            × (st'.text_state ≡ eval_items expr_preprocess other later.text_state))
  unfolding emit_items eval_items IsNested
  read_lines_guarded_elif v body other e room st later named nested nested' start absent size begins
        present holds' size' =
      let branch = elif e ∷ (emit_items other ++ endif ∷ []) in
      let (a, run, means, (stack, floor, macro)) =
        reads_guarded v body room st branch start named absent nested size in
      let a1 = begin_line a in
      let past =
        read_line expr_preprocess a (elif e) (emit_items other ++ endif ∷ []) a1 (skipping 0)
          (read_elif_taken expr_preprocess a e st.stack stack)
        ∙ skips_items expr_preprocess other a1 0 (endif ∷ [])
        ∙ skip_end expr_preprocess a1 0 endif [] (unfold preprocess_skip in refl) in
      let (st', ends, same_text, flag, saved) =
        Records-endif a1 1 v st.stack stack floor macro (omega arith) in
      let file = conditional (on_undefined v) body (else_if e other closed) done in
      let (again, read, same, unwound) =
        reads_file expr_preprocess file (suc room) later (named, nested, (nested', tt), tt)
          begins.at_floor size' in
      (
        (st', rw (append-nil branch) (run ∙ past ∙ ends), same_text ∙ means, flag, saved),
        (again, read, same ∙ rw (present, holds') refl),
      )
