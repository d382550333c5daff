-- ===== src/Cpp/Conditionals/Meaning.antt =====
-- A file means what its structure means.
use inherpreter.Prelude.{
  ℕ, zero, suc, ◌+◌, ◌≤◌, ◌≡◌, refl, ap, ◌∙◌, subst, Bool, true, false, List, [], ◌∷◌, ◌++◌,
  append_assoc, append-nil, arith, ltb, ◌==◌, to_nat, ==_refl, length,
}
use inherpreter.Cpp.Idents.{tok_ident_base}
use inherpreter.Cpp.Conditionals.{
  Line, text, define, undef, elif, else_, endif, ok, Text, State, reading, begin_line, set_define,
  put_text, mode_of, preprocess, read_lines,
}
use inherpreter.Cpp.Conditionals.Grammar.{
  Test, on_defined, on_undefined, on_expr, Items, done, tokens, defining, undefining, conditional,
  Branches, closed, otherwise, else_if, test_line, emit_items, emit_branches, holds, eval_items,
  eval_branches, IsNested, AreNested, IsNameTest, OnNames, AreOnNames,
}
use inherpreter.Cpp.Conditionals.Skipping.{read_line}
use inherpreter.Cpp.Conditionals.Nesting.{
  opened, with_stack, open_test, tested, read_else, read_elif, Closes, Closes-from, same_outcome,
  Closes-endif, tested_guard, Closes-append, Closes-group,
}

module _ (expr_preprocess : (defines : ℕ → Bool) → List ℕ → Bool) where
  -- A line that changes the text only.
  reads_line :
      (st st1 : State) (l : Line) (ls rest : List Line) (w : Text)
      → preprocess expr_preprocess st l ≡ ok (st1, reading)
      → st1.stack ≡ st.stack
      → st1.floor ≡ st.floor
      → st1.ifndef_macro ≡ st.ifndef_macro
      → st1.ifndef_macro_saved ≡ st.ifndef_macro_saved
      → st1.is_bof ≡ false
      → Closes expr_preprocess st1 reading st1.stack ls rest w
      → Closes expr_preprocess st reading st.stack (l ∷ ls) rest w
  reads_line st st1 l ls rest w e es ef em ev eb c =
      Closes-from expr_preprocess st st1 reading reading st.stack (l ∷ ls) ls rest w
        (read_line expr_preprocess st l (ls ++ rest) st1 reading e) ef (λ inner bof. (em, ev, eb))
        (subst (λ cs. Closes expr_preprocess st1 reading cs ls rest w) es c)

  abbrev same_text :
      (t : Test) (st : State) → (opened expr_preprocess t st).text_state ≡ st.text_state
  same_text (on_defined v) st = refl
  same_text (on_undefined v) st = refl
  same_text (on_expr e) st = refl

  abbrev same_floor_opened :
      (t : Test) (st : State) → (opened expr_preprocess t st).floor ≡ st.floor
  same_floor_opened (on_defined v) st = refl
  same_floor_opened (on_undefined v) st = refl
  same_floor_opened (on_expr e) st = refl

  opened_guard :
      (t : Test) (st : State)
      → st.is_bof ≡ false
      → ((opened expr_preprocess t st).ifndef_macro ≡ st.ifndef_macro)
        × ((opened expr_preprocess t st).ifndef_macro_saved ≡ st.ifndef_macro_saved)
        × ((opened expr_preprocess t st).is_bof ≡ false)
  opened_guard (on_defined v) st h = (refl, refl, refl)
  opened_guard (on_undefined v) st h = (rw h refl, refl, refl)
  opened_guard (on_expr e) st h = (refl, refl, refl)

  bounds_kept :
      (st after : State) (cs : List ℕ) (room : ℕ)
      → after.stack ≡ cs
      → after.floor ≡ st.floor
      → st.floor ≤ length cs
      → length cs + room ≤ 64
      → (after.floor ≤ length after.stack) × (length after.stack + room ≤ 64)
  bounds_kept st after cs room e f le size =
      (omega (arith, ap length e, f), omega (arith, ap length e))

  mutual
    unfolding emit_items eval_items preprocess IsNested

    pub reads_items :
        (is : Items) (room : ℕ) (st : State) (rest : List Line)
        → IsNested room is
        → st.floor ≤ length st.stack
        → length st.stack + room ≤ 64
        → Closes expr_preprocess st reading st.stack
            (emit_items is)
            rest
            (eval_items expr_preprocess is st.text_state)
    reads_items done room st rest nested le size = record {
      after = st;
      runs = refl;
      means = refl;
      unwound = refl;
      same_floor = refl;
      same_guard = λ inner bof. (refl, refl, bof);
    }
    reads_items (tokens t is) room st rest nested le size =
        let st1 = record (begin_line st) { text_state = put_text t st.text_state } in
        reads_line st st1 (text t) (emit_items is) rest _ refl refl refl refl refl refl
          (reads_items is room st1 rest nested le size)
    reads_items (defining v is) room st rest (named, nested) le size =
        let st1 = record (begin_line st) { text_state = set_define v true st.text_state } in
        let name : ltb v tok_ident_base ≡ false = ground arith in
        reads_line st st1 (define v) (emit_items is) rest _ (rw name refl) refl refl refl refl refl
          (reads_items is room st1 rest nested le size)
    reads_items (undefining v is) room st rest nested le size =
        let st1 = record (begin_line st) { text_state = set_define v false st.text_state } in
        reads_line st st1 (undef v) (emit_items is) rest _ refl refl refl refl refl refl
          (reads_items is room st1 rest nested le size)
    reads_items (conditional t body br is) zero st rest nested le size = absurd nested
    reads_items (conditional t body br is) (suc room) st rest (named, nested, branches, more) le
          size =
        let b = holds expr_preprocess t st.text_state in
        let st1 = with_stack expr_preprocess (to_nat b ∷ st.stack) (opened expr_preprocess t st) in
        let tail_lines = emit_items is ++ rest in
        let le1 : st1.floor ≤ length st.stack = rw (same_floor_opened t st) le in
        let le2 : st1.floor ≤ length st1.stack = omega arith in
        let read =
          subst
            (λ w.
              Closes expr_preprocess st1 reading st1.stack (emit_items body)
                (emit_branches br ++ tail_lines) (eval_items expr_preprocess body w))
            (same_text t st)
            (reads_items body room st1 (emit_branches br ++ tail_lines) nested le2 (omega arith)) in
        let others = λ (e : b ≡ false).
          subst
            (λ w.
              Closes expr_preprocess st1 reading st.stack (emit_branches br) tail_lines
                (eval_branches expr_preprocess br w))
            (same_text t st)
            (reads_branches br room st1 st.stack tail_lines (rw e refl) branches le1
              (omega arith)) in
        let group =
          Closes-group expr_preprocess b body br st1 st.stack tail_lines
            (eval_items expr_preprocess body st.text_state)
            (eval_branches expr_preprocess br st.text_state) refl le1 read others in
        let closed =
          Closes-from expr_preprocess st st1 reading (mode_of b) st.stack
            (test_line t ∷ (emit_items body ++ emit_branches br))
            (emit_items body ++ emit_branches br) tail_lines _
            (read_line expr_preprocess st (test_line t) _ st1 (mode_of b)
              (open_test expr_preprocess t st named (omega arith)))
            (same_floor_opened t st) (λ inner bof. opened_guard t st bof) group in
        let bounds =
          bounds_kept st closed.after st.stack (suc room) closed.unwound closed.same_floor le
            size in
        let behind =
          same_outcome expr_preprocess closed.after reading closed.after.stack st.stack
            (emit_items is) rest _ _ closed.unwound
            (ap (eval_items expr_preprocess is) closed.means)
            (reads_items is (suc room) closed.after rest more bounds.0 bounds.1) in
        rw (← append_assoc (emit_items body) (emit_branches br) (emit_items is)) (
          Closes-append expr_preprocess st reading st.stack st.stack
            (test_line t ∷ (emit_items body ++ emit_branches br)) (emit_items is) rest _ _ closed
            (omega arith) behind)

    reads_branches :
        (br : Branches) (room : ℕ) (st : State) (cs : List ℕ) (rest : List Line)
        → st.stack ≡ 0 ∷ cs
        → AreNested room br
        → st.floor ≤ length cs
        → suc (length cs) + room ≤ 64
        → Closes expr_preprocess st reading cs
            (emit_branches br)
            rest
            (eval_branches expr_preprocess br st.text_state)
    reads_branches closed room st cs rest e nested le size =
        Closes-endif expr_preprocess st 0 cs rest e le
    reads_branches (otherwise is) room st cs rest e nested le size =
        let st1 = tested expr_preprocess (with_stack expr_preprocess (3 ∷ cs) (begin_line st)) in
        let le1 : st1.floor ≤ length st1.stack = omega arith in
        let items = reads_items is room st1 (endif ∷ rest) nested le1 (omega arith) in
        let popped =
          subst (Closes expr_preprocess items.after reading cs (endif ∷ []) rest) items.means (
            Closes-endif expr_preprocess items.after 3 cs rest items.unwound
              (rw items.same_floor le)) in
        Closes-from expr_preprocess st st1 reading reading cs
          (else_ ∷ (emit_items is ++ endif ∷ [])) (emit_items is ++ endif ∷ []) rest _
          (read_line expr_preprocess st else_ _ st1 reading
            (read_else expr_preprocess st false cs e))
          refl (λ inner bof. (tested_guard expr_preprocess (begin_line st) 3 cs inner, refl, refl))
          (Closes-append expr_preprocess st1 reading (3 ∷ cs) cs (emit_items is) (endif ∷ []) rest _
            _ items (omega arith) popped)
    reads_branches (else_if e' is br) room st cs rest e (nested, branches) le size =
        let b = expr_preprocess st.text_state.defines e' in
        let st1 =
          tested expr_preprocess (with_stack expr_preprocess (to_nat b ∷ cs) (begin_line st)) in
        let le1 : st1.floor ≤ length st1.stack = omega arith in
        let read = reads_items is room st1 (emit_branches br ++ rest) nested le1 (omega arith) in
        let others = λ (f : b ≡ false).
          reads_branches br room st1 cs rest (rw f refl) branches le (omega arith) in
        let group =
          Closes-group expr_preprocess b is br st1 cs rest
            (eval_items expr_preprocess is st.text_state)
            (eval_branches expr_preprocess br st.text_state) refl le read others in
        Closes-from expr_preprocess st st1 reading (mode_of b) cs
          (elif e' ∷ (emit_items is ++ emit_branches br)) (emit_items is ++ emit_branches br) rest _
          (read_line expr_preprocess st (elif e') _ st1 (mode_of b)
            (read_elif expr_preprocess st e' cs b e refl))
          refl
          (λ inner bof.
            (tested_guard expr_preprocess (begin_line st) (to_nat b) cs inner, refl, refl))
          group

  pub reads_file :
      (is : Items) (room : ℕ) (st : State)
      → IsNested room is
      → length st.stack ≡ st.floor
      → length st.stack + room ≤ 64
      → (st' : State) × (read_lines expr_preprocess st reading (emit_items is) ≡ ok st')
        × (st'.text_state ≡ eval_items expr_preprocess is st.text_state)
        × (st'.stack ≡ st.stack)
  unfolding read_lines
  reads_file is room st nested e size =
      let c = reads_items is room st [] nested (omega (arith, e)) size in
      let at_floor : (length c.after.stack == c.after.floor) ≡ true =
        rw (c.unwound, c.same_floor, e) (==_refl st.floor) in
      (c.after, rw (← append-nil (emit_items is)) (c.runs ∙ rw at_floor refl), c.means, c.unwound)

-- The evaluation of expressions has no part in what such a file means.
module _ (p q : (defines : ℕ → Bool) → List ℕ → Bool) where
  holds_same : (t : Test) (w : Text) → IsNameTest t → holds p t w ≡ holds q t w
  holds_same (on_defined v) w h = refl
  holds_same (on_undefined v) w h = refl
  holds_same (on_expr e) w h = absurd h

  mutual
    unfolding eval_items OnNames

    eval_items_same : (is : Items) (w : Text) → OnNames is → eval_items p is w ≡ eval_items q is w
    eval_items_same done w h = refl
    eval_items_same (tokens t is) w h = eval_items_same is (put_text t w) h
    eval_items_same (defining v is) w h = eval_items_same is (set_define v true w) h
    eval_items_same (undefining v is) w h = eval_items_same is (set_define v false w) h
    eval_items_same (conditional t body br is) w (named, h, hs, more) =
        rw (holds_same t w named, eval_items_same body w h, eval_branches_same br w hs)
          (eval_items_same is _ more)

    eval_branches_same :
        (br : Branches) (w : Text) → AreOnNames br → eval_branches p br w ≡ eval_branches q br w
    eval_branches_same closed w h = refl
    eval_branches_same (otherwise is) w h = eval_items_same is w h
    eval_branches_same (else_if e is br) w h = absurd h

-- No name test asks for an expression.
abbrev pub no_expr : (defines : ℕ → Bool) → List ℕ → Bool
no_expr defines e = false

-- A file whose conditionals are closed and ask with #ifdef and #ifndef only, with names that are
-- identifiers and at most 64 conditionals open at once, is read without an error, whatever an
-- expression of #if gives: its text is the first group of each conditional if its test holds and the
-- group of #else otherwise, in the order of the lines, and the stack is as it was.
pub read_lines-eval_items :
    (expr_preprocess : (defines : ℕ → Bool) → List ℕ → Bool) (is : Items) (room : ℕ) (st : State)
    → OnNames is
    → IsNested room is
    → length st.stack ≡ st.floor
    → length st.stack + room ≤ 64
    → (st' : State) × (read_lines expr_preprocess st reading (emit_items is) ≡ ok st')
      × (st'.text_state ≡ eval_items no_expr is st.text_state)
      × (st'.stack ≡ st.stack)
read_lines-eval_items expr_preprocess is room st names nested e size =
    let (st', runs, means, unwound) = reads_file expr_preprocess is room st nested e size in
    (st', runs, means ∙ eval_items_same expr_preprocess no_expr is st.text_state names, unwound)
