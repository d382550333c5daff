-- ===== src/Cpp/Conditionals/Nesting.antt =====
-- Reading conditionals: the directives, and the branches behind a group that was read.
use inherpreter.Prelude.{
  ℕ, suc, ◌+◌, ◌≤◌, ◌<◌, ◌≡◌, refl, ◌∙◌, subst, inl, inr, Bool, true, false, not, ◌&&◌, List, [],
  ◌∷◌, ◌++◌, append_assoc, arith, ltb, leb, ◌==◌, if◌then◌else◌, to_nat, Bool-cases, length,
}
use inherpreter.Cpp.Idents.{tok_ident_base}
use inherpreter.Cpp.Conditionals.{
  Line, elif, else_, endif, Result, ok, Text, State, Mode, reading, skipping, begin_line, mode_of,
  pop_if, preprocess, preprocess_skip, read_lines,
}
use inherpreter.Cpp.Conditionals.Grammar.{
  Test, on_defined, on_undefined, on_expr, Items, Branches, closed, otherwise, else_if, test_line,
  emit_items, emit_branches, holds, IsTest,
}
use inherpreter.Cpp.Conditionals.Skipping.{read_line, skip_end, skips_items, skip_to_branches}

module _ (expr_preprocess : (defines : ℕ → Bool) → List ℕ → Bool) where
  abbrev pub lines : State → Mode → List Line → Result State
  lines = read_lines expr_preprocess

  abbrev pub directive : State → Line → Result (State × Mode)
  directive = preprocess expr_preprocess

  abbrev pub opened : Test → State → State
  opened (on_undefined v) st = record (begin_line st) {
    ifndef_macro = if st.is_bof then v else st.ifndef_macro;
  }
  opened _ st = begin_line st

  abbrev pub with_stack : List ℕ → State → State
  with_stack cs st = record st { stack = cs }

  pub open_test :
      (t : Test) (st : State)
      → IsTest t
      → length st.stack < 64
      → directive st (test_line t)
        ≡ ok (
          with_stack (to_nat (holds expr_preprocess t st.text_state) ∷ st.stack) (opened t st),
          mode_of (holds expr_preprocess t st.text_state),
        )
  unfolding preprocess
  open_test (on_defined v) st h room =
      let name : ltb v tok_ident_base ≡ false = ground arith in
      let free : leb 64 (length st.stack) ≡ false = ground arith in rw (name, free) refl
  open_test (on_undefined v) st h room =
      let name : ltb v tok_ident_base ≡ false = ground arith in
      let free : leb 64 (length st.stack) ≡ false = ground arith in rw (name, free) refl
  open_test (on_expr e) st h room =
      let free : leb 64 (length st.stack) ≡ false = ground arith in rw free refl

  pub read_endif :
      (st : State) (c : ℕ) (cs : List ℕ)
      → st.stack ≡ c ∷ cs
      → st.floor ≤ length cs
      → directive st endif ≡ ok (pop_if cs (begin_line st), reading)
  unfolding preprocess
  read_endif st c cs e le =
      let more : leb (suc (length cs)) st.floor ≡ false = ground arith in rw (e, more) refl

  abbrev pub tested : State → State
  tested st = record st {
    ifndef_macro = if length st.stack == st.floor + 1 then 0 else st.ifndef_macro;
  }

  -- #else after a group that was read, and after groups that were not.
  pub read_else :
      (st : State) (b : Bool) (cs : List ℕ)
      → st.stack ≡ to_nat b ∷ cs
      → directive st else_
        ≡ ok (tested (with_stack ((if b then 2 else 3) ∷ cs) (begin_line st)), mode_of (not b))
  unfolding preprocess
  read_else st true cs e = rw e refl
  read_else st false cs e = rw e refl

  pub read_elif_taken :
      (st : State) (e : List ℕ) (cs : List ℕ)
      → st.stack ≡ 1 ∷ cs
      → directive st (elif e) ≡ ok (begin_line st, skipping 0)
  unfolding preprocess
  read_elif_taken st e cs h = rw h refl

  pub read_elif :
      (st : State) (e : List ℕ) (cs : List ℕ) (b : Bool)
      → st.stack ≡ 0 ∷ cs
      → expr_preprocess st.text_state.defines e ≡ b
      → directive st (elif e) ≡ ok (tested (with_stack (to_nat b ∷ cs) (begin_line st)), mode_of b)
  unfolding preprocess
  read_elif st e cs true h value = rw (h, value) refl
  read_elif st e cs false h value = rw (h, value) refl

  -- Reading `ls` in front of `rest` leads to a state behind them, with the text `w` and the stack
  -- `cs`; inside another conditional of the file, what is known of its first #ifndef stays.
  pub record Closes (st : State) (mode : Mode) (cs : List ℕ) (ls rest : List Line) (w : Text)
      : Type 0 where
    pub after : State
    pub runs : lines st mode (ls ++ rest) ≡ lines after reading rest
    pub means : after.text_state ≡ w
    pub unwound : after.stack ≡ cs
    pub same_floor : after.floor ≡ st.floor
    pub same_guard :
        st.floor < length cs
        → st.is_bof ≡ false
        → (after.ifndef_macro ≡ st.ifndef_macro)
          × (after.ifndef_macro_saved ≡ st.ifndef_macro_saved)
          × (after.is_bof ≡ false)

  -- Another way to the same lines.
  pub Closes-from :
      (st st1 : State) (mode mode1 : Mode) (cs : List ℕ) (ls ls1 rest : List Line) (w : Text)
      → lines st mode (ls ++ rest) ≡ lines st1 mode1 (ls1 ++ rest)
      → st1.floor ≡ st.floor
      → (st.floor < length cs
          → st.is_bof ≡ false
          → (st1.ifndef_macro ≡ st.ifndef_macro)
            × (st1.ifndef_macro_saved ≡ st.ifndef_macro_saved)
            × (st1.is_bof ≡ false))
      → Closes st1 mode1 cs ls1 rest w
      → Closes st mode cs ls rest w
  Closes-from st st1 mode mode1 cs ls ls1 rest w e same guard c = record {
    after = c.after;
    runs = e ∙ c.runs;
    means = c.means;
    unwound = c.unwound;
    same_floor = c.same_floor ∙ same;
    same_guard = λ inner bof.
        let (m1, s1, b1) = guard inner bof in
        let (m2, s2, b2) = c.same_guard (rw same inner) b1 in (m2 ∙ m1, s2 ∙ s1, b2);
  }

  pub same_outcome :
      (st : State) (mode : Mode) (cs cs' : List ℕ) (ls rest : List Line) (w w' : Text)
      → cs ≡ cs'
      → w ≡ w'
      → Closes st mode cs ls rest w
      → Closes st mode cs' ls rest w'
  same_outcome st mode cs cs' ls rest w w' e f c =
      subst (λ cs. Closes st mode cs ls rest w') e (subst (Closes st mode cs ls rest) f c)

  pub Closes-endif :
      (st : State) (c : ℕ) (cs : List ℕ) (rest : List Line)
      → st.stack ≡ c ∷ cs
      → st.floor ≤ length cs
      → Closes st reading cs (endif ∷ []) rest st.text_state
  Closes-endif st c cs rest e le =
      let next = pop_if cs (begin_line st) in
      let run = read_line expr_preprocess st endif rest next reading (read_endif st c cs e le) in
      elim (Bool-cases (not (st.ifndef_macro == 0) && (length cs == st.floor))) [
        | inl guards ↦ record {
          after = next;
          runs = run;
          means = rw guards refl;
          unwound = rw guards refl;
          same_floor = rw guards refl;
          same_guard = λ inner bof. absurd (ground arith);
        }
        | inr other ↦ record {
          after = next;
          runs = run;
          means = rw other refl;
          unwound = rw other refl;
          same_floor = rw other refl;
          same_guard = λ inner bof. (rw other refl, rw other refl, rw other refl);
        }
      ]

  pub tested_guard :
      (st : State) (c : ℕ) (cs : List ℕ)
      → st.floor < length cs
      → (tested (with_stack (c ∷ cs) st)).ifndef_macro ≡ st.ifndef_macro
  tested_guard st c cs inner =
      let other : (suc (length cs) == st.floor + 1) ≡ false = ground arith in rw other refl

  Closes-taken :
      (br : Branches) (st : State) (cs : List ℕ) (rest : List Line)
      → st.stack ≡ 1 ∷ cs
      → st.floor ≤ length cs
      → Closes st reading cs (emit_branches br) rest st.text_state
  unfolding emit_items
  Closes-taken closed st cs rest e le = Closes-endif st 1 cs rest e le
  Closes-taken (otherwise is) st cs rest e le =
      let st1 = tested (with_stack (2 ∷ cs) (begin_line st)) in
      let way =
        read_line expr_preprocess st else_ (emit_items is ++ (endif ∷ rest)) st1 (skipping 0)
          (read_else st true cs e)
        ∙ skips_items expr_preprocess is st1 0 (endif ∷ rest)
        ∙ skip_end expr_preprocess st1 0 endif rest (unfold preprocess_skip in refl) in
      Closes-from st st1 reading reading cs (else_ ∷ (emit_items is ++ endif ∷ [])) (endif ∷ [])
        rest st.text_state (rw (append_assoc (emit_items is) (endif ∷ []) rest) way) refl
        (λ inner bof. (tested_guard (begin_line st) 2 cs inner, refl, refl))
        (Closes-endif st1 2 cs rest refl le)
  Closes-taken (else_if e' is br) st cs rest e le =
      let st1 = begin_line st in
      let way =
        read_line expr_preprocess st (elif e') (emit_items is ++ (emit_branches br ++ rest)) st1
          (skipping 0) (read_elif_taken st e' cs e)
        ∙ skips_items expr_preprocess is st1 0 (emit_branches br ++ rest)
        ∙ skip_to_branches expr_preprocess br st1 rest in
      Closes-from st st1 reading reading cs (elif e' ∷ (emit_items is ++ emit_branches br))
        (emit_branches br) rest st.text_state
        (rw (append_assoc (emit_items is) (emit_branches br) rest) way) refl
        (λ inner bof. (refl, refl, refl)) (Closes-taken br st1 cs rest e le)

  -- One group of lines behind another.
  pub Closes-append :
      (st : State) (mode : Mode) (cs1 cs2 : List ℕ) (ls1 ls2 rest : List Line) (w1 w2 : Text)
      (c : Closes st mode cs1 ls1 (ls2 ++ rest) w1)
      → length cs2 ≤ length cs1
      → Closes c.after reading cs2 ls2 rest w2
      → Closes st mode cs2 (ls1 ++ ls2) rest w2
  Closes-append st mode cs1 cs2 ls1 ls2 rest w1 w2 c le d = record {
    after = d.after;
    runs = rw (append_assoc ls1 ls2 rest) (c.runs ∙ d.runs);
    means = d.means;
    unwound = d.unwound;
    same_floor = d.same_floor ∙ c.same_floor;
    same_guard = λ inner bof.
        let (m1, s1, b1) = c.same_guard (omega arith) bof in
        let (m2, s2, b2) = d.same_guard (rw c.same_floor inner) b1 in (m2 ∙ m1, s2 ∙ s1, b2);
  }

  -- The first group of a conditional or of #elif, with the branches behind it: one of them is read.
  pub Closes-group :
      (b : Bool) (body : Items) (br : Branches) (st : State) (cs : List ℕ) (rest : List Line)
      (w1 w2 : Text)
      → st.stack ≡ to_nat b ∷ cs
      → st.floor ≤ length cs
      → Closes st reading st.stack (emit_items body) (emit_branches br ++ rest) w1
      → (b ≡ false → Closes st reading cs (emit_branches br) rest w2)
      → Closes st (mode_of b) cs (emit_items body ++ emit_branches br) rest (if b then w1 else w2)
  Closes-group true body br st cs rest w1 w2 e le read others =
      Closes-append st reading st.stack cs (emit_items body) (emit_branches br) rest w1 w1 read
        (rw e (omega arith))
        (subst (Closes read.after reading cs (emit_branches br) rest) read.means
          (Closes-taken br read.after cs rest (read.unwound ∙ e) (rw read.same_floor le)))
  Closes-group false body br st cs rest w1 w2 e le read others =
      let way =
        skips_items expr_preprocess body st 0 (emit_branches br ++ rest)
        ∙ skip_to_branches expr_preprocess br st rest in
      Closes-from st st (skipping 0) reading cs (emit_items body ++ emit_branches br)
        (emit_branches br) rest w2 (rw (append_assoc (emit_items body) (emit_branches br) rest) way)
        refl (λ inner bof. (refl, refl, bof)) (others refl)
