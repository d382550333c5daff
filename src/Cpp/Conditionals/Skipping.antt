-- ===== src/Cpp/Conditionals/Skipping.antt =====
-- Single lines, and groups that are skipped.
use inherpreter.Prelude.{
  ℕ, zero, suc, ◌≡◌, refl, ◌∙◌, Bool, none, some, List, [], ◌∷◌, ◌++◌, append_assoc,
}
use inherpreter.Cpp.Conditionals.{
  Line, text, define, undef, elif, else_, endif, Result, ok, State, Mode, reading, skipping,
  preprocess, preprocess_skip, read_lines,
}
use inherpreter.Cpp.Conditionals.Grammar.{
  Test, on_defined, on_undefined, on_expr, Items, done, tokens, defining, undefining, conditional,
  Branches, closed, otherwise, else_if, test_line, emit_items, emit_branches,
}

module _ (expr_preprocess : (defines : ℕ → Bool) → List ℕ → Bool) where
  abbrev lines : State → Mode → List Line → Result State
  lines = read_lines expr_preprocess

  pub read_line :
      (st : State) (l : Line) (ls : List Line) (st' : State) (mode : Mode)
      → preprocess expr_preprocess st l ≡ ok (st', mode)
      → lines st reading (l ∷ ls) ≡ lines st' mode ls
  unfolding read_lines
  read_line st l ls st' mode e = rw (read_lines, e) refl

  pub skip_line :
      (st : State) (a a' : ℕ) (l : Line) (ls : List Line)
      → preprocess_skip a l ≡ some a'
      → lines st (skipping a) (l ∷ ls) ≡ lines st (skipping a') ls
  unfolding read_lines
  skip_line st a a' l ls e = rw (read_lines, e) refl

  pub skip_end :
      (st : State) (a : ℕ) (l : Line) (ls : List Line)
      → preprocess_skip a l ≡ none
      → lines st (skipping a) (l ∷ ls) ≡ lines st reading (l ∷ ls)
  unfolding read_lines
  skip_end st a l ls e = rw (read_lines, e) refl

  skip_text : (a t : ℕ) → preprocess_skip a (text t) ≡ some a
  unfolding preprocess_skip
  skip_text zero t = refl
  skip_text (suc a) t = refl

  skip_define : (a t : ℕ) → preprocess_skip a (define t) ≡ some a
  unfolding preprocess_skip
  skip_define zero t = refl
  skip_define (suc a) t = refl

  skip_undef : (a t : ℕ) → preprocess_skip a (undef t) ≡ some a
  unfolding preprocess_skip
  skip_undef zero t = refl
  skip_undef (suc a) t = refl

  skip_test : (a : ℕ) (t : Test) → preprocess_skip a (test_line t) ≡ some (suc a)
  unfolding preprocess_skip
  skip_test zero (on_defined v) = refl
  skip_test zero (on_undefined v) = refl
  skip_test zero (on_expr e) = refl
  skip_test (suc a) (on_defined v) = refl
  skip_test (suc a) (on_undefined v) = refl
  skip_test (suc a) (on_expr e) = refl

  skip_inner :
      (a : ℕ) (e : List ℕ)
      → (preprocess_skip (suc a) endif ≡ some a)
        × (preprocess_skip (suc a) else_ ≡ some (suc a))
        × (preprocess_skip (suc a) (elif e) ≡ some (suc a))
  unfolding preprocess_skip
  skip_inner a e = (refl, refl, refl)

  mutual
    unfolding emit_items

    -- Skipping passes over a group at any depth.
    pub skips_items :
        (is : Items) (st : State) (a : ℕ) (rest : List Line)
        → lines st (skipping a) (emit_items is ++ rest) ≡ lines st (skipping a) rest
    skips_items done st a rest = refl
    skips_items (tokens t is) st a rest =
        skip_line st a a (text t) _ (skip_text a t) ∙ skips_items is st a rest
    skips_items (defining v is) st a rest =
        skip_line st a a (define v) _ (skip_define a v) ∙ skips_items is st a rest
    skips_items (undefining v is) st a rest =
        skip_line st a a (undef v) _ (skip_undef a v) ∙ skips_items is st a rest
    skips_items (conditional t body br is) st a rest =
        rw
          (
            append_assoc (emit_items body) (emit_branches br ++ emit_items is) rest,
            append_assoc (emit_branches br) (emit_items is) rest,
          )
          (skip_line st a (suc a) (test_line t) _ (skip_test a t)
            ∙ skips_items body st (suc a) (emit_branches br ++ (emit_items is ++ rest))
            ∙ skips_branches br st a (emit_items is ++ rest)
            ∙ skips_items is st a rest)

    -- The branches of an inner conditional lead out of it.
    pub skips_branches :
        (br : Branches) (st : State) (a : ℕ) (rest : List Line)
        → lines st (skipping (suc a)) (emit_branches br ++ rest) ≡ lines st (skipping a) rest
    skips_branches closed st a rest = skip_line st (suc a) a endif _ (skip_inner a []).0
    skips_branches (otherwise is) st a rest = rw (append_assoc (emit_items is) (endif ∷ []) rest) (
        skip_line st (suc a) (suc a) else_ _ (skip_inner a []).1
        ∙ skips_items is st (suc a) (endif ∷ rest)
        ∙ skip_line st (suc a) a endif _ (skip_inner a []).0)
    skips_branches (else_if e is br) st a rest =
        rw (append_assoc (emit_items is) (emit_branches br) rest) (
          skip_line st (suc a) (suc a) (elif e) _ (skip_inner a e).2
          ∙ skips_items is st (suc a) (emit_branches br ++ rest)
          ∙ skips_branches br st a rest)

  -- At depth 0, the first line of the branches is read.
  pub skip_to_branches :
      (br : Branches) (st : State) (rest : List Line)
      → lines st (skipping 0) (emit_branches br ++ rest)
        ≡ lines st reading (emit_branches br ++ rest)
  unfolding emit_items preprocess_skip
  skip_to_branches closed st rest = skip_end st 0 endif _ refl
  skip_to_branches (otherwise is) st rest = skip_end st 0 else_ _ refl
  skip_to_branches (else_if e is br) st rest = skip_end st 0 (elif e) _ refl
