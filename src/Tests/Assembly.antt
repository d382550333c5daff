-- ===== src/Tests/Assembly.antt =====
-- Expressions and labels of the assembler.
use inherpreter.Prelude.{ℕ, ◌+◌, ◌-◌, ◌*◌, ◌≡◌, refl, ◌&&◌, List, [], ◌∷◌, ◌++◌, leb, if◌then◌else◌}
use inherpreter.Cpp.Idents.{no_idents}
use inherpreter.Cpp.Labels.{Labels}
use inherpreter.Asm.Expr.{
  star, lparen, rparen, ppnum, punct, AsmState, CLibrary, ok, mul, sub, prod_op, logic_op, sum_op,
  asm_expr,
}
use inherpreter.Asm.Expr.Grammar.{
  Unary, numeral, prod, no_prods, prods, logic, no_logics, Sum, sum, no_sums, sums, emit_sum,
  eval_sum,
}
use inherpreter.Asm.Expr.Parsing.{asm_expr-eval_sum}
use inherpreter.Asm.Expr.Ending.{Leaves, asm_expr-Leaves}

-- A library that reads decimal digits, and prints numbers of one digit.
abbrev decimal : ℕ → List ℕ → ℕ × List ℕ
decimal n [] = (n, [])
decimal n (c ∷ p) =
    let rest = decimal (n * 10 + (c - b'0')) p in
    if leb b'0' c && leb c b'9' then rest else (n, c ∷ p)

abbrev c_library : CLibrary
c_library = record { strtoul = decimal 0; print_label = λ n. b'L' ∷ b'.' ∷ b'.' ∷ (n + b'0') ∷ [] }

abbrev no_labels_yet : Labels
no_labels_yet = record {
  heap = λ i. record { v = 0; r = 0; jnext = 0; prev = 0; prev_tok = 0 };
  next_sym = 1;
  top = λ p. 0;
  sym_label = λ v. 0;
}

abbrev start : AsmState
start = record { labels = no_labels_yet; idents = no_idents }

abbrev digit : ℕ → Unary
digit d = numeral ((d + b'0') ∷ [])

-- 7-2*3
abbrev seven_less_six : Sum
seven_less_six =
    sum (logic (prod (digit 7) no_prods) no_logics)
      (sums sub (logic (prod (digit 2) (prods mul (digit 3) no_prods)) no_logics) no_sums)

asm_expr-eval_sum_example :
    asm_expr c_library start (emit_sum seven_less_six ++ punct rparen ∷ [])
    ≡ ok (record { v = 1; sym = 0 }) start (punct rparen ∷ [])
unfolding eval_sum
asm_expr-eval_sum_example =
    asm_expr-eval_sum c_library seven_less_six start (punct rparen ∷ [])
      ((unfold prod_op in refl, unfold logic_op in refl), unfold sum_op in refl)

asm_expr-Leaves_example :
    Leaves 3 (asm_expr c_library start (punct lparen ∷ ppnum (b'7' ∷ []) ∷ punct star ∷ []))
asm_expr-Leaves_example =
    asm_expr-Leaves c_library start (punct lparen ∷ ppnum (b'7' ∷ []) ∷ punct star ∷ [])
