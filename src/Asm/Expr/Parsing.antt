-- ===== src/Asm/Expr/Parsing.antt =====
-- The parser computes the meaning that the grammar gives.
use inherpreter.Prelude.{
  ℕ, zero, suc, ◌+◌, ◌≤◌, ◌<◌, ◌≡◌, refl, ap, ◌∙◌, Option, none, some, [], ◌∷◌, ◌++◌, append_assoc,
  arith, length, length-append,
}
use inherpreter.Asm.Expr.{
  rparen, punct, Tokens, ExprValue, AsmState, CLibrary, Answer, value, failed, and_then, Result, ok,
  Parser, bind, lift, ProdOp, mul, div, mod_, shl_by, sar_by, LogicOp, and, or, xor, SumOp, add,
  sub, apply_prod, apply_logic, apply_sum, prod_op, logic_op, sum_op, chain, expr_prod, expr_logic,
  expr_sum, skip_rparen, asm_expr_unary, asm_expr,
}
use inherpreter.Asm.Expr.Grammar.{
  Unary, numeral, character, label, positive, negative, inverted, parens, Prod, prod, Prods,
  no_prods, prods, Logic, logic, Logics, no_logics, logics, Sum, sum, Sums, no_sums, sums, prod_tok,
  logic_tok, sum_tok, emit_unary, emit_prod, emit_prods, emit_logic, emit_logics, emit_sum,
  emit_sums, eval_unary, eval_prod, eval_prods, eval_logic, eval_logics, eval_sum, eval_sums,
}

bind-lift {ℓ κ} :
    {A : Type ℓ} {B : Type κ} (r : Answer A) (ts ts' : Tokens)
    (k : A → AsmState → Tokens → Result B) (g : A → AsmState → Answer B)
    → ((a : A) (st : AsmState) → k a st ts ≡ lift (g a st) ts')
    → bind (lift r ts) k ≡ lift (and_then r g) ts'
bind-lift (value a st) ts ts' k g h = h a st
bind-lift (failed e) ts ts' k g h = refl

length-append_tokens : (xs ys : Tokens) → length (xs ++ ys) ≡ length xs + length ys
length-append_tokens = length-append

ruleset lengths = (arith, length-append_tokens)

length-emit_unary_pos : (u : Unary) → 0 < length (emit_unary u)
unfolding emit_unary
length-emit_unary_pos (numeral p) = omega arith
length-emit_unary_pos _ = omega arith

length-emit_prod_pos : (p : Prod) → 0 < length (emit_prod p)
unfolding emit_unary
length-emit_prod_pos (prod u ps) = omega (lengths, length-emit_unary_pos u)

length-emit_logic_pos : (l : Logic) → 0 < length (emit_logic l)
unfolding emit_unary
length-emit_logic_pos (logic p ls) = omega (lengths, length-emit_prod_pos p)

-- A loop stops in front of tokens that do not begin with its operators.
module _ {ℓ} {Op : Type ℓ} (operand : Parser) (op : Tokens → Option (Op × Tokens))
    (apply : Op → ExprValue → ExprValue → AsmState → Answer ExprValue) where
  chain-stop :
      (n : ℕ) (pe : ExprValue) (st : AsmState) (rest : Tokens)
      → 0 < n
      → op rest ≡ none
      → chain operand op apply n pe st rest ≡ ok pe st rest
  unfolding chain
  chain-stop zero pe st rest pos h = absurd (omega arith)
  chain-stop (suc n) pe st rest pos h = rw (h, chain)

  -- One round, where the operand is read off the front of what follows the operator.
  chain-round :
      (n : ℕ) (pe : ExprValue) (st : AsmState) (ts printed rest : Tokens) (o : Op)
      (r : Answer ExprValue) (g : ExprValue → AsmState → Answer ExprValue) (rest' : Tokens)
      → op ts ≡ some (o, printed ++ rest)
      → operand st (printed ++ rest) ≡ lift r rest
      → ((e : ExprValue) (st' : AsmState)
          → chain operand op apply n e st' rest ≡ lift (g e st') rest')
      → chain operand op apply (suc n) pe st ts
        ≡ lift (and_then r λ e2 st2. and_then (apply o pe e2 st2) g) rest'
  unfolding chain
  chain-round n pe st ts printed rest o r g rest' is reads more =
      rw (is, chain, reads)
        (bind-lift r rest rest' _ _ λ e2 st2. bind-lift (apply o pe e2 st2) rest rest' _ g more)

prod_op-prod_tok : (op : ProdOp) (ts : Tokens) → prod_op (prod_tok op ∷ ts) ≡ some (op, ts)
unfolding prod_op
prod_op-prod_tok mul ts = refl
prod_op-prod_tok div ts = refl
prod_op-prod_tok mod_ ts = refl
prod_op-prod_tok shl_by ts = refl
prod_op-prod_tok sar_by ts = refl

logic_op-logic_tok : (op : LogicOp) (ts : Tokens) → logic_op (logic_tok op ∷ ts) ≡ some (op, ts)
unfolding logic_op
logic_op-logic_tok and ts = refl
logic_op-logic_tok or ts = refl
logic_op-logic_tok xor ts = refl

sum_op-sum_tok : (op : SumOp) (ts : Tokens) → sum_op (sum_tok op ∷ ts) ≡ some (op, ts)
unfolding sum_op
sum_op-sum_tok add ts = refl
sum_op-sum_tok sub ts = refl

-- No operator of a level, or of a level that binds more tightly, comes next.
abbrev StopsLogic : Tokens → Type 0
StopsLogic ts = (prod_op ts ≡ none) × (logic_op ts ≡ none)

abbrev pub StopsSum : Tokens → Type 0
StopsSum ts = StopsLogic ts × (sum_op ts ≡ none)

logics_stop :
    (ls : Logics) (rest : Tokens) → prod_op rest ≡ none → prod_op (emit_logics ls ++ rest) ≡ none
unfolding emit_unary prod_op
logics_stop no_logics rest h = h
logics_stop (logics and p ls) rest h = refl
logics_stop (logics or p ls) rest h = refl
logics_stop (logics xor p ls) rest h = refl

sums_stop : (ss : Sums) (rest : Tokens) → StopsLogic rest → StopsLogic (emit_sums ss ++ rest)
unfolding emit_unary prod_op logic_op
sums_stop no_sums rest h = h
sums_stop (sums add l ss) rest h = (refl, refl)
sums_stop (sums sub l ss) rest h = (refl, refl)

skip_rparen-lift :
    (r : Answer ExprValue) (rest : Tokens)
    → bind (lift r (punct rparen ∷ rest)) skip_rparen ≡ lift r rest
skip_rparen-lift (value pe st) rest = refl
skip_rparen-lift (failed e) rest = refl

rparen_prod : (rest : Tokens) → prod_op (punct rparen ∷ rest) ≡ none
unfolding prod_op
rparen_prod rest = refl

rparen_logic : (rest : Tokens) → logic_op (punct rparen ∷ rest) ≡ none
unfolding logic_op
rparen_logic rest = refl

rparen_sum : (rest : Tokens) → sum_op (punct rparen ∷ rest) ≡ none
unfolding sum_op
rparen_sum rest = refl

module _ (lib : CLibrary) where
  mutual
    unfolding asm_expr_unary expr_prod expr_logic expr_sum emit_unary eval_unary

    reads_unary :
        (u : Unary) (f : ℕ) (st : AsmState) (rest : Tokens)
        → length (emit_unary u) ≤ f
        → asm_expr_unary lib f st (emit_unary u ++ rest) ≡ lift (eval_unary lib u st) rest
    reads_unary u zero st rest h = absurd (omega (arith, length-emit_unary_pos u))
    reads_unary (numeral p) (suc f) st rest h = refl
    reads_unary (character i) (suc f) st rest h = refl
    reads_unary (label tok) (suc f) st rest h = refl
    reads_unary (positive u) (suc f) st rest h = reads_unary u f st rest (omega arith)
    reads_unary (negative u) (suc f) st rest h =
        rw (reads_unary u f st rest (omega arith))
          (bind-lift (eval_unary lib u st) rest rest _ _ λ pe st1. refl)
    reads_unary (inverted u) (suc f) st rest h =
        rw (reads_unary u f st rest (omega arith))
          (bind-lift (eval_unary lib u st) rest rest _ _ λ pe st1. refl)
    reads_unary (parens e) (suc f) st rest h =
        rw
          (
            append_assoc (emit_sum e) (punct rparen ∷ []) rest,
            reads_sum e f f st (punct rparen ∷ rest) (omega lengths) (omega lengths)
                ((rparen_prod rest, rparen_logic rest), rparen_sum rest),
          )
          (skip_rparen-lift (eval_sum lib e st) rest)

    reads_prods :
        (ps : Prods) (f n : ℕ) (pe : ExprValue) (st : AsmState) (rest : Tokens)
        → length (emit_prods ps) ≤ f
        → length (emit_prods ps) < n
        → prod_op rest ≡ none
        → chain (asm_expr_unary lib f) prod_op apply_prod n pe st (emit_prods ps ++ rest)
          ≡ lift (eval_prods lib ps pe st) rest
    reads_prods ps f zero pe st rest hf hn h = absurd (omega arith)
    reads_prods no_prods f (suc n) pe st rest hf hn h =
        chain-stop (asm_expr_unary lib f) prod_op apply_prod (suc n) pe st rest (omega arith) h
    reads_prods (prods op u ps) f (suc n) pe st rest hf hn h =
        chain-round (asm_expr_unary lib f) prod_op apply_prod n pe st
          (emit_prods (prods op u ps) ++ rest) (emit_unary u) (emit_prods ps ++ rest) op
          (eval_unary lib u st) (eval_prods lib ps) rest
          (prod_op-prod_tok op _
            ∙ ap (λ l. some (op, l)) (append_assoc (emit_unary u) (emit_prods ps) rest))
          (reads_unary u f st (emit_prods ps ++ rest) (omega lengths))
          (λ e st'. reads_prods ps f n e st' rest (omega lengths) (omega lengths) h)

    reads_prod :
        (p : Prod) (f n : ℕ) (st : AsmState) (rest : Tokens)
        → length (emit_prod p) ≤ f
        → length (emit_prod p) ≤ n
        → prod_op rest ≡ none
        → expr_prod (asm_expr_unary lib f) n st (emit_prod p ++ rest)
          ≡ lift (eval_prod lib p st) rest
    reads_prod (prod u ps) f n st rest hf hn h =
        rw
          (
            append_assoc (emit_unary u) (emit_prods ps) rest,
            reads_unary u f st (emit_prods ps ++ rest) (omega lengths),
          )
          (bind-lift (eval_unary lib u st) (emit_prods ps ++ rest) rest _ (eval_prods lib ps)
            λ pe st'.
              reads_prods ps f n pe st' rest (omega lengths)
                (omega (lengths, length-emit_unary_pos u)) h)

    reads_logics :
        (ls : Logics) (f n m : ℕ) (pe : ExprValue) (st : AsmState) (rest : Tokens)
        → length (emit_logics ls) ≤ f
        → length (emit_logics ls) ≤ n
        → length (emit_logics ls) < m
        → StopsLogic rest
        → chain
            (expr_prod (asm_expr_unary lib f) n)
            logic_op
            apply_logic
            m
            pe
            st
            (emit_logics ls ++ rest)
          ≡ lift (eval_logics lib ls pe st) rest
    reads_logics ls f n zero pe st rest hf hn hm h = absurd (omega arith)
    reads_logics no_logics f n (suc m) pe st rest hf hn hm h =
        chain-stop (expr_prod (asm_expr_unary lib f) n) logic_op apply_logic (suc m) pe st rest
          (omega arith) h.1
    reads_logics (logics op p ls) f n (suc m) pe st rest hf hn hm h =
        chain-round (expr_prod (asm_expr_unary lib f) n) logic_op apply_logic m pe st
          (emit_logics (logics op p ls) ++ rest) (emit_prod p) (emit_logics ls ++ rest) op
          (eval_prod lib p st) (eval_logics lib ls) rest
          (logic_op-logic_tok op _
            ∙ ap (λ l. some (op, l)) (append_assoc (emit_prod p) (emit_logics ls) rest))
          (reads_prod p f n st (emit_logics ls ++ rest) (omega lengths) (omega lengths)
            (logics_stop ls rest h.0))
          (λ e st'.
            reads_logics ls f n m e st' rest (omega lengths) (omega lengths) (omega lengths) h)

    reads_logic :
        (l : Logic) (f n : ℕ) (st : AsmState) (rest : Tokens)
        → length (emit_logic l) ≤ f
        → length (emit_logic l) ≤ n
        → StopsLogic rest
        → expr_logic (asm_expr_unary lib f) n st (emit_logic l ++ rest)
          ≡ lift (eval_logic lib l st) rest
    reads_logic (logic p ls) f n st rest hf hn h =
        rw
          (
            append_assoc (emit_prod p) (emit_logics ls) rest,
            reads_prod p f n st (emit_logics ls ++ rest) (omega lengths) (omega lengths)
                (logics_stop ls rest h.0),
          )
          (bind-lift (eval_prod lib p st) (emit_logics ls ++ rest) rest _ (eval_logics lib ls)
            λ pe st'.
              reads_logics ls f n n pe st' rest (omega lengths) (omega lengths)
                (omega (lengths, length-emit_prod_pos p)) h)

    reads_sums :
        (ss : Sums) (f n m : ℕ) (pe : ExprValue) (st : AsmState) (rest : Tokens)
        → length (emit_sums ss) ≤ f
        → length (emit_sums ss) ≤ n
        → length (emit_sums ss) < m
        → StopsSum rest
        → chain
            (expr_logic (asm_expr_unary lib f) n)
            sum_op
            apply_sum
            m
            pe
            st
            (emit_sums ss ++ rest)
          ≡ lift (eval_sums lib ss pe st) rest
    reads_sums ss f n zero pe st rest hf hn hm h = absurd (omega arith)
    reads_sums no_sums f n (suc m) pe st rest hf hn hm h =
        chain-stop (expr_logic (asm_expr_unary lib f) n) sum_op apply_sum (suc m) pe st rest
          (omega arith) h.1
    reads_sums (sums op l ss) f n (suc m) pe st rest hf hn hm h =
        chain-round (expr_logic (asm_expr_unary lib f) n) sum_op apply_sum m pe st
          (emit_sums (sums op l ss) ++ rest) (emit_logic l) (emit_sums ss ++ rest) op
          (eval_logic lib l st) (eval_sums lib ss) rest
          (sum_op-sum_tok op _
            ∙ ap (λ l. some (op, l)) (append_assoc (emit_logic l) (emit_sums ss) rest))
          (reads_logic l f n st (emit_sums ss ++ rest) (omega lengths) (omega lengths)
            (sums_stop ss rest h.0))
          (λ e st'.
            reads_sums ss f n m e st' rest (omega lengths) (omega lengths) (omega lengths) h)

    reads_sum :
        (e : Sum) (f n : ℕ) (st : AsmState) (rest : Tokens)
        → length (emit_sum e) ≤ f
        → length (emit_sum e) ≤ n
        → StopsSum rest
        → expr_sum (asm_expr_unary lib f) n st (emit_sum e ++ rest) ≡ lift (eval_sum lib e st) rest
    reads_sum (sum l ss) f n st rest hf hn h =
        rw
          (
            append_assoc (emit_logic l) (emit_sums ss) rest,
            reads_logic l f n st (emit_sums ss ++ rest) (omega lengths) (omega lengths)
                (sums_stop ss rest h.0),
          )
          (bind-lift (eval_logic lib l st) (emit_sums ss ++ rest) rest _ (eval_sums lib ss)
            λ pe st'.
              reads_sums ss f n n pe st' rest (omega lengths) (omega lengths)
                (omega (lengths, length-emit_logic_pos l)) h)

-- Reading a written expression, in front of tokens that do not begin with an operator, gives its
-- value or its error, leaves those tokens, and has the effects on the labels in the order in which
-- the expression is written.
pub asm_expr-eval_sum :
    (lib : CLibrary) (e : Sum) (st : AsmState) (rest : Tokens)
    → StopsSum rest
    → asm_expr lib st (emit_sum e ++ rest) ≡ lift (eval_sum lib e st) rest
unfolding asm_expr
asm_expr-eval_sum lib e st rest h =
    let n = suc (length (emit_sum e ++ rest)) in
    reads_sum lib e n n st rest (omega lengths) (omega lengths) h
