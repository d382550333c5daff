-- ===== src/Asm/Expr/Grammar.antt =====
-- The grammar of the assembler's expressions: how they are written, and what they mean. Operators of
-- one level group from the left.
use inherpreter.Prelude.{ℕ, List, [], ◌∷◌, ◌++◌}
use inherpreter.Asm.Expr.{
  plus, minus, tilde, star, slash, percent, shl, sar, amp, bar, caret, lparen, rparen, Tok, ppnum,
  cchar, ident, punct, Tokens, ExprValue, AsmState, CLibrary, Answer, value, and_then, constant,
  number, name, without_label, negate, invert, ProdOp, mul, div, mod_, shl_by, sar_by, LogicOp, and,
  or, xor, SumOp, add, sub, apply_prod, apply_logic, apply_sum,
}

-- A sum is a chain of logic terms, those are chains of products, and those of unary terms.
mutual
  pub data Unary : Type 0 where
    numeral : List ℕ → Unary
    character : ℕ → Unary
    label : ℕ → Unary
    positive negative inverted : Unary → Unary
    parens : Sum → Unary

  pub data Prod : Type 0 where
    prod : Unary → Prods → Prod

  pub data Prods : Type 0 where
    no_prods : Prods
    prods : ProdOp → Unary → Prods → Prods

  pub data Logic : Type 0 where
    logic : Prod → Logics → Logic

  pub data Logics : Type 0 where
    no_logics : Logics
    logics : LogicOp → Prod → Logics → Logics

  pub data Sum : Type 0 where
    sum : Logic → Sums → Sum

  pub data Sums : Type 0 where
    no_sums : Sums
    sums : SumOp → Logic → Sums → Sums

abbrev pub prod_tok : ProdOp → Tok
prod_tok mul = punct star
prod_tok div = punct slash
prod_tok mod_ = punct percent
prod_tok shl_by = punct shl
prod_tok sar_by = punct sar

abbrev pub logic_tok : LogicOp → Tok
logic_tok and = punct amp
logic_tok or = punct bar
logic_tok xor = punct caret

abbrev pub sum_tok : SumOp → Tok
sum_tok add = punct plus
sum_tok sub = punct minus

unfoldable mutual
  pub emit_unary : Unary → Tokens
  emit_unary (numeral p) = ppnum p ∷ []
  emit_unary (character i) = cchar i ∷ []
  emit_unary (label tok) = ident tok ∷ []
  emit_unary (positive u) = punct plus ∷ emit_unary u
  emit_unary (negative u) = punct minus ∷ emit_unary u
  emit_unary (inverted u) = punct tilde ∷ emit_unary u
  emit_unary (parens e) = punct lparen ∷ (emit_sum e ++ punct rparen ∷ [])

  pub emit_prod : Prod → Tokens
  emit_prod (prod u ps) = emit_unary u ++ emit_prods ps

  pub emit_prods : Prods → Tokens
  emit_prods no_prods = []
  emit_prods (prods op u ps) = prod_tok op ∷ (emit_unary u ++ emit_prods ps)

  pub emit_logic : Logic → Tokens
  emit_logic (logic p ls) = emit_prod p ++ emit_logics ls

  pub emit_logics : Logics → Tokens
  emit_logics no_logics = []
  emit_logics (logics op p ls) = logic_tok op ∷ (emit_prod p ++ emit_logics ls)

  pub emit_sum : Sum → Tokens
  emit_sum (sum l ss) = emit_logic l ++ emit_sums ss

  pub emit_sums : Sums → Tokens
  emit_sums no_sums = []
  emit_sums (sums op l ss) = sum_tok op ∷ (emit_logic l ++ emit_sums ss)

module _ (lib : CLibrary) where
  unfoldable mutual
    unfolding number name apply_prod apply_logic apply_sum

    pub eval_unary : Unary → AsmState → Answer ExprValue
    eval_unary (numeral p) st = number lib p st
    eval_unary (character i) st = constant i st
    eval_unary (label tok) st = name tok st
    eval_unary (positive u) st = eval_unary u st
    eval_unary (negative u) st = and_then (eval_unary u st) λ pe st1. without_label pe negate st1
    eval_unary (inverted u) st = and_then (eval_unary u st) λ pe st1. without_label pe invert st1
    eval_unary (parens e) st = eval_sum e st

    pub eval_prod : Prod → AsmState → Answer ExprValue
    eval_prod (prod u ps) st = and_then (eval_unary u st) (eval_prods ps)

    pub eval_prods : Prods → ExprValue → AsmState → Answer ExprValue
    eval_prods no_prods pe st = value pe st
    eval_prods (prods op u ps) pe st =
        and_then (eval_unary u st) λ e2 st2. and_then (apply_prod op pe e2 st2) (eval_prods ps)

    pub eval_logic : Logic → AsmState → Answer ExprValue
    eval_logic (logic p ls) st = and_then (eval_prod p st) (eval_logics ls)

    pub eval_logics : Logics → ExprValue → AsmState → Answer ExprValue
    eval_logics no_logics pe st = value pe st
    eval_logics (logics op p ls) pe st =
        and_then (eval_prod p st) λ e2 st2. and_then (apply_logic op pe e2 st2) (eval_logics ls)

    pub eval_sum : Sum → AsmState → Answer ExprValue
    eval_sum (sum l ss) st = and_then (eval_logic l st) (eval_sums ss)

    pub eval_sums : Sums → ExprValue → AsmState → Answer ExprValue
    eval_sums no_sums pe st = value pe st
    eval_sums (sums op l ss) pe st =
        and_then (eval_logic l st) λ e2 st2. and_then (apply_sum op pe e2 st2) (eval_sums ss)
