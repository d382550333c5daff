-- ===== src/Asm/Expr/Ending.antt =====
-- The parser always ends with an answer, on any tokens.
use inherpreter.Prelude.{
  ℕ, zero, suc, ◌≤◌, ◌<◌, ◌≡◌, inl, inr, Option, some, [], ◌∷◌, arith, Option-cases, length,
}
use inherpreter.Asm.Expr.{
  plus, minus, tilde, star, slash, percent, shl, sar, amp, bar, caret, lparen, rparen, ppnum, cchar,
  ident, punct, Tokens, ExprValue, AsmState, CLibrary, Answer, value, failed, Result, ok, error,
  out_of_fuel, Parser, bind, lift, constant, number, name, without_label, negate, invert,
  apply_prod, apply_logic, apply_sum, prod_op, logic_op, sum_op, chain, expr_prod, expr_logic,
  expr_sum, skip_rparen, asm_expr_unary, asm_expr,
}

-- The run kept within its fuel, and left fewer than `n` tokens if it succeeded.
abbrev pub Leaves {ℓ} : {A : Type ℓ} → ℕ → Result A → Type 0
Leaves n (ok a st ts) = length ts < n
Leaves n (error e) = Unit
Leaves n out_of_fuel = ⊥

Leaves-bind {ℓ κ} :
    {A : Type ℓ} {B : Type κ} (n m : ℕ) (r : Result A) (k : A → AsmState → Tokens → Result B)
    → Leaves n r
    → ((a : A) (st : AsmState) (ts : Tokens) → length ts < n → Leaves m (k a st ts))
    → Leaves m (bind r k)
Leaves-bind n m (ok a st ts) k h more = more a st ts h
Leaves-bind n m (error e) k h more = tt
Leaves-bind n m out_of_fuel k h more = h

Leaves-lift {ℓ} :
    {A : Type ℓ} (n : ℕ) (r : Answer A) (ts : Tokens) → length ts < n → Leaves n (lift r ts)
Leaves-lift n (value a st) ts h = h
Leaves-lift n (failed e) ts h = tt

Leaves-le {ℓ} : {A : Type ℓ} (n m : ℕ) (r : Result A) → n ≤ m → Leaves n r → Leaves m r
Leaves-le n m (ok a st ts) le h = omega arith
Leaves-le n m (error e) le h = tt
Leaves-le n m out_of_fuel le h = h

-- A parser that ends where there are fewer than `n` tokens, and reads one token or more.
abbrev EndsBelow : ℕ → Parser → Type 0
EndsBelow n p = (st : AsmState) (ts : Tokens) → length ts < n → Leaves (length ts) (p st ts)

abbrev Shrinks {ℓ} : {Op : Type ℓ} → (Tokens → Option (Op × Tokens)) → Type ℓ
Shrinks {Op = Op} op =
    (ts : Tokens) (o : Op) (ts1 : Tokens) → op ts ≡ some (o, ts1) → length ts1 < length ts

module _ {ℓ} {Op : Type ℓ} (operand : Parser) (op : Tokens → Option (Op × Tokens))
    (apply : Op → ExprValue → ExprValue → AsmState → Answer ExprValue) (bound : ℕ)
    (shrinks : Shrinks op) (ends : EndsBelow bound operand) where
  Leaves-chain :
      (n : ℕ) (pe : ExprValue) (st : AsmState) (ts : Tokens)
      → length ts < n
      → length ts < bound
      → Leaves (suc (length ts)) (chain operand op apply n pe st ts)
  unfolding chain
  Leaves-chain zero pe st ts hn hb = absurd (omega arith)
  Leaves-chain (suc n) pe st ts hn hb = elim (Option-cases (op ts)) [
    | inl e ↦ rw (e, chain) (omega arith)
    | inr ((o, ts1), e) ↦
        let smaller = shrinks ts o ts1 e in
        rw (e, chain)
          (Leaves-bind (length ts1) (suc (length ts)) (operand st ts1) _ (ends st ts1 (omega arith))
            λ e2 st2 ts2 h2.
              Leaves-bind (suc (length ts2)) (suc (length ts)) (lift (apply o pe e2 st2) ts2) _
                (Leaves-lift (suc (length ts2)) (apply o pe e2 st2) ts2 (omega arith))
                λ e3 st3 ts3 h3.
                  Leaves-le (suc (length ts3)) (suc (length ts)) _ (omega arith)
                    (Leaves-chain n e3 st3 ts3 (omega arith) (omega arith)))
  ]

  -- One level: an operand and the loop.
  EndsBelow-level :
      (n : ℕ)
      → bound ≤ n
      → EndsBelow bound (λ st ts. bind (operand st ts) (chain operand op apply n))
  EndsBelow-level n le st ts h =
      Leaves-bind (length ts) (length ts) (operand st ts) _ (ends st ts h) λ pe st1 ts1 h1.
        Leaves-le (suc (length ts1)) (length ts) _ (omega arith)
          (Leaves-chain n pe st1 ts1 (omega arith) (omega arith))

prod_op-Shrinks : Shrinks prod_op
unfolding prod_op
prod_op-Shrinks [] o ts1 h = cc
prod_op-Shrinks (punct star ∷ ts) o ts1 h = ground arith
prod_op-Shrinks (punct slash ∷ ts) o ts1 h = ground arith
prod_op-Shrinks (punct percent ∷ ts) o ts1 h = ground arith
prod_op-Shrinks (punct shl ∷ ts) o ts1 h = ground arith
prod_op-Shrinks (punct sar ∷ ts) o ts1 h = ground arith
prod_op-Shrinks (_ ∷ ts) o ts1 h = absurd (cc)

logic_op-Shrinks : Shrinks logic_op
unfolding logic_op
logic_op-Shrinks [] o ts1 h = cc
logic_op-Shrinks (punct amp ∷ ts) o ts1 h = ground arith
logic_op-Shrinks (punct bar ∷ ts) o ts1 h = ground arith
logic_op-Shrinks (punct caret ∷ ts) o ts1 h = ground arith
logic_op-Shrinks (_ ∷ ts) o ts1 h = absurd (cc)

sum_op-Shrinks : Shrinks sum_op
unfolding sum_op
sum_op-Shrinks [] o ts1 h = cc
sum_op-Shrinks (punct plus ∷ ts) o ts1 h = ground arith
sum_op-Shrinks (punct minus ∷ ts) o ts1 h = ground arith
sum_op-Shrinks (_ ∷ ts) o ts1 h = absurd (cc)

EndsBelow-expr_sum : (unary : Parser) (f : ℕ) → EndsBelow f unary → EndsBelow f (expr_sum unary f)
unfolding expr_prod expr_logic expr_sum
EndsBelow-expr_sum unary f ends =
    let prods = EndsBelow-level unary prod_op apply_prod f prod_op-Shrinks ends f (omega arith) in
    let logics =
      EndsBelow-level (expr_prod unary f) logic_op apply_logic f logic_op-Shrinks prods f
        (omega arith) in
    EndsBelow-level (expr_logic unary f) sum_op apply_sum f sum_op-Shrinks logics f (omega arith)

Leaves-skip_rparen :
    (n : ℕ) (pe : ExprValue) (st : AsmState) (ts : Tokens)
    → length ts < n
    → Leaves n (skip_rparen pe st ts)
Leaves-skip_rparen n pe st (punct rparen ∷ ts) h = omega arith
Leaves-skip_rparen n pe st _ h = tt

EndsBelow-unary : (lib : CLibrary) (f : ℕ) → EndsBelow f (asm_expr_unary lib f)
unfolding asm_expr_unary
EndsBelow-unary lib zero st ts h = absurd (omega arith)
EndsBelow-unary lib (suc f) st (ppnum p ∷ ts) h = Leaves-lift _ (number lib p st) ts (omega arith)
EndsBelow-unary lib (suc f) st (cchar i ∷ ts) h = Leaves-lift _ (constant i st) ts (omega arith)
EndsBelow-unary lib (suc f) st (ident tok ∷ ts) h = Leaves-lift _ (name tok st) ts (omega arith)
EndsBelow-unary lib (suc f) st (punct plus ∷ ts) h =
    Leaves-le (length ts) (suc (length ts)) _ (omega arith)
      (EndsBelow-unary lib f st ts (omega arith))
EndsBelow-unary lib (suc f) st (punct minus ∷ ts) h =
    Leaves-bind (length ts) (suc (length ts)) (asm_expr_unary lib f st ts) _
      (EndsBelow-unary lib f st ts (omega arith))
      λ pe st1 ts1 h1. Leaves-lift _ (without_label pe negate st1) ts1 (omega arith)
EndsBelow-unary lib (suc f) st (punct tilde ∷ ts) h =
    Leaves-bind (length ts) (suc (length ts)) (asm_expr_unary lib f st ts) _
      (EndsBelow-unary lib f st ts (omega arith))
      λ pe st1 ts1 h1. Leaves-lift _ (without_label pe invert st1) ts1 (omega arith)
EndsBelow-unary lib (suc f) st (punct lparen ∷ ts) h =
    Leaves-bind (length ts) (suc (length ts)) (expr_sum (asm_expr_unary lib f) f st ts) _
      (EndsBelow-expr_sum (asm_expr_unary lib f) f (EndsBelow-unary lib f) st ts (omega arith))
      λ pe st1 ts1 h1. Leaves-skip_rparen _ pe st1 ts1 (omega arith)
EndsBelow-unary lib (suc f) st _ h = tt

-- On any tokens asm_expr stops, with an error or with a value; in the second case it has read one
-- token or more.
pub asm_expr-Leaves :
    (lib : CLibrary) (st : AsmState) (ts : Tokens) → Leaves (length ts) (asm_expr lib st ts)
unfolding asm_expr
asm_expr-Leaves lib st ts =
    let f = suc (length ts) in
    EndsBelow-expr_sum (asm_expr_unary lib f) f (EndsBelow-unary lib f) st ts (omega arith)
