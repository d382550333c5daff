-- ===== src/Asm/Expr.antt =====
-- The expressions of the assembler (tccasm.c: asm_expr_unary, asm_expr_prod, asm_expr_logic,
-- asm_expr_sum, asm_expr, asm_int_expr). The tokens that next() will give are a list.
pub mod Grammar
pub mod Parsing
pub mod Ending
use inherpreter.Prelude.{
  ℕ, zero, suc, ◌+◌, ◌-◌, ◌*◌, ◌/◌, ◌%◌, ◌^◌, bit_and, bit_or, bit_xor, Bool, not, ◌&&◌, ◌||◌,
  Option, none, some, List, [], ◌∷◌, ltb, ◌==◌, if◌then◌else◌, length,
}
use inherpreter.Cpp.Idents.{tok_ident_base, Idents, tok_alloc}
use inherpreter.Cpp.Labels.{asm_labels, Labels, label_find, label_push}

-- Tokens of expressions by their characters, TOK_SHL and TOK_SAR.
pub data Punct : Type 0 where
  plus minus tilde star slash percent shl sar amp bar caret lparen rparen : Punct

-- TOK_PPNUM with its text, TOK_CCHAR or TOK_LCHAR with `tokc.i`, an identifier, or another token.
pub data Tok : Type 0 where
  ppnum : List ℕ → Tok
  cchar : ℕ → Tok
  ident : ℕ → Tok
  punct : Punct → Tok
  other : ℕ → Tok

abbrev pub Tokens : Type 0
Tokens = List Tok

-- `sym` is the number of a label, or 0.
pub record ExprValue : Type 0 where
  pub v : ℕ
  pub sym : ℕ

pub record AsmState : Type 0 where
  pub labels : Labels
  pub idents : Idents

-- The C library: `strtoul(p, &p, 0)` gives a number and what follows it; `print_label n` is what
-- snprintf writes for "L..%u".
pub record CLibrary : Type 0 where
  pub strtoul : List ℕ → ℕ × List ℕ
  pub print_label : ℕ → List ℕ

-- `undefined_shift`: the C language leaves a shift of 32 bits by 32 or more open.
pub data Error : Type 0 where
  invalid_operation not_found_backward bad_number bad_syntax division_by_zero : Error
  expected_paren expected_constant memory_full undefined_shift : Error

-- A value with the state that it was found in.
pub data Answer {ℓ} (A : Type ℓ) : Type ℓ where
  value : A → AsmState → Answer A
  failed : Error → Answer A

module _ {ℓ κ} {A : Type ℓ} {B : Type κ} where
  abbrev pub and_then : Answer A → (A → AsmState → Answer B) → Answer B
  and_then (value a st) k = k a st
  and_then (failed e) k = failed e

-- The outcome of parsing, with the tokens that are left; or no fuel was left.
pub data Result {ℓ} (A : Type ℓ) : Type ℓ where
  ok : A → AsmState → Tokens → Result A
  error : Error → Result A
  out_of_fuel : Result A

abbrev pub Parser : Type 0
Parser = AsmState → Tokens → Result ExprValue

module _ {ℓ κ} {A : Type ℓ} {B : Type κ} where
  abbrev pub bind : Result A → (A → AsmState → Tokens → Result B) → Result B
  bind (ok a st ts) k = k a st ts
  bind (error e) k = error e
  bind out_of_fuel k = out_of_fuel

abbrev pub lift {ℓ} : {A : Type ℓ} → Answer A → Tokens → Result A
lift (value a st) ts = ok a st ts
lift (failed e) ts = error e

abbrev pub constant : ℕ → AsmState → Answer ExprValue
constant n st = value (record { v = n % 2 ^ 32; sym = 0 }) st

abbrev pub label_value : ℕ → AsmState → Answer ExprValue
label_value sym st = value (record { v = 0; sym = sym }) st

abbrev tok_ident : AsmState → ℕ
tok_ident st = tok_ident_base + length st.idents.table_ident

-- `sym = label_push(&s1->asm_labels, label, 0);`
abbrev push_label : (label : ℕ) → AsmState → Answer ExprValue
push_label label st =
    let (labels, sym) = label_push st.labels asm_labels label 0 in
    label_value sym (record st { labels = labels })

abbrev backward : ℕ → AsmState → Answer ExprValue
backward label st =
    let sym = label_find st.labels (tok_ident st) label in
    let defined =
      if not (sym == 0) && ((st.labels.heap sym).r == 0)
      then (st.labels.heap sym).prev_tok
      else sym in
    if defined == 0 then failed not_found_backward else label_value defined st

abbrev forward : ℕ → AsmState → Answer ExprValue
forward label st =
    let sym = label_find st.labels (tok_ident st) label in
    if sym == 0 || not ((st.labels.heap sym).r == 0)
    then push_label label st
    else label_value sym st

-- asm_get_local_label_name
unfoldable pub local_label_name : CLibrary → (n : ℕ) → AsmState → Answer ℕ
unfolding tok_alloc
local_label_name lib n st = elim (tok_alloc st.idents (lib.print_label n)) [
  | none ↦ failed memory_full
  | some (idents, label) ↦ value label (record st { idents = idents })
]

-- What follows the digits decides.
abbrev numbered : CLibrary → (n : ℕ) → List ℕ → AsmState → Answer ExprValue
numbered lib n [] st = constant n st
numbered lib n (c ∷ p) st =
    if c == b'b'
    then and_then (local_label_name lib (n % 2 ^ 32) st) backward
    else if c == b'f'
    then and_then (local_label_name lib (n % 2 ^ 32) st) forward
    else failed bad_number

-- The case TOK_PPNUM.
unfoldable pub number : CLibrary → List ℕ → AsmState → Answer ExprValue
unfolding local_label_name label_find label_push
number lib p st = let (n, q) = lib.strtoul p in numbered lib n q st

abbrev shn_abs : ℕ
shn_abs = 0xfff1

-- The case of a label.
unfoldable pub name : (tok : ℕ) → AsmState → Answer ExprValue
unfolding label_find label_push
name tok st =
    let sym = label_find st.labels (tok_ident st) tok in
    if sym == 0
    then push_label tok st
    else if (st.labels.heap sym).r == shn_abs
    then constant (st.labels.heap sym).jnext st
    else label_value sym st

abbrev pub without_label : ExprValue → (ℕ → ℕ) → AsmState → Answer ExprValue
without_label pe f st =
    if pe.sym == 0 then value (record { v = f pe.v; sym = 0 }) st else failed invalid_operation

-- On 32 bits.
abbrev pub negate : ℕ → ℕ
negate v = (2 ^ 32 - v) % 2 ^ 32

abbrev pub invert : ℕ → ℕ
invert v = 2 ^ 32 - 1 - v

pub data ProdOp : Type 0 where
  mul div mod_ shl_by sar_by : ProdOp

pub data LogicOp : Type 0 where
  and or xor : LogicOp

pub data SumOp : Type 0 where
  add sub : SumOp

abbrev computed : ℕ → AsmState → Answer ExprValue
computed v st = value (record { v = v; sym = 0 }) st

unfoldable pub prod_value : ProdOp → (a b : ℕ) → AsmState → Answer ExprValue
prod_value mul a b st = computed (a * b % 2 ^ 32) st
prod_value div a b st = if b == 0 then failed division_by_zero else computed (a / b) st
prod_value mod_ a b st = if b == 0 then failed division_by_zero else computed (a % b) st
prod_value shl_by a b st =
    if ltb b 32 then computed (a * 2 ^ b % 2 ^ 32) st else failed undefined_shift
prod_value sar_by a b st = if ltb b 32 then computed (a / 2 ^ b) st else failed undefined_shift

abbrev no_labels : ExprValue → ExprValue → Bool
no_labels pe e2 = pe.sym == 0 && (e2.sym == 0)

unfoldable pub apply_prod : ProdOp → ExprValue → ExprValue → AsmState → Answer ExprValue
unfolding prod_value
apply_prod op pe e2 st =
    if no_labels pe e2 then prod_value op pe.v e2.v st else failed invalid_operation

unfoldable pub logic_value : LogicOp → (a b : ℕ) → ℕ
logic_value and a b = bit_and a b
logic_value or a b = bit_or a b
logic_value xor a b = bit_xor a b

unfoldable pub apply_logic : LogicOp → ExprValue → ExprValue → AsmState → Answer ExprValue
unfolding logic_value
apply_logic op pe e2 st =
    if no_labels pe e2 then computed (logic_value op pe.v e2.v) st else failed invalid_operation

abbrev sub32 : ℕ → ℕ → ℕ
sub32 a b = (a + 2 ^ 32 - b) % 2 ^ 32

-- The difference of two labels: the same one, or two that are defined in one section.
abbrev difference : (v : ℕ) → (sym1 sym2 : ℕ) → AsmState → Answer ExprValue
difference v sym1 sym2 st =
    let l1 = st.labels.heap sym1 in
    let l2 = st.labels.heap sym2 in
    if sym1 == sym2
    then computed v st
    else if l1.r == l2.r && not (l1.r == 0)
    then computed ((v + sub32 (l1.jnext % 2 ^ 32) (l2.jnext % 2 ^ 32)) % 2 ^ 32) st
    else failed invalid_operation

unfoldable pub apply_sum : SumOp → ExprValue → ExprValue → AsmState → Answer ExprValue
apply_sum add pe e2 st =
    if not (pe.sym == 0) && not (e2.sym == 0)
    then failed invalid_operation
    else value (record { v = (pe.v + e2.v) % 2 ^ 32; sym = if pe.sym == 0 then e2.sym else pe.sym })
        st
apply_sum sub pe e2 st =
    let v = sub32 pe.v e2.v in
    if e2.sym == 0
    then value (record { v = v; sym = pe.sym }) st
    else if pe.sym == 0
    then failed invalid_operation
    else difference v pe.sym e2.sym st

-- The operator that the next token is, at each level, and the tokens behind it.
unfoldable pub prod_op : Tokens → Option (ProdOp × Tokens)
prod_op (punct star ∷ ts) = some (mul, ts)
prod_op (punct slash ∷ ts) = some (div, ts)
prod_op (punct percent ∷ ts) = some (mod_, ts)
prod_op (punct shl ∷ ts) = some (shl_by, ts)
prod_op (punct sar ∷ ts) = some (sar_by, ts)
prod_op _ = none

unfoldable pub logic_op : Tokens → Option (LogicOp × Tokens)
logic_op (punct amp ∷ ts) = some (and, ts)
logic_op (punct bar ∷ ts) = some (or, ts)
logic_op (punct caret ∷ ts) = some (xor, ts)
logic_op _ = none

unfoldable pub sum_op : Tokens → Option (SumOp × Tokens)
sum_op (punct plus ∷ ts) = some (add, ts)
sum_op (punct minus ∷ ts) = some (sub, ts)
sum_op _ = none

-- The loop that the three levels have in common: operands `operand`, operators `op`.
module _ {ℓ} {Op : Type ℓ} where
  unfoldable pub chain :
      (operand : Parser)
      → (op : Tokens → Option (Op × Tokens))
      → (apply : Op → ExprValue → ExprValue → AsmState → Answer ExprValue) → ℕ
      → ExprValue
      → Parser
  chain operand op apply zero pe st ts = out_of_fuel
  chain operand op apply (suc f) pe st ts = elim (op ts) [
    | none ↦ ok pe st ts
    | some (o, ts1) ↦
        bind (operand st ts1)
          λ e2 st2 ts2. bind (lift (apply o pe e2 st2) ts2) (chain operand op apply f)
  ]

module _ (unary : Parser) (f : ℕ) where
  unfoldable pub expr_prod : Parser
  unfolding prod_op apply_prod chain
  expr_prod st ts = bind (unary st ts) (chain unary prod_op apply_prod f)

  unfoldable pub expr_logic : Parser
  unfolding logic_op apply_logic chain expr_prod
  expr_logic st ts = bind (expr_prod st ts) (chain expr_prod logic_op apply_logic f)

  unfoldable pub expr_sum : Parser
  unfolding sum_op apply_sum chain expr_logic
  expr_sum st ts = bind (expr_logic st ts) (chain expr_logic sum_op apply_sum f)

-- `skip(')')`
abbrev pub skip_rparen : ExprValue → Parser
skip_rparen pe st (punct rparen ∷ ts) = ok pe st ts
skip_rparen pe st _ = error expected_paren

unfoldable pub asm_expr_unary : CLibrary → ℕ → Parser
unfolding number name expr_sum
asm_expr_unary lib zero st ts = out_of_fuel
asm_expr_unary lib (suc f) st (ppnum p ∷ ts) = lift (number lib p st) ts
asm_expr_unary lib (suc f) st (cchar i ∷ ts) = lift (constant i st) ts
asm_expr_unary lib (suc f) st (ident tok ∷ ts) = lift (name tok st) ts
asm_expr_unary lib (suc f) st (punct plus ∷ ts) = asm_expr_unary lib f st ts
asm_expr_unary lib (suc f) st (punct minus ∷ ts) =
    bind (asm_expr_unary lib f st ts) λ pe st1 ts1. lift (without_label pe negate st1) ts1
asm_expr_unary lib (suc f) st (punct tilde ∷ ts) =
    bind (asm_expr_unary lib f st ts) λ pe st1 ts1. lift (without_label pe invert st1) ts1
asm_expr_unary lib (suc f) st (punct lparen ∷ ts) =
    bind (expr_sum (asm_expr_unary lib f) f st ts) skip_rparen
asm_expr_unary lib (suc f) st _ = error bad_syntax

-- Each call reads a token, so the number of tokens bounds the calls.
unfoldable pub asm_expr : CLibrary → Parser
unfolding asm_expr_unary expr_sum
asm_expr lib st ts = let f = suc (length ts) in expr_sum (asm_expr_unary lib f) f st ts

abbrev int_of : ExprValue → AsmState → Tokens → Result ℕ
int_of e st ts = if e.sym == 0 then ok e.v st ts else error expected_constant

unfoldable pub asm_int_expr : CLibrary → AsmState → Tokens → Result ℕ
unfolding asm_expr
asm_int_expr lib st ts = bind (asm_expr lib st ts) int_of
