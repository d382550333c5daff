-- ===== src/Gen/Opic.antt =====
-- Integer operations with constant folding (tccgen.c: gen_opic). A `long long` is its bit pattern,
-- below 2 ^ 64.
pub mod Word
pub mod Reduction
use inherpreter.Prelude.{
  ℕ, zero, suc, ◌+◌, ◌-◌, ◌*◌, ◌/◌, ◌%◌, ◌^◌, bit_and, bit_or, bit_xor, Bool, true, false, not,
  ◌&&◌, ◌||◌, ltb, leb, ◌==◌, if◌then◌else◌, to_nat,
}
use inherpreter.Gen.Opic.Word.{
  sign_extend, signed_quotient, signed_remainder, shift_right, signed_less,
}

-- The operators: the characters, and the tokens TOK_*. `other` is one that gen_opic does not fold.
pub data Op : Type 0 where
  op_add op_sub op_and op_xor op_or op_mul : Op
  op_pdiv op_div op_mod op_udiv op_umod : Op
  op_shl op_shr op_sar : Op
  op_ult op_uge op_eq op_ne op_ule op_ugt op_lt op_ge op_le op_gt : Op
  op_land op_lor : Op
  other : ℕ → Op

-- `r & (VT_VALMASK | VT_LVAL | VT_SYM)`, as far as gen_opic looks: VT_CONST, VT_CONST | VT_SYM, an
-- address in the frame (VT_LOCAL without VT_LVAL), or anything else.
pub data Place : Type 0 where
  const const_sym local elsewhere : Place

-- A value of the stack: whether it is a long long, whether it has VT_UNSIGNED, and `c.ll`.
pub record SValue : Type 0 where
  pub is_llong : Bool
  pub is_unsigned : Bool
  pub place : Place
  pub ll : ℕ

-- `c.ll`, or `c.ui` or `c.i` converted to a long long.
unfoldable pub operand : SValue → ℕ
unfolding sign_extend
operand v =
    if v.is_llong
    then v.ll
    else if v.is_unsigned
    then v.ll % 2 ^ 32
    else sign_extend (v.ll % 2 ^ 32)

-- The outcome of an operation on two constants. `undefined`: the host's C leaves it open (a
-- shift by 64 or more, the quotient of the least long long and -1).
pub data Folded : Type 0 where
  value : ℕ → Folded
  div_zero unfolded undefined : Folded

abbrev truth : Bool → Folded
truth b = value (to_nat b)

abbrev divide : (l1 l2 : ℕ) → Folded → Folded
divide l1 l2 r = if l2 == 0 then div_zero else r

-- The quotient of two signed numbers does not fit only for the least one and -1.
abbrev signed_divide : (l1 l2 : ℕ) → Folded → Folded
signed_divide l1 l2 r = divide l1 l2 (if l1 == 2 ^ 63 && l2 == 2 ^ 64 - 1 then undefined else r)

abbrev shift : (l2 : ℕ) → Folded → Folded
shift l2 r = if ltb l2 64 then r else undefined

unfoldable pub fold_op : Op → (l1 l2 : ℕ) → Folded
unfolding signed_quotient signed_remainder shift_right signed_less
fold_op op_add l1 l2 = value ((l1 + l2) % 2 ^ 64)
fold_op op_sub l1 l2 = value ((l1 + 2 ^ 64 - l2) % 2 ^ 64)
fold_op op_and l1 l2 = value (bit_and l1 l2)
fold_op op_xor l1 l2 = value (bit_xor l1 l2)
fold_op op_or l1 l2 = value (bit_or l1 l2)
fold_op op_mul l1 l2 = value (l1 * l2 % 2 ^ 64)
fold_op op_pdiv l1 l2 = signed_divide l1 l2 (value (signed_quotient l1 l2))
fold_op op_div l1 l2 = signed_divide l1 l2 (value (signed_quotient l1 l2))
fold_op op_mod l1 l2 = signed_divide l1 l2 (value (signed_remainder l1 l2))
fold_op op_udiv l1 l2 = divide l1 l2 (value (l1 / l2))
fold_op op_umod l1 l2 = divide l1 l2 (value (l1 % l2))
fold_op op_shl l1 l2 = shift l2 (value (l1 * 2 ^ l2 % 2 ^ 64))
fold_op op_shr l1 l2 = shift l2 (value (l1 / 2 ^ l2))
fold_op op_sar l1 l2 = shift l2 (value (shift_right l1 l2))
fold_op op_ult l1 l2 = truth (ltb l1 l2)
fold_op op_uge l1 l2 = truth (leb l2 l1)
fold_op op_eq l1 l2 = truth (l1 == l2)
fold_op op_ne l1 l2 = truth (not (l1 == l2))
fold_op op_ule l1 l2 = truth (leb l1 l2)
fold_op op_ugt l1 l2 = truth (ltb l2 l1)
fold_op op_lt l1 l2 = truth (signed_less l1 l2)
fold_op op_ge l1 l2 = truth (not (signed_less l1 l2))
fold_op op_le l1 l2 = truth (not (signed_less l2 l1))
fold_op op_gt l1 l2 = truth (signed_less l2 l1)
fold_op op_land l1 l2 = truth (not (l1 == 0) && not (l2 == 0))
fold_op op_lor l1 l2 = truth (not (l1 == 0) || not (l2 == 0))
fold_op (other n) l1 l2 = unfolded

abbrev is_commutative : Op → Bool
is_commutative op_add = true
is_commutative op_and = true
is_commutative op_xor = true
is_commutative op_or = true
is_commutative op_mul = true
is_commutative _ = false

-- An operation with the constant `l2` that gives its other operand back.
unfoldable pub is_nop : Op → (l2 : ℕ) → Bool
is_nop op_mul l2 = l2 == 1
is_nop op_div l2 = l2 == 1
is_nop op_udiv l2 = l2 == 1
is_nop op_pdiv l2 = l2 == 1
is_nop op_add l2 = l2 == 0
is_nop op_sub l2 = l2 == 0
is_nop op_or l2 = l2 == 0
is_nop op_xor l2 = l2 == 0
is_nop op_shl l2 = l2 == 0
is_nop op_shr l2 = l2 == 0
is_nop op_sar l2 = l2 == 0
is_nop op_and l2 = l2 == 2 ^ 64 - 1
is_nop _ l2 = false

-- `n = -1; while (l2) { l2 >>= 1; n++; }` on fuel, for a positive `l2`; `n` is counted from 0.
unfoldable pub count_shifts : ℕ → (l2 n : ℕ) → ℕ
count_shifts zero l2 n = n
count_shifts (suc fuel) l2 n =
    let rest = count_shifts fuel (l2 / 2) (n + 1) in if l2 / 2 == 0 then n else rest

-- `l2 > 0 && (l2 & (l2 - 1)) == 0`
unfoldable pub is_power : ℕ → Bool
is_power l2 = ltb 0 l2 && ltb l2 (2 ^ 63) && (bit_and l2 (l2 - 1) == 0)

abbrev shift_op : Op → Op
shift_op op_mul = op_shl
shift_op op_pdiv = op_sar
shift_op op = op_shr

abbrev is_reducible : Op → Bool
is_reducible op_mul = true
is_reducible op_pdiv = true
is_reducible op_udiv = true
is_reducible _ = false

abbrev is_offset : Op → Bool
is_offset op_add = true
is_offset op_sub = true
is_offset _ = false

abbrev is_address : Place → Bool
is_address const_sym = true
is_address local = true
is_address _ = false

abbrev is_const : SValue → Bool
is_const v = elim v.place [ const ↦ true | _ ↦ false ]

-- The stack's two values become one, or a call of gen_opl or gen_opi, whose second operand is on top
-- of the stack; or the error "division by zero in constant".
pub data Outcome : Type 0 where
  one : SValue → Outcome
  generate : (long : Bool) → Op → (v1 v2 : SValue) → Outcome
  error undefined_value : Outcome

-- The label general_case.
abbrev general_case : (nocode_wanted long : Bool) → Op → (v1 v2 : SValue) → Outcome
general_case nocode_wanted long op v1 v2 = if nocode_wanted then one v1 else generate long op v1 v2

-- An operation whose second operand alone, `v2` of value `l2`, may be a constant.
unfoldable pub with_const :
    (nocode_wanted long : Bool) → Op → (v1 v2 : SValue) → (c2 : Bool) → (l2 : ℕ) → Outcome
unfolding is_nop is_power count_shifts
with_const nocode_wanted long op v1 v2 c2 l2 =
    if c2 && is_nop op l2
    then one v1
    else if c2 && is_reducible op
    then if is_power l2
      then general_case nocode_wanted long (shift_op op) v1
          (record v2 { ll = count_shifts 64 l2 0 })
      else general_case nocode_wanted long op v1 v2
    else if c2 && is_offset op && is_address v1.place
    then one
        (record v1 { ll = (v1.ll + elim op [ op_sub ↦ (2 ^ 64 - l2) % 2 ^ 64 | _ ↦ l2 ]) % 2 ^ 64 })
    else general_case nocode_wanted long op v1 v2

unfoldable pub gen_opic : (const_wanted nocode_wanted : Bool) → Op → (v1 v2 : SValue) → Outcome
unfolding operand fold_op with_const
gen_opic const_wanted nocode_wanted op v1 v2 =
    let l1 = operand v1 in
    let l2 = operand v2 in
    let long = v1.is_llong || v2.is_llong in
    if is_const v1 && is_const v2
    then elim (fold_op op l1 l2) [
      | value l ↦ one (record v1 { ll = l })
      | div_zero ↦ if const_wanted then error else general_case nocode_wanted long op v1 v2
      | unfolded ↦ general_case nocode_wanted long op v1 v2
      | undefined ↦ undefined_value
    ]
    else if is_const v1 && is_commutative op
    then with_const nocode_wanted long op v2 v1 true l1
    else with_const nocode_wanted long op v1 v2 (is_const v2) l2
