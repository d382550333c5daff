-- ===== src/Tests/Shifts.antt =====
-- The shifts of a negative number.
use inherpreter.Prelude.{ℕ, ◌-◌, ◌^◌, ◌≡◌, refl, arith}
use inherpreter.Gen.Opic.{op_shl, op_shr, op_sar, value, fold_op}
use inherpreter.Runtime.Shifts.{lshrdi3, ashldi3, ashrdi3}
use inherpreter.Runtime.Shifts.Folding.{shifts-fold_op}

abbrev minus_five : ℕ
minus_five = 2 ^ 64 - 5

sar_run : ashrdi3 minus_five 1 ≡ 2 ^ 64 - 3
unfolding ashrdi3
sar_run = refl

shifts-fold_op_example :
    (fold_op op_shl minus_five 40 ≡ value (ashldi3 minus_five 40))
    × (fold_op op_shr minus_five 40 ≡ value (lshrdi3 minus_five 40))
    × (fold_op op_sar minus_five 40 ≡ value (ashrdi3 minus_five 40))
shifts-fold_op_example = shifts-fold_op minus_five 40 (omega arith) (omega arith)
