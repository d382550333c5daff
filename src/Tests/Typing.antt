-- ===== src/Tests/Typing.antt =====
-- Types of C.
use inherpreter.Prelude.{◌≡◌, refl, ◌↔◌, true, false}
use inherpreter.Gen.Types.{ℤ, pos, CType, ctype, null, symbol, compare_types}
use inherpreter.Gen.Types.Same.{SameType, compare_types-SameType}

abbrev int_type : CType
int_type = ctype 0 null

-- A function of one int, of the new style (1) or of the old one (2).
abbrev func_type : ℤ → CType
func_type style = ctype 6 (symbol 3 int_type 0 style (symbol 4 int_type 0 (pos 0) null))

-- A static one with a const parameter.
abbrev static_const_func : CType
static_const_func =
    ctype 0x106 (symbol 5 int_type 0 (pos 1) (symbol 6 (ctype 0x800 null) 0 (pos 0) null))

func_run : compare_types (func_type (pos 1)) static_const_func false ≡ true
unfolding compare_types
func_run = refl

-- Pointers to int and to const int.
pointer_run :
    compare_types
      (ctype 4 (symbol 7 int_type 0 (pos 0) null))
      (ctype 4 (symbol 8 (ctype 0x800 null) 0 (pos 0) null))
      true
    ≡ false
unfolding compare_types
pointer_run = refl

compare_types-SameType_example :
    (compare_types (func_type (pos 1)) static_const_func false ≡ true)
    ↔ SameType false (func_type (pos 1)) static_const_func
compare_types-SameType_example = compare_types-SameType (func_type (pos 1)) static_const_func false
