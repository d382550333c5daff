-- ===== src/Cpp/Pack.antt =====
-- The stack of alignments that #pragma pack keeps (tccpp.c: pragma_parse).
pub mod Scoped
use inherpreter.Prelude.{
  ℕ, ◌+◌, ◌-◌, bit_and, Bool, not, ◌||◌, List, [], ◌∷◌, ltb, leb, ◌==◌, if◌then◌else◌, update,
}

abbrev pub pack_stack_size : ℕ
pack_stack_size = 8

-- `pack_stack_ptr` is an index into the array.
pub record Pack : Type 0 where
  pub pack_stack : ℕ → ℕ
  pub pack_stack_ptr : ℕ

-- The alignment that holds; 0 stands for the default.
abbrev pub current : Pack → ℕ
current s = s.pack_stack s.pack_stack_ptr

-- pack(pop), pack(), pack(n) and pack(push, n).
pub data Pragma : Type 0 where
  pop reset : Pragma
  value : ℕ → Pragma
  push : ℕ → Pragma

pub data Result : Type 0 where
  ok : Pack → Result
  out_of_pack_stack invalid_pack : Result

-- `val < 1 || val > 16 || (val & (val - 1)) != 0`
abbrev pub is_invalid : ℕ → Bool
is_invalid val = ltb val 1 || ltb 16 val || not (bit_and val (val - 1) == 0)

abbrev pub set_current : Pack → ℕ → Pack
set_current s val = record s { pack_stack = update s.pack_stack s.pack_stack_ptr val }

abbrev pub set_value : Pack → ℕ → Result
set_value s val = if is_invalid val then invalid_pack else ok (set_current s val)

unfoldable pub pragma_parse : Pack → Pragma → Result
pragma_parse s pop =
    if s.pack_stack_ptr == 0
    then out_of_pack_stack
    else ok (record s { pack_stack_ptr = s.pack_stack_ptr - 1 })
pragma_parse s reset = ok (set_current s 0)
pragma_parse s (value val) = set_value s val
pragma_parse s (push val) =
    if leb (pack_stack_size - 1) s.pack_stack_ptr
    then out_of_pack_stack
    else set_value (record s { pack_stack_ptr = s.pack_stack_ptr + 1 }) val

unfoldable pub parse_all : List Pragma → Pack → Result
unfolding pragma_parse
parse_all [] s = ok s
parse_all (p ∷ ps) s = elim (pragma_parse s p) [
  | ok s1 ↦ parse_all ps s1
  | out_of_pack_stack ↦ out_of_pack_stack
  | invalid_pack ↦ invalid_pack
]
