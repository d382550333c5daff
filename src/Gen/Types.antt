-- ===== src/Gen/Types.antt =====
-- Types of C (tccgen.c: type_size, compare_types, is_compatible_func, is_compatible_types,
-- is_compatible_parameter_types), for x86_64. A pointer to a symbol is the symbol with its number, or
-- NULL; of the symbol of a struct only the number, `r` and `c` are read, so it holds no more.
pub mod Compare
pub mod Equal
pub mod Bits
pub mod Same
pub mod Size
use inherpreter.Prelude.{
  ℕ, zero, suc, ◌-◌, ◌*◌, ◌%◌, ◌^◌, bit_and, Bool, true, false, not, ◌&&◌, ◌||◌, ◌==◌,
  if◌then◌else◌,
}

-- An int.
pub data ℤ : Type 0 where
  pos negsuc : ℕ → ℤ

mutual
  pub data CType : Type 0 where
    ctype : (t : ℕ) → (ref : Sym) → CType

  pub data Sym : Type 0 where
    null : Sym
    symbol : (number : ℕ) → (type : CType) → (r : ℕ) → (c : ℤ) → (next : Sym) → Sym

abbrev pub vt_btype : ℕ
vt_btype = 0x0f

abbrev pub vt_ptr : ℕ
vt_ptr = 4

abbrev pub vt_func : ℕ
vt_func = 6

abbrev pub vt_struct : ℕ
vt_struct = 7

abbrev pub vt_array : ℕ
vt_array = 0x20

-- The complement of VT_STORAGE.
abbrev vt_type : ℕ
vt_type = 2 ^ 32 - 1 - 0x1c780

-- The complement of `VT_CONSTANT | VT_VOLATILE`.
abbrev unqualified_mask : ℕ
unqualified_mask = 2 ^ 32 - 1 - 0x1800

unfoldable pub btype : ℕ → ℕ
btype t = bit_and t vt_btype

-- What is compared of the bits of a type.
unfoldable pub compared : (unqualified : Bool) → (t : ℕ) → ℕ
compared unqualified t =
    let t1 = bit_and t vt_type in if unqualified then bit_and t1 unqualified_mask else t1

abbrev pub is_same : ℤ → ℤ → Bool
is_same (pos a) (pos b) = a == b
is_same (negsuc a) (negsuc b) = a == b
is_same _ _ = false

abbrev pub func_old : ℤ
func_old = pos 2

-- FUNC_CALL
abbrev pub func_call : ℕ → ℕ
func_call r = r % 8

abbrev pub is_old : ℤ → ℤ → Bool
is_old c1 c2 = is_same c1 func_old || is_same c2 func_old

-- `type1->ref == type2->ref`
abbrev pub same_ref : Sym → Sym → Bool
same_ref null null = true
same_ref (symbol i ty1 r1 c1 n1) (symbol j ty2 r2 c2 n2) = i == j
same_ref _ _ = false

unfoldable mutual
  unfolding compared btype

  pub compare_types : CType → CType → (unqualified : Bool) → Bool
  compare_types (ctype t1 s1) (ctype t2 s2) unqualified =
      let pointed = compare_pointed s1 s2 in
      let func = is_compatible_func s1 s2 in
      let bt1 = btype (compared unqualified t1) in
      if not (compared unqualified t1 == compared unqualified t2)
      then false
      else if bt1 == vt_ptr
      then pointed
      else if bt1 == vt_struct
      then same_ref s1 s2
      else if bt1 == vt_func
      then func
      else true

  -- `is_compatible_types` of the types that are pointed to
  pub compare_pointed : Sym → Sym → Bool
  compare_pointed (symbol i ty1 r1 c1 n1) (symbol j ty2 r2 c2 n2) = compare_types ty1 ty2 false
  compare_pointed _ _ = false

  pub is_compatible_func : Sym → Sym → Bool
  is_compatible_func (symbol i ty1 r1 c1 n1) (symbol j ty2 r2 c2 n2) =
      let returned = compare_types ty1 ty2 false in
      let returned' = compare_types ty1 ty2 true in
      let params = compare_params n1 n2 in
      returned
      && (func_call r1 == func_call r2 && (is_old c1 c2 || is_same c1 c2 && (returned' && params)))
  is_compatible_func _ _ = false

  -- The rest of the loop, with is_compatible_parameter_types.
  pub compare_params : Sym → Sym → Bool
  compare_params null null = true
  compare_params (symbol i ty1 r1 c1 n1) (symbol j ty2 r2 c2 n2) =
      let first = compare_types ty1 ty2 true in let others = compare_params n1 n2 in first && others
  compare_params _ _ = false

abbrev pub is_negative : ℤ → Bool
is_negative (pos n) = false
is_negative (negsuc n) = true

abbrev pub neg : ℤ → ℤ
neg (pos zero) = pos 0
neg (pos (suc n)) = negsuc n
neg (negsuc n) = pos (suc n)

infixl 70 ◌*ℤ◌
abbrev pub ◌*ℤ◌ : ℤ → ℤ → ℤ
pos a *ℤ pos b = pos (a * b)
pos a *ℤ negsuc b = neg (pos (a * suc b))
negsuc a *ℤ pos b = neg (pos (suc a * b))
negsuc a *ℤ negsuc b = pos (suc a * suc b)

abbrev pub pointer_size : ℕ
pointer_size = 8

-- `s->c` and `s->r`
abbrev pub struct_size : Sym → ℤ × ℕ
struct_size null = (pos 0, 0)
struct_size (symbol i ty r c n) = (c, r)

-- The sizes and alignments of the basic types.
unfoldable pub basic_size : ℕ → ℤ × ℕ
basic_size bt =
    if bt == 10
    then (pos 16, 16)
    else if bt == 9 || bt == 12
    then (pos 8, 8)
    else if bt == 0 || (bt == 5 || bt == 8)
    then (pos 4, 4)
    else if bt == 2
    then (pos 2, 2)
    else if bt == 14 || bt == 15
    then (pos 16, 8)
    else (pos 1, 1)

-- The size of an array from that of its elements and the dimension, -1 where it is not known.
abbrev pub dimensioned : (ts c : ℤ) → ℤ
dimensioned ts c = (if is_negative ts && is_negative c then neg ts else ts) *ℤ c

-- The size, negative where the type is not complete, and the alignment.
unfoldable mutual
  unfolding btype basic_size

  pub type_size : CType → ℤ × ℕ
  type_size (ctype t s) =
      let elements = array_size s in
      if btype t == vt_struct
      then struct_size s
      else if btype t == vt_ptr
      then if not (bit_and t vt_array == 0) then elements else (pos pointer_size, pointer_size)
      else basic_size (btype t)

  pub array_size : Sym → ℤ × ℕ
  array_size null = (pos 0, 0)
  array_size (symbol i ty r c n) = let size = type_size ty in (dimensioned size.0 c, size.1)
