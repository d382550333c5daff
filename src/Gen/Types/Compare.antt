-- ===== src/Gen/Types/Compare.antt =====
-- compare_types as an equivalence (tccgen.c).
use inherpreter.Prelude.{
  ℕ, ◌≡◌, refl, ◌∙◌, inl, inr, Bool, true, false, not, ◌||◌, arith, ◌==◌, if◌then◌else◌, Bool-cases,
}
use inherpreter.Gen.Types.{
  ℤ, pos, negsuc, CType, ctype, Sym, null, symbol, vt_ptr, vt_func, vt_struct, btype, compared,
  is_same, func_old, func_call, same_ref, compare_types, compare_pointed, is_compatible_func,
  compare_params,
}

-- The result for a basic type, from what is said of the types behind the symbols.
abbrev pub pick : (bt : ℕ) → (pointed same func : Bool) → Bool
pick bt pointed same func =
    if bt == vt_ptr
    then pointed
    else if bt == vt_struct
    then same
    else if bt == vt_func
    then func
    else true

abbrev pub result : (x y : ℕ) → (pointed same func : Bool) → Bool
result x y pointed same func = if not (x == y) then false else pick (btype x) pointed same func

ap₃ {ℓ κ} :
    {A : Type ℓ} {B : Type κ} (f : A → A → A → B) {a a1 b b1 c c1 : A}
    → a ≡ a1
    → b ≡ b1
    → c ≡ c1
    → f a b c ≡ f a1 b1 c1
ap₃ f e1 e2 e3 = rw (e1, e2, e3) refl

result_sym : (x y : ℕ) (p s f : Bool) → result x y p s f ≡ result y x p s f
result_sym x y p s f = elim (Bool-cases (x == y)) [
  | inl e ↦ let same : x ≡ y = ground arith in rw same refl
  | inr e ↦ let other : (y == x) ≡ false = ground arith in rw (e, other) refl
]

==_sym : (a b : ℕ) → (a == b) ≡ (b == a)
==_sym a b = ground arith

is_same_sym : (a b : ℤ) → is_same a b ≡ is_same b a
is_same_sym (pos a) (pos b) = ==_sym a b
is_same_sym (negsuc a) (negsuc b) = ==_sym a b
is_same_sym (pos a) (negsuc b) = refl
is_same_sym (negsuc a) (pos b) = refl

same_ref_sym : (s1 s2 : Sym) → same_ref s1 s2 ≡ same_ref s2 s1
same_ref_sym null null = refl
same_ref_sym null (symbol j ty2 r2 c2 n2) = refl
same_ref_sym (symbol i ty1 r1 c1 n1) null = refl
same_ref_sym (symbol i ty1 r1 c1 n1) (symbol j ty2 r2 c2 n2) = ==_sym i j

or_sym : (a b : Bool) → (a || b) ≡ (b || a)
or_sym true true = refl
or_sym true false = refl
or_sym false true = refl
or_sym false false = refl

mutual
  unfolding compare_types

  sym_types :
      (a b : CType) (unqualified : Bool)
      → compare_types a b unqualified ≡ compare_types b a unqualified
  sym_types (ctype t1 s1) (ctype t2 s2) u =
      let x = compared u t1 in
      let y = compared u t2 in
      result_sym x y (compare_pointed s1 s2) (same_ref s1 s2) (is_compatible_func s1 s2)
      ∙ ap₃ (result y x) (compare_pointed_sym s1 s2) (same_ref_sym s1 s2)
          (is_compatible_func_sym s1 s2)

  compare_pointed_sym : (s1 s2 : Sym) → compare_pointed s1 s2 ≡ compare_pointed s2 s1
  compare_pointed_sym null null = refl
  compare_pointed_sym null (symbol j ty2 r2 c2 n2) = refl
  compare_pointed_sym (symbol i ty1 r1 c1 n1) null = refl
  compare_pointed_sym (symbol i ty1 r1 c1 n1) (symbol j ty2 r2 c2 n2) = sym_types ty1 ty2 false

  is_compatible_func_sym : (s1 s2 : Sym) → is_compatible_func s1 s2 ≡ is_compatible_func s2 s1
  is_compatible_func_sym null null = refl
  is_compatible_func_sym null (symbol j ty2 r2 c2 n2) = refl
  is_compatible_func_sym (symbol i ty1 r1 c1 n1) null = refl
  is_compatible_func_sym (symbol i ty1 r1 c1 n1) (symbol j ty2 r2 c2 n2) =
      rw
        (
          sym_types ty1 ty2 false,
          sym_types ty1 ty2 true,
          compare_params_sym n1 n2,
          ==_sym (func_call r1) (func_call r2),
          is_same_sym c1 c2,
          or_sym (is_same c1 func_old) (is_same c2 func_old),
        )
        refl

  compare_params_sym : (s1 s2 : Sym) → compare_params s1 s2 ≡ compare_params s2 s1
  compare_params_sym null null = refl
  compare_params_sym null (symbol j ty2 r2 c2 n2) = refl
  compare_params_sym (symbol i ty1 r1 c1 n1) null = refl
  compare_params_sym (symbol i ty1 r1 c1 n1) (symbol j ty2 r2 c2 n2) =
      rw (sym_types ty1 ty2 true, compare_params_sym n1 n2) refl

-- The order of two types does not matter.
pub compare_types_sym :
    (a b : CType) (unqualified : Bool)
    → compare_types a b unqualified ≡ compare_types b a unqualified
compare_types_sym a b unqualified = sym_types a b unqualified
