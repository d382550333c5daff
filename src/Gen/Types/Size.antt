-- ===== src/Gen/Types/Size.antt =====
-- The size of arrays (tccgen.c: type_size).
use native.Mathlib.Nat.{mul-pos, mul_comm, mul_assoc}
use inherpreter.Prelude.{
  ℕ, zero, suc, ◌*◌, ◌<◌, ◌≡◌, refl, sym, ◌∙◌, Bool, true, false, ◌||◌, List, [], ◌∷◌, arith,
}
use inherpreter.Gen.Types.{
  ℤ, pos, negsuc, CType, ctype, null, symbol, is_negative, neg, dimensioned, type_size,
}

-- An array of the dimensions `cs`, the outermost first.
abbrev pub array_of : List ℤ → CType → CType
array_of [] ty = ty
array_of (c ∷ cs) ty = ctype 0x24 (symbol 0 (array_of cs ty) 0 c null)

abbrev pub magnitude : ℤ → ℕ
magnitude (pos n) = n
magnitude (negsuc n) = suc n

abbrev pub product : List ℤ → ℕ
product [] = 1
product (c ∷ cs) = magnitude c * product cs

abbrev pub some_negative : List ℤ → Bool
some_negative [] = false
some_negative (c ∷ cs) = is_negative c || some_negative cs

abbrev pub NoneZero : List ℤ → Type 0
NoneZero [] = Unit
NoneZero (c ∷ cs) = (0 < magnitude c) × NoneZero cs

neg_lem : (n : ℕ) → 0 < n → (is_negative (neg (pos n)) ≡ true) × (magnitude (neg (pos n)) ≡ n)
neg_lem zero h = absurd (omega arith)
neg_lem (suc n) h = (refl, refl)

dimensioned_lem :
    (ts c : ℤ)
    → 0 < magnitude ts
    → 0 < magnitude c
    → (is_negative (dimensioned ts c) ≡ (is_negative c || is_negative ts))
      × (magnitude (dimensioned ts c) ≡ magnitude c * magnitude ts)
dimensioned_lem (pos a) (pos b) ha hb = (refl, mul_comm a b)
dimensioned_lem (pos a) (negsuc b) ha hb =
    let (sign, size) = neg_lem (a * suc b) (mul-pos ha hb) in (sign, size ∙ mul_comm a (suc b))
dimensioned_lem (negsuc a) (pos b) ha hb =
    let (sign, size) = neg_lem (suc a * b) (mul-pos ha hb) in
    (sign ∙ refl, size ∙ mul_comm (suc a) b)
dimensioned_lem (negsuc a) (negsuc b) ha hb =
    let (sign, size) = neg_lem (suc a * suc b) (mul-pos ha hb) in
    (sign, size ∙ mul_comm (suc a) (suc b))

product_pos : (cs : List ℤ) → NoneZero cs → 0 < product cs
product_pos [] h = omega arith
product_pos (c ∷ cs) (hc, h) = mul-pos hc (product_pos cs h)

or_assoc : (a b c : Bool) → (a || (b || c)) ≡ ((a || b) || c)
or_assoc true b c = refl
or_assoc false b c = refl

-- The size of an array is the product of its dimensions and the size of its elements; it is negative
-- where a dimension is not known or the type of the elements is not complete.
pub type_size_lem :
    (cs : List ℤ) (ty : CType)
    → NoneZero cs
    → 0 < magnitude (type_size ty).0
    → (is_negative (type_size (array_of cs ty)).0
        ≡ (some_negative cs || is_negative (type_size ty).0))
      × (magnitude (type_size (array_of cs ty)).0 ≡ product cs * magnitude (type_size ty).0)
      × ((type_size (array_of cs ty)).1 ≡ (type_size ty).1)
unfolding type_size
type_size_lem [] ty nonzero h = (refl, omega arith, refl)
type_size_lem (c ∷ cs) ty (hc, nonzero) h =
    let (sign, size, align) = type_size_lem cs ty nonzero h in
    let base = (type_size ty).0 in
    let some_size : 0 < magnitude (type_size (array_of cs ty)).0 =
      rw size (mul-pos (product_pos cs nonzero) h) in
    let (sign1, size1) = dimensioned_lem (type_size (array_of cs ty)).0 c some_size hc in
    (
      sign1 ∙ rw sign (or_assoc (is_negative c) (some_negative cs) (is_negative base)),
      size1 ∙ rw size (sym (mul_assoc (magnitude c) (product cs) (magnitude base))),
      align,
    )
