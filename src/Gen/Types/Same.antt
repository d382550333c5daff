-- ===== src/Gen/Types/Same.antt =====
-- What compare_types decides (tccgen.c: compare_types, is_compatible_func,
-- is_compatible_parameter_types).
use mathlib.Core.Bool.{true≢false}
use inherpreter.Prelude.{
  ℕ, ◌%◌, ◌≡◌, refl, sym, ap, ◌∙◌, ◌↔◌, ◌⊎◌, inl, inr, Bool, true, false, ◌&&◌, ◌||◌, ◌==◌,
  if◌then◌else◌, ==_iff, Bool-cases,
}
use inherpreter.Gen.Types.{
  ℤ, pos, negsuc, CType, ctype, Sym, null, symbol, vt_ptr, vt_func, vt_struct, btype, compared,
  is_same, func_old, func_call, same_ref, compare_types, compare_pointed, is_compatible_func,
  compare_params,
}
use inherpreter.Gen.Types.Compare.{pick, result}
use inherpreter.Gen.Types.Bits.{
  SameBits, SameBits-both, kept_bits, qualifier_mask, compared-SameBits, btype-compared,
}

-- What the symbol of a type is for, by the four lowest bits of the type.
pub data Kind : Type 0 where
  basic pointer structure function : Kind

abbrev pub kind_of : (bt : ℕ) → Kind
kind_of bt =
    if bt == vt_ptr
    then pointer
    else if bt == vt_struct
    then structure
    else if bt == vt_func
    then function
    else basic

abbrev pub SameNumber : Sym → Sym → Type 0
SameNumber null null = Unit
SameNumber (symbol i a r1 c1 n1) (symbol j b r2 c2 n2) = i ≡ j
SameNumber _ _ = ⊥

-- When two types are the same: the bits that count agree, and so do the types that are pointed to, with
-- their qualifiers, the struct, or the function, with its return type, its calling convention, and
-- its style and parameters unless one of the two is of the old style. The qualifiers of a parameter
-- do not count.
unfoldable mutual
  pub SameType : (unqualified : Bool) → CType → CType → Type 0
  SameType u (ctype t1 s1) (ctype t2 s2) =
      SameBits (kept_bits u) t1 t2 × SameRef (kind_of (t1 % 16)) s1 s2

  pub SameRef : Kind → Sym → Sym → Type 0
  SameRef basic s1 s2 = Unit
  SameRef structure s1 s2 = SameNumber s1 s2
  SameRef pointer (symbol i a r1 c1 n1) (symbol j b r2 c2 n2) = SameType false a b
  SameRef function (symbol i a r1 c1 n1) (symbol j b r2 c2 n2) =
      SameType false a b
      × (r1 % 8 ≡ r2 % 8)
      × (((c1 ≡ func_old) ⊎ (c2 ≡ func_old)) ⊎ ((c1 ≡ c2) × SameParams n1 n2))
  SameRef _ _ _ = ⊥

  pub SameParams : Sym → Sym → Type 0
  SameParams null null = Unit
  SameParams (symbol i a r1 c1 n1) (symbol j b r2 c2 n2) = SameType true a b × SameParams n1 n2
  SameParams _ _ = ⊥

-- Types that are the same are so without their qualifiers.
SameType-weaken : (a b : CType) → SameType false a b → SameType true a b
unfolding SameType
SameType-weaken (ctype t1 s1) (ctype t2 s2) (bits, ref) =
    (SameBits-both qualifier_mask (kept_bits false) t1 t2 bits, ref)

-- A test that decides a proposition.
abbrev pub Decides : Bool → Type 0 → Type 0
Decides b P = (b ≡ true → P) × (P → b ≡ true)

no_true : {A : Type 0} → false ≡ true → A
no_true h = absurd (true≢false (sym h))

Decides-and : (a b : Bool) (P Q : Type 0) → Decides a P → Decides b Q → Decides (a && b) (P × Q)
Decides-and true b P Q p q = (λ h. (p.0 refl, q.0 h), λ (x, y). q.1 y)
Decides-and false b P Q p q = (no_true, λ (x, y). p.1 x)

Decides-or : (a b : Bool) (P Q : Type 0) → Decides a P → Decides b Q → Decides (a || b) (P ⊎ Q)
Decides-or true b P Q p q = (λ h. inl (p.0 refl), λ s. refl)
Decides-or false b P Q p q =
    (λ h. inr (q.0 h), λ s. elim s [ inl x ↦ no_true (p.1 x) | inr y ↦ q.1 y ])

Decides-none : Decides false ⊥
Decides-none = (no_true, λ x. absurd x)

Decides-is_same : (a b : ℤ) → Decides (is_same a b) (a ≡ b)
Decides-is_same (pos a) (pos b) =
    (λ h. ap pos ((==_iff a b).0 h), λ e. let e1 : a ≡ b = cc in (==_iff a b).1 e1)
Decides-is_same (negsuc a) (negsuc b) =
    (λ h. ap negsuc ((==_iff a b).0 h), λ e. let e1 : a ≡ b = cc in (==_iff a b).1 e1)
Decides-is_same (pos a) (negsuc b) = (no_true, λ e. absurd (cc))
Decides-is_same (negsuc a) (pos b) = (no_true, λ e. absurd (cc))

Decides-same_ref : (s1 s2 : Sym) → Decides (same_ref s1 s2) (SameNumber s1 s2)
Decides-same_ref null null = (λ h. tt, λ x. refl)
Decides-same_ref null (symbol j b r2 c2 n2) = Decides-none
Decides-same_ref (symbol i a r1 c1 n1) null = Decides-none
Decides-same_ref (symbol i a r1 c1 n1) (symbol j b r2 c2 n2) = ==_iff i j

-- The test of the type that is referred to, by its kind.
abbrev test_ref : Kind → (pointed same func : Bool) → Bool
test_ref basic p s f = true
test_ref pointer p s f = p
test_ref structure p s f = s
test_ref function p s f = f

pick-test_ref : (bt : ℕ) (p s f : Bool) → pick bt p s f ≡ test_ref (kind_of bt) p s f
pick-test_ref bt p s f = elim (Bool-cases (bt == vt_ptr)) [
  | inl e ↦ rw e refl
  | inr e ↦ elim (Bool-cases (bt == vt_struct)) [
    | inl e1 ↦ rw (e, e1) refl
    | inr e1 ↦ elim (Bool-cases (bt == vt_func)) [
      | inl e2 ↦ rw (e, e1, e2) refl
      | inr e2 ↦ rw (e, e1, e2) refl
    ]
  ]
]

Decides-result :
    (x y t : ℕ) (p s f : Bool) (P Q : Type 0)
    → btype x ≡ t % 16
    → (x ≡ y → P) × (P → x ≡ y)
    → Decides (test_ref (kind_of (t % 16)) p s f) Q
    → Decides (result x y p s f) (P × Q)
Decides-result x y t p s f P Q low bits ref =
    let test : pick (btype x) p s f ≡ test_ref (kind_of (t % 16)) p s f =
      pick-test_ref (btype x) p s f ∙ ap (λ n. test_ref (kind_of n) p s f) low in
    elim (Bool-cases (x == y)) [
      | inl e ↦ rw (e, test) (λ h. (bits.0 ((==_iff x y).0 e), ref.0 h), λ (b, r). ref.1 r)
      | inr e ↦
          rw e (no_true, λ (b, r). let same = (==_iff x y).1 (bits.1 b) in no_true (sym e ∙ same))
    ]

-- The return type is compared a second time, without qualifiers.
Decides-again :
    (a b : CType) (p : Bool) (Q : Type 0)
    → Decides (compare_types a b true) (SameType true a b)
    → SameType false a b
    → Decides p Q
    → Decides (compare_types a b true && p) Q
Decides-again a b p Q again same q = rw (again.1 (SameType-weaken a b same)) q

-- The tests of is_compatible_func; the last one counts where the return types are the same.
Decides-func :
    (returned call old style rest : Bool) (P C O S R : Type 0)
    → Decides returned P
    → Decides call C
    → Decides old O
    → Decides style S
    → (P → Decides rest R)
    → Decides (returned && (call && (old || style && rest))) (P × C × (O ⊎ (S × R)))
Decides-func false call old style rest P C O S R p c o s r = (no_true, λ (x, y, z). p.1 x)
Decides-func true call old style rest P C O S R p c o s r =
    let x = p.0 refl in
    let others =
      Decides-and call (old || style && rest) C (O ⊎ (S × R)) c
        (Decides-or old (style && rest) O (S × R) o (Decides-and style rest S R s (r x))) in
    (λ h. let (y, z) = others.0 h in (x, y, z), λ (x1, y, z). others.1 (y, z))

mutual
  unfolding compare_types SameType

  Decides-types : (a b : CType) (u : Bool) → Decides (compare_types a b u) (SameType u a b)
  Decides-types (ctype t1 s1) (ctype t2 s2) u =
      Decides-result (compared u t1) (compared u t2) t1 (compare_pointed s1 s2) (same_ref s1 s2)
        (is_compatible_func s1 s2) (SameBits (kept_bits u) t1 t2)
        (SameRef (kind_of (t1 % 16)) s1 s2) (btype-compared u t1) (compared-SameBits u t1 t2)
        (Decides-ref (kind_of (t1 % 16)) s1 s2)

  Decides-ref :
      (k : Kind) (s1 s2 : Sym)
      → Decides
          (test_ref k (compare_pointed s1 s2) (same_ref s1 s2) (is_compatible_func s1 s2))
          (SameRef k s1 s2)
  Decides-ref basic s1 s2 = (λ h. tt, λ x. refl)
  Decides-ref structure s1 s2 = Decides-same_ref s1 s2
  Decides-ref pointer null s2 = Decides-none
  Decides-ref pointer (symbol i a r1 c1 n1) null = Decides-none
  Decides-ref pointer (symbol i a r1 c1 n1) (symbol j b r2 c2 n2) = Decides-types a b false
  Decides-ref function null s2 = Decides-none
  Decides-ref function (symbol i a r1 c1 n1) null = Decides-none
  Decides-ref function (symbol i a r1 c1 n1) (symbol j b r2 c2 n2) =
      Decides-func (compare_types a b false) (func_call r1 == func_call r2)
        (is_same c1 func_old || is_same c2 func_old) (is_same c1 c2)
        (compare_types a b true && compare_params n1 n2) (SameType false a b) (r1 % 8 ≡ r2 % 8)
        ((c1 ≡ func_old) ⊎ (c2 ≡ func_old)) (c1 ≡ c2) (SameParams n1 n2) (Decides-types a b false)
        (==_iff (r1 % 8) (r2 % 8))
        (Decides-or (is_same c1 func_old) (is_same c2 func_old) (c1 ≡ func_old) (c2 ≡ func_old)
          (Decides-is_same c1 func_old) (Decides-is_same c2 func_old))
        (Decides-is_same c1 c2)
        (λ same.
          Decides-again a b (compare_params n1 n2) (SameParams n1 n2) (Decides-types a b true) same
            (Decides-params n1 n2))

  Decides-params : (s1 s2 : Sym) → Decides (compare_params s1 s2) (SameParams s1 s2)
  Decides-params null null = (λ h. tt, λ x. refl)
  Decides-params null (symbol j b r2 c2 n2) = Decides-none
  Decides-params (symbol i a r1 c1 n1) null = Decides-none
  Decides-params (symbol i a r1 c1 n1) (symbol j b r2 c2 n2) =
      Decides-and (compare_types a b true) (compare_params n1 n2) (SameType true a b)
        (SameParams n1 n2) (Decides-types a b true) (Decides-params n1 n2)

-- compare_types says that two types are the same if and only if the bits that count agree and, by the
-- four lowest bits, the types that are pointed to agree with their qualifiers, the two are one
-- struct, or they are functions with the same return type and calling convention of which one is of
-- the old style or both have the same style and, but for qualifiers, the same parameters. The bits
-- that count are those of no storage class and, for a comparison without qualifiers, not const and
-- volatile.
pub compare_types-SameType :
    (a b : CType) (unqualified : Bool)
    → (compare_types a b unqualified ≡ true) ↔ SameType unqualified a b
compare_types-SameType a b unqualified = Decides-types a b unqualified
