-- ===== src/Gen/Types/Equal.antt =====
-- compare_types relates a type to itself.
use inherpreter.Prelude.{
  ℕ, ◌≡◌, refl, inl, inr, Bool, true, false, ◌||◌, arith, ◌==◌, if◌then◌else◌, ==_refl, Bool-cases,
}
use inherpreter.Gen.Types.{
  ℤ, pos, negsuc, CType, ctype, Sym, null, symbol, vt_ptr, vt_func, btype, compared, is_same,
  func_call, is_old, same_ref, compare_types, compare_pointed, is_compatible_func, compare_params,
}
use inherpreter.Gen.Types.Compare.{pick, result}

abbrev refers : ℕ → Bool
refers bt = bt == vt_ptr || bt == vt_func

-- The types of pointers and functions have a symbol.
abbrev pub needs_ref : ℕ → Bool
needs_ref t = refers (btype (compared true t)) || refers (btype (compared false t))

unfoldable mutual
  pub IsFormed : CType → Type 0
  IsFormed (ctype t s) = let linked = IsLinked s in if needs_ref t then linked else Unit

  pub IsLinked : Sym → Type 0
  IsLinked null = ⊥
  IsLinked (symbol i ty r c n) = IsFormed ty × AreParams n

  pub AreParams : Sym → Type 0
  AreParams null = Unit
  AreParams (symbol i ty r c n) = IsFormed ty × AreParams n

pick-true : (bt : ℕ) → pick bt true true true ≡ true
pick-true bt = ground arith

pick_plain : (bt : ℕ) (p f : Bool) → refers bt ≡ false → pick bt p true f ≡ true
pick_plain bt p f h = ground arith

or_true : (a : Bool) → (a || true) ≡ true
or_true true = refl
or_true false = refl

result_refl :
    (x : ℕ) (p s f : Bool)
    → (refers (btype x) ≡ true → (p ≡ true) × (f ≡ true))
    → s ≡ true
    → result x x p s f ≡ true
result_refl x p s f h same = elim (Bool-cases (refers (btype x))) [
  | inl e ↦ rw (==_refl x, (h e).0, (h e).1, same) (pick-true (btype x))
  | inr e ↦ rw (==_refl x, same) (pick_plain (btype x) p f e)
]

same_ref_refl : (s : Sym) → same_ref s s ≡ true
same_ref_refl null = refl
same_ref_refl (symbol i ty r c n) = ==_refl i

is_same_refl : (a : ℤ) → is_same a a ≡ true
is_same_refl (pos a) = ==_refl a
is_same_refl (negsuc a) = ==_refl a

needs_ref_of : (u : Bool) (t : ℕ) → refers (btype (compared u t)) ≡ true → needs_ref t ≡ true
needs_ref_of true t h = rw h refl
needs_ref_of false t h = rw h (or_true (refers (btype (compared true t))))

IsLinked-IsFormed : (t : ℕ) (s : Sym) → IsFormed (ctype t s) → needs_ref t ≡ true → IsLinked s
unfolding IsFormed
IsLinked-IsFormed t s h e = rw e at h

mutual
  unfolding compare_types IsFormed

  refl_types : (a : CType) (unqualified : Bool) → IsFormed a → compare_types a a unqualified ≡ true
  refl_types (ctype t s) u formed =
      result_refl (compared u t) (compare_pointed s s) (same_ref s s) (is_compatible_func s s)
        (λ h. refl_refs s (IsLinked-IsFormed t s formed (needs_ref_of u t h))) (same_ref_refl s)

  refl_refs :
      (s : Sym) → IsLinked s → (compare_pointed s s ≡ true) × (is_compatible_func s s ≡ true)
  refl_refs null h = absurd h
  refl_refs (symbol i ty r c n) (formed, params) = (
    refl_types ty false formed,
    rw
        (
          refl_types ty false formed,
          refl_types ty true formed,
          compare_params_refl n params,
          ==_refl (func_call r),
          is_same_refl c,
        )
        (or_true (is_old c c)),
  )

  compare_params_refl : (s : Sym) → AreParams s → compare_params s s ≡ true
  compare_params_refl null h = refl
  compare_params_refl (symbol i ty r c n) (formed, params) =
      rw (refl_types ty true formed, compare_params_refl n params) refl

-- A type whose pointers and functions have symbols is the same as itself.
pub compare_types_refl :
    (a : CType) (unqualified : Bool) → IsFormed a → compare_types a a unqualified ≡ true
compare_types_refl a unqualified formed = refl_types a unqualified formed
