-- ===== src/Cpp/Macros/Names.antt =====
-- The names that may still be expanded, and the tokens that are no names.
use inherpreter.Prelude.{
  ℕ, zero, suc, ◌≤◌, ◌<◌, ◌≡◌, refl, ◌⊎◌, inl, inr, false, ◌&&◌, none, some, List, [], ◌∷◌, ◌++◌,
  append-nil, arith, ltb, leb, ◌==◌, if◌then◌else◌, Bool-cases, some_eq,
}
use inherpreter.Cpp.Idents.{tok_ident_base}
use inherpreter.Cpp.Tokens.{one_of}
use inherpreter.Cpp.Macros.{
  Token, tok_str, tok_ppnum, tok_nosubst, is_space, Macro, Env, define_find, Spaced, add_spaced,
}
use inherpreter.Cpp.Macros.Expanding.{special}

-- The numbers below `k` that are not in the list.
unfoldable pub unused : (nested : List ℕ) → (k : ℕ) → ℕ
unused nested zero = 0
unused nested (suc k) = let rest = unused nested k in if one_of k nested then rest else suc rest

unused-cons_le : (t : ℕ) (nested : List ℕ) (k : ℕ) → unused (t ∷ nested) k ≤ unused nested k
unfolding unused
unused-cons_le t nested zero = omega arith
unused-cons_le t nested (suc k) = let ih = unused-cons_le t nested k in ground arith

pub unused-cons :
    (t : ℕ) (nested : List ℕ) (k : ℕ)
    → t < k
    → one_of t nested ≡ false
    → unused (t ∷ nested) k < unused nested k
unfolding unused
unused-cons t nested zero lt e = absurd (omega arith)
unused-cons t nested (suc k) lt e = elim (Bool-cases (k == t)) [
  | inl same ↦
      let eq : k ≡ t = ground arith in
      let le = unused-cons_le t nested k in
      let unnamed : one_of k nested ≡ false = rw eq e in rw (same, unnamed) (ground arith)
  | inr other ↦ let ih = unused-cons t nested k (ground arith) e in rw other (ground arith)
]

pub define_find-below :
    (env : Env) (v : ℕ) (m : Macro) → define_find env v ≡ some m → v < env.tok_ident
unfolding define_find
define_find-below env v m h = elim (Bool-cases (leb tok_ident_base v && ltb v env.tok_ident)) [
  | inl e ↦ ground arith
  | inr e ↦ absurd (let no : none ≡ some m = rw e at h in cc)
]

pub define_find-from :
    (env : Env) (v : ℕ) (m : Macro) → define_find env v ≡ some m → tok_ident_base ≤ v
unfolding define_find
define_find-from env v m h = elim (Bool-cases (leb tok_ident_base v && ltb v env.tok_ident)) [
  | inl e ↦ ground arith
  | inr e ↦ absurd (let no : none ≡ some m = rw e at h in cc)
]

pub add_spaced-cases :
    (s : Spaced) (tk : Token)
    → ((add_spaced s tk).str ≡ s.str ++ []) ⊎ ((add_spaced s tk).str ≡ s.str ++ tk ∷ [])
add_spaced-cases s tk = elim (Bool-cases (is_space tk.t)) [
  | inl e ↦ elim (Bool-cases s.spc) [
    | inl e1 ↦ inl (rw (e, e1, append-nil s.str) refl)
    | inr e1 ↦ inr (rw (e, e1) refl)
  ]
  | inr e ↦ inr (rw e refl)
]

pub add_spaced-name :
    (s : Spaced) (tk : Token) → tok_ident_base ≤ tk.t → (add_spaced s tk).str ≡ s.str ++ tk ∷ []
add_spaced-name s tk le = let e : is_space tk.t ≡ false = ground arith in rw e refl

pub define_find-small : (env : Env) (v : ℕ) → v < tok_ident_base → define_find env v ≡ none
unfolding define_find
define_find-small env v lt = let no : leb tok_ident_base v ≡ false = ground arith in rw no refl

token_small :
    {tk tk1 : Token}
    → some tk1 ≡ some tk
    → (tk1.t ≡ tok_ppnum) ⊎ (tk1.t ≡ tok_str)
    → (tk.t < tok_ident_base) × ((tk.t == tok_nosubst) ≡ false)
token_small {tk} {tk1} e (inl k) =
    let same : tk1 ≡ tk = some_eq e in rw (← same, k) (omega arith, refl)
token_small {tk} {tk1} e (inr k) =
    let same : tk1 ≡ tk = some_eq e in rw (← same, k) (omega arith, refl)

pub special-small :
    (env : Env) (v : ℕ) (tk : Token)
    → special env v ≡ some tk
    → (tk.t < tok_ident_base) × ((tk.t == tok_nosubst) ≡ false)
unfolding special
special-small env v tk h = elim (Bool-cases (v == 326)) [
  | inl e ↦ token_small (rw e at h) (inl refl)
  | inr e ↦ elim (Bool-cases (v == 327)) [
    | inl e1 ↦ token_small (rw (e, e1) at h) (inr refl)
    | inr e1 ↦ elim (Bool-cases (v == 328)) [
      | inl e2 ↦ token_small (rw (e, e1, e2) at h) (inr refl)
      | inr e2 ↦ elim (Bool-cases (v == 329)) [
        | inl e3 ↦ token_small (rw (e, e1, e2, e3) at h) (inr refl)
        | inr e3 ↦ let no : none ≡ some tk = rw (e, e1, e2, e3) at h in absurd (cc)
      ]
    ]
  ]
]
