-- ===== src/Cpp/Macros/Rescanned.antt =====
-- The expansion of strings that were expanded before, as arguments are.
use inherpreter.Prelude.{
  ℕ, zero, suc, ◌<◌, ◌≡◌, refl, ap, ◌∙◌, inl, inr, Bool, true, false, ◌||◌, none, some, List, [],
  ◌∷◌, ◌++◌, append_assoc, append-nil, arith, ◌==◌, ==_iff, Bool-cases, Option-cases, length,
}
use inherpreter.Cpp.Macros.{
  Token, plain_token, tok_nosubst, is_space, Env, define_find, Spaced, add_spaced, ok,
}
use inherpreter.Cpp.Macros.Pasting.{has_twosharps, macro_twosharps}
use inherpreter.Cpp.Macros.Expanding.{Stream, Loop, nosubst, turn, subst_loop, macro_subst}
use inherpreter.Cpp.Macros.Settled.{settled, turn-copy}

abbrev pub has_space : List Token → Bool
has_space [] = false
has_space (tk ∷ ts) = is_space tk.t || has_space ts

-- A mark has no value.
abbrev pub PlainMarks : List Token → Type 0
PlainMarks [] = Unit
PlainMarks (tk ∷ ts) = ((tk.t ≡ tok_nosubst) → tk ≡ plain_token tok_nosubst) × PlainMarks ts

module _ (env : Env) where
  no_space-head :
      (tk : Token) (ts : List Token)
      → has_space (tk ∷ ts) ≡ false
      → (is_space tk.t ≡ false) × (has_space ts ≡ false)
  no_space-head tk ts h = elim (Bool-cases (is_space tk.t)) [
    | inl e ↦ let no : true ≡ false = rw e at h in absurd (cc)
    | inr e ↦ (e, rw e at h)
  ]

  turn-mark :
      (loop : Loop) (f : ℕ) (b : Bool) (st : Stream) (s : Spaced) (tk next : Token)
      (rest : List Token)
      → tk.t ≡ tok_nosubst
      → turn env loop f b st s false tk (next ∷ rest)
        ≡ loop b st (add_spaced (nosubst env s) next) false (some rest)
  unfolding turn
  turn-mark loop f b st s tk next rest e = rw e refl

  settled-head :
      (tk : Token) (ts : List Token)
      → (tk.t == tok_nosubst) ≡ false
      → settled env false (tk ∷ ts) ≡ true
      → (define_find env tk.t ≡ none) × (settled env false ts ≡ true)
  unfolding settled
  settled-head tk ts e h = elim (Option-cases (define_find env tk.t)) [
    | inl d ↦ (d, rw (e, d) at h)
    | inr (m, d) ↦ let no : false ≡ true = rw (e, d) at h in absurd (cc)
  ]

  settled-mark :
      (tk next : Token) (ts : List Token)
      → (tk.t == tok_nosubst) ≡ true
      → settled env false (tk ∷ next ∷ ts) ≡ true
      → settled env false ts ≡ true
  unfolding settled
  settled-mark tk next ts e h = rw e at h

  not_mark-end : (tk : Token) → settled env false (tk ∷ []) ≡ true → (tk.t == tok_nosubst) ≡ false
  unfolding settled
  not_mark-end tk h = elim (Bool-cases (tk.t == tok_nosubst)) [
    | inl e ↦ let no : false ≡ true = rw e at h in absurd (cc)
    | inr e ↦ e
  ]

  Copies : ℕ → Bool → Stream → List Token → Type 0
  Copies f b st ts = (s : Spaced) → subst_loop env f b st s false (some ts) ≡ ok (st, s.str ++ ts)

  -- A token that is no name of a macro, and one behind a mark.
  Copies-token :
      (f : ℕ) (b : Bool) (st : Stream) (tk : Token) (ts : List Token)
      → is_space tk.t ≡ false
      → (tk.t == tok_nosubst) ≡ false
      → define_find env tk.t ≡ none
      → Copies f b st ts
      → Copies (suc f) b st (tk ∷ ts)
  unfolding subst_loop Copies
  Copies-token f b st tk ts sp e d rest s =
      let s1 : Spaced = record { str = s.str ++ tk ∷ []; spc = false } in
      let written : add_spaced s tk ≡ s1 = rw sp refl in
      turn-copy env (subst_loop env f) f b st s tk ts e d
      ∙ rw (written, ← append_assoc s.str (tk ∷ []) ts) (rest s1)

  Copies-marked :
      (f : ℕ) (b : Bool) (st : Stream) (tk next : Token) (ts : List Token)
      → is_space next.t ≡ false
      → tk ≡ plain_token tok_nosubst
      → Copies f b st ts
      → Copies (suc f) b st (tk ∷ next ∷ ts)
  unfolding subst_loop Copies
  Copies-marked f b st tk next ts sp e rest s =
      let s1 : Spaced = record { str = (s.str ++ tk ∷ []) ++ next ∷ []; spc = false } in
      let written : add_spaced (nosubst env s) next ≡ s1 = rw (sp, e) refl in
      let joined : ((s.str ++ tk ∷ []) ++ next ∷ []) ++ ts ≡ s.str ++ tk ∷ next ∷ ts =
        simp append_assoc refl in
      turn-mark (subst_loop env f) f b st s tk next ts (ap (λ (k : Token). k.t) e)
      ∙ rw (written, ← joined) (rest s1)

  Copies-settled :
      (f : ℕ) (b : Bool) (st : Stream) (ts : List Token)
      → length ts < f
      → has_space ts ≡ false
      → PlainMarks ts
      → settled env false ts ≡ true
      → Copies f b st ts
  unfolding subst_loop Copies
  Copies-settled zero b st ts lt sp pm h s = absurd (omega arith)
  Copies-settled (suc f) b st [] lt sp pm h s = rw (append-nil s.str) refl
  Copies-settled (suc f) b st (tk ∷ []) lt sp pm h s =
      let e = not_mark-end tk h in
      let (d, h1) = settled-head tk [] e h in
      let (sp1, sp2) = no_space-head tk [] sp in
      Copies-token f b st tk [] sp1 e d (Copies-settled f b st [] (omega arith) sp2 pm.1 h1) s
  Copies-settled (suc f) b st (tk ∷ next ∷ rest) lt sp pm h s =
      let (sp1, sp2) = no_space-head tk (next ∷ rest) sp in
      let (sp3, sp4) = no_space-head next rest sp2 in
      elim (Bool-cases (tk.t == tok_nosubst)) [
        | inl e ↦
            Copies-marked f b st tk next rest sp3 (pm.0 ((==_iff tk.t tok_nosubst).0 e))
              (Copies-settled f b st rest (omega arith) sp4 pm.1.1 (settled-mark tk next rest e h))
              s
        | inr e ↦
            let (d, h1) = settled-head tk (next ∷ rest) e h in
            Copies-token f b st tk (next ∷ rest) sp1 e d
              (Copies-settled f b st (next ∷ rest) (omega arith) sp2 pm.1 h1) s
      ]

  -- A string without spaces and `##`, in which every name of a macro stands behind a mark, is written
  -- as it is, whatever the macros are and wherever it stands, with fuel above its length.
  pub macro_subst-rescanned :
      (f : ℕ) (b : Bool) (st : Stream) (str ts : List Token)
      → length ts < f
      → has_space ts ≡ false
      → has_twosharps ts ≡ false
      → PlainMarks ts
      → settled env false ts ≡ true
      → macro_subst env f b st str ts ≡ ok (st, str ++ ts)
  unfolding macro_subst macro_twosharps Copies
  macro_subst-rescanned f b st str ts lt sp sh pm h =
      rw sh (Copies-settled f b st ts lt sp pm h (record { str = str; spc = false }))
