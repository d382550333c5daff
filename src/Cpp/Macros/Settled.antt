-- ===== src/Cpp/Macros/Settled.antt =====
-- Expansion where no macro has parameters: each turn of the loop of macro_subst, and the strings of
-- which nothing is left to expand.
use inherpreter.Prelude.{
  ℕ, suc, ◌≡◌, refl, inl, inr, Bool, true, false, not, ◌&&◌, none, some, List, [], ◌∷◌, ◌++◌, arith,
  ◌==◌, if◌then◌else◌, ==_refl, Bool-cases, Option-cases, length,
}
use inherpreter.Cpp.Tokens.{one_of}
use inherpreter.Cpp.Macros.{
  Token, tok_twosharps, tok_nosubst, Macro, Env, define_find, Spaced, add_spaced, ok,
}
use inherpreter.Cpp.Macros.Pasting.{has_twosharps, macro_twosharps}
use inherpreter.Cpp.Macros.Expanding.{
  Stream, special, Loop, macro_subst_tok, enter, leave, nosubst, subst_by, expand_by, turn,
}

-- A string in which no `##` and no mark TOK_NOSUBST stands, as in a source file.
abbrev pub is_raw : List Token → Bool
is_raw [] = true
is_raw (tk ∷ ts) = not (tk.t == tok_nosubst) && not (tk.t == tok_twosharps) && is_raw ts

pub is_raw-twosharps : (ts : List Token) → is_raw ts ≡ true → has_twosharps ts ≡ false
is_raw-twosharps [] h = refl
is_raw-twosharps (tk ∷ ts) h = elim (Bool-cases (tk.t == tok_nosubst)) [
  | inl e ↦ absurd (ground arith)
  | inr e ↦ elim (Bool-cases (tk.t == tok_twosharps)) [
    | inl e1 ↦ absurd (ground arith)
    | inr e1 ↦ rw e1 (is_raw-twosharps ts (ground arith))
  ]
]

pub is_raw-head :
    (tk : Token) (ts : List Token)
    → is_raw (tk ∷ ts) ≡ true
    → ((tk.t == tok_nosubst) ≡ false) × (is_raw ts ≡ true)
is_raw-head tk ts h = elim (Bool-cases (tk.t == tok_nosubst)) [
  | inl e ↦ let no : false ≡ true = rw e at h in absurd (cc)
  | inr e ↦ elim (Bool-cases (tk.t == tok_twosharps)) [
    | inl e1 ↦ let no : false ≡ true = rw (e, e1) at h in absurd (cc)
    | inr e1 ↦ (e, rw (e, e1) at h)
  ]
]

-- Every macro of the table is one without parameters, and its string is raw.
abbrev pub AllObjects : Env → Type 0
AllObjects env =
    (v : ℕ) (m : Macro) → define_find env v ≡ some m → (m.is_func ≡ false) × (is_raw m.d ≡ true)

module _ (env : Env) where
  -- Every name of a macro stands behind a mark, and behind each mark stands a token.
  unfoldable pub settled : (marked : Bool) → List Token → Bool
  unfolding define_find
  settled marked [] = not marked
  settled true (tk ∷ ts) = settled false ts
  settled false (tk ∷ ts) =
      let behind_mark = settled true ts in
      let plain = settled false ts in
      if tk.t == tok_nosubst
      then behind_mark
      else elim (define_find env tk.t) [ none ↦ plain | some m ↦ false ]

  pub settled-append :
      (marked : Bool) (xs ys : List Token)
      → settled marked xs ≡ true
      → settled false ys ≡ true
      → settled marked (xs ++ ys) ≡ true
  unfolding settled
  settled-append true [] ys h e = let no : false ≡ true = h in cc
  settled-append false [] ys h e = e
  settled-append true (tk ∷ xs) ys h e = settled-append false xs ys h e
  settled-append false (tk ∷ xs) ys h e = elim (Bool-cases (tk.t == tok_nosubst)) [
    | inl m ↦ rw m (settled-append true xs ys (rw m at h) e)
    | inr m ↦ elim (Option-cases (define_find env tk.t)) [
      | inl d ↦ rw (m, d) (settled-append false xs ys (rw (m, d) at h) e)
      | inr (k, d) ↦ let no : false ≡ true = rw (m, d) at h in cc
    ]
  ]

  subst_tok-object :
      (f : ℕ) (loop : Loop) (b : Bool) (st : Stream) (str : List Token) (tok : ℕ) (m : Macro)
      (str1 : List Token)
      → special env tok ≡ none
      → m.is_func ≡ false
      → has_twosharps m.d ≡ false
      → subst_by env loop b (record st { nested = tok ∷ st.nested }) str m.d
        ≡ ok (record st { nested = tok ∷ st.nested }, str1)
      → macro_subst_tok env f (expand_by env loop) b st str tok m ≡ ok (true, (st, str1))
  unfolding macro_subst_tok macro_twosharps
  subst_tok-object f loop b st str tok m str1 sp fn sh run =
      rw (macro_subst_tok, sp, fn, sh, run) refl

  subst_tok-special :
      (f : ℕ) (loop : Loop) (b : Bool) (st : Stream) (str : List Token) (tok : ℕ) (m : Macro)
      (tk : Token)
      → special env tok ≡ some tk
      → macro_subst_tok env f (expand_by env loop) b st str tok m ≡ ok (true, (st, str ++ tk ∷ []))
  unfolding macro_subst_tok
  subst_tok-special f loop b st str tok m tk sp = rw (macro_subst_tok, sp) refl

  module _ (loop : Loop) (f : ℕ) (b : Bool) (st : Stream) (s : Spaced) (tk : Token)
      (ts : List Token) where
    pub turn-copy :
        (tk.t == tok_nosubst) ≡ false
        → define_find env tk.t ≡ none
        → turn env loop f b st s false tk ts ≡ loop b st (add_spaced s tk) false (some ts)
    unfolding turn
    turn-copy e d = rw (turn, e, d) refl

    pub turn-nested :
        (m : Macro)
        → (tk.t == tok_nosubst) ≡ false
        → define_find env tk.t ≡ some m
        → one_of tk.t st.nested ≡ true
        → turn env loop f b st s false tk ts
          ≡ loop b st (add_spaced (nosubst env s) tk) false (some ts)
    unfolding turn
    turn-nested m e d n = rw (turn, e, d, n) refl

    leave-enter : leave env b st (enter env b st ts) ≡ st
    leave-enter =
        let same = ==_refl (suc (length st.levels)) in
        elim (Bool-cases b) [ inl e ↦ rw (e, same) refl | inr e ↦ rw e refl ]

    -- A macro that is substituted: the loop goes on behind it.
    turn-done :
        (m : Macro) (str : List Token)
        → env.keep_spaces ≡ false
        → (tk.t == tok_nosubst) ≡ false
        → define_find env tk.t ≡ some m
        → one_of tk.t st.nested ≡ false
        → macro_subst_tok env f (expand_by env loop) b (enter env b st ts) s.str tk.t m
          ≡ ok (true, (enter env b st ts, str))
        → turn env loop f b st s false tk ts ≡ loop b st (record s { str = str }) false (some ts)
    unfolding turn
    turn-done m str k e d n sub = rw (turn, e, d, n, sub, k, leave-enter) refl

    abbrev pub inside : Stream
    inside = record (enter env b st ts) { nested = tk.t ∷ st.nested }

    pub turn-macro :
        (m : Macro) (str : List Token)
        → env.keep_spaces ≡ false
        → (tk.t == tok_nosubst) ≡ false
        → define_find env tk.t ≡ some m
        → one_of tk.t st.nested ≡ false
        → special env tk.t ≡ none
        → m.is_func ≡ false
        → has_twosharps m.d ≡ false
        → subst_by env loop b inside s.str m.d ≡ ok (inside, str)
        → turn env loop f b st s false tk ts ≡ loop b st (record s { str = str }) false (some ts)
    turn-macro m str k e d n sp fn sh run =
        turn-done m str k e d n
          (subst_tok-object f loop b (enter env b st ts) s.str tk.t m str sp fn sh run)

    pub turn-special :
        (m : Macro) (tk1 : Token)
        → env.keep_spaces ≡ false
        → (tk.t == tok_nosubst) ≡ false
        → define_find env tk.t ≡ some m
        → one_of tk.t st.nested ≡ false
        → special env tk.t ≡ some tk1
        → turn env loop f b st s false tk ts
          ≡ loop b st (record s { str = s.str ++ tk1 ∷ [] }) false (some ts)
    turn-special m tk1 k e d n sp =
        turn-done m (s.str ++ tk1 ∷ []) k e d n
          (subst_tok-special f loop b (enter env b st ts) s.str tk.t m tk1 sp)
