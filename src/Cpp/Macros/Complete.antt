-- ===== src/Cpp/Macros/Complete.antt =====
-- The whole expansion of a string where no macro has parameters.
use inherpreter.Prelude.{
  ℕ, zero, suc, ◌+◌, ◌<◌, ◌≡◌, refl, ◌∙◌, inl, inr, Bool, true, false, none, some, List, [], ◌∷◌,
  ◌++◌, append_assoc, append-nil, arith, ◌==◌, Bool-cases, Option-cases, set,
}
use inherpreter.Cpp.Tokens.{one_of}
use inherpreter.Cpp.Macros.{
  Token, plain_token, tok_nosubst, Macro, Env, define_find, Spaced, add_spaced, ok,
}
use inherpreter.Cpp.Macros.Pasting.{has_twosharps, macro_twosharps}
use inherpreter.Cpp.Macros.Expanding.{Stream, special, nosubst, turn, subst_loop, macro_subst}
use inherpreter.Cpp.Macros.Names.{
  unused, unused-cons, define_find-below, define_find-from, add_spaced-cases, add_spaced-name,
  define_find-small, special-small,
}
use inherpreter.Cpp.Macros.Settled.{
  is_raw, is_raw-twosharps, is_raw-head, AllObjects, settled, settled-append, turn-copy,
  turn-nested, inside, turn-macro, turn-special,
}

-- With enough fuel macro_subst writes a settled string, and the stream is as before.
abbrev pub Settles : Env → Bool → Stream → (str ts : List Token) → Type 0
Settles env b st str ts =
    (fuel : ℕ) × (out : List Token) × ((f : ℕ)
      → macro_subst env (fuel + f) b st str ts ≡ ok (st, str ++ out))
    × (settled env false out ≡ true)

module _ (env : Env) where
  -- The loop writes a settled string behind the one it has, with enough fuel, and the stream is as
  -- before.
  record Expands (st : Stream) (b : Bool) (s : Spaced) (ptr : List Token) : Type 0 where
    fuel : ℕ
    out : List Token
    runs : (f : ℕ) → subst_loop env (fuel + f) b st s false (some ptr) ≡ ok (st, s.str ++ out)
    is_settled : settled env false out ≡ true

  settled-keep :
      (tk : Token)
      → (tk.t == tok_nosubst) ≡ false
      → define_find env tk.t ≡ none
      → settled env false (tk ∷ []) ≡ true
  unfolding settled
  settled-keep tk e d = rw (e, d) refl

  settled-marked : (tk : Token) → settled env false (plain_token tok_nosubst ∷ tk ∷ []) ≡ true
  unfolding settled
  settled-marked tk = refl

  Expands-end : (st : Stream) (b : Bool) (s : Spaced) → Expands st b s []
  unfolding subst_loop settled
  Expands-end st b s = record {
    fuel = 1;
    out = [];
    runs = λ f. let one : 1 + f ≡ suc f = omega arith in rw (one, append-nil s.str) refl;
    is_settled = refl;
  }

  -- A turn that writes `w`, on the fuel `k` besides that of the loop.
  Expands-turn :
      (st : Stream) (b : Bool) (s s1 : Spaced) (tk : Token) (ts w : List Token) (k : ℕ)
      → s1.str ≡ s.str ++ w
      → settled env false w ≡ true
      → ((f : ℕ)
          → turn env (subst_loop env (k + f)) (k + f) b st s false tk ts
            ≡ subst_loop env (k + f) b st s1 false (some ts))
      → Expands st b s1 ts
      → Expands st b s (tk ∷ ts)
  unfolding subst_loop
  Expands-turn st b s s1 tk ts w k e set way next = record {
    fuel = suc (k + next.fuel);
    out = w ++ next.out;
    runs = λ f.
        let first : suc (k + next.fuel) + f ≡ suc (k + (next.fuel + f)) = omega arith in
        let swap : k + (next.fuel + f) ≡ next.fuel + (k + f) = omega arith in
        let joined : s1.str ++ next.out ≡ s.str ++ (w ++ next.out) =
          rw e (append_assoc s.str w next.out) in
        rw first (way (next.fuel + f) ∙ rw swap (rw (← joined) (next.runs (k + f))));
    is_settled = settled-append env false w next.out set next.is_settled;
  }

  module _ (st : Stream) (b : Bool) (s : Spaced) (tk : Token) (ts : List Token)
      (raw : (tk.t == tok_nosubst) ≡ false) where
    -- add_spaced writes the token, or does not, where it is a second space.
    Expands-copy :
        define_find env tk.t ≡ none
        → ((s1 : Spaced) → Expands st b s1 ts)
        → Expands st b s (tk ∷ ts)
    Expands-copy d rest =
        let s1 = add_spaced s tk in
        let way = λ (f : ℕ). turn-copy env (subst_loop env (0 + f)) (0 + f) b st s tk ts raw d in
        elim (add_spaced-cases s tk) [
          | inl e ↦ Expands-turn st b s s1 tk ts [] 0 e (unfold settled in refl) way (rest s1)
          | inr e ↦ Expands-turn st b s s1 tk ts (tk ∷ []) 0 e (settled-keep tk raw d) way (rest s1)
        ]

    Expands-nested :
        (m : Macro)
        → define_find env tk.t ≡ some m
        → one_of tk.t st.nested ≡ true
        → ((s1 : Spaced) → Expands st b s1 ts)
        → Expands st b s (tk ∷ ts)
    Expands-nested m d n rest =
        let s1 = add_spaced (nosubst env s) tk in
        Expands-turn st b s s1 tk ts (plain_token tok_nosubst ∷ tk ∷ []) 0
          (add_spaced-name (nosubst env s) tk (define_find-from env tk.t m d)
            ∙ append_assoc s.str (plain_token tok_nosubst ∷ []) (tk ∷ []))
          (settled-marked tk)
          (λ f. turn-nested env (subst_loop env (0 + f)) (0 + f) b st s tk ts m raw d n) (rest s1)

    Expands-macro :
        (m : Macro)
        → env.keep_spaces ≡ false
        → define_find env tk.t ≡ some m
        → one_of tk.t st.nested ≡ false
        → special env tk.t ≡ none
        → m.is_func ≡ false
        → has_twosharps m.d ≡ false
        → Expands
            (inside env (subst_loop env 0) 0 b st s tk ts)
            b
            (record { str = s.str; spc = false })
            m.d
        → ((s1 : Spaced) → Expands st b s1 ts)
        → Expands st b s (tk ∷ ts)
    Expands-macro m k d n sp fn sh body rest =
        let s1 : Spaced = record s { str = s.str ++ body.out } in
        Expands-turn st b s s1 tk ts body.out body.fuel refl body.is_settled
          (λ f.
            turn-macro env (subst_loop env (body.fuel + f)) (body.fuel + f) b st s tk ts m
              (s.str ++ body.out) k raw d n sp fn sh (body.runs f))
          (rest s1)

    Expands-special :
        (m : Macro) (tk1 : Token)
        → env.keep_spaces ≡ false
        → define_find env tk.t ≡ some m
        → one_of tk.t st.nested ≡ false
        → special env tk.t ≡ some tk1
        → ((s1 : Spaced) → Expands st b s1 ts)
        → Expands st b s (tk ∷ ts)
    Expands-special m tk1 k d n sp rest =
        let s1 : Spaced = record s { str = s.str ++ tk1 ∷ [] } in
        let (small, unmarked) = special-small env tk.t tk1 sp in
        Expands-turn st b s s1 tk ts (tk1 ∷ []) 0 refl
          (settled-keep tk1 unmarked (define_find-small env tk1.t small))
          (λ f. turn-special env (subst_loop env (0 + f)) (0 + f) b st s tk ts m tk1 k raw d n sp)
          (rest s1)

  Expands-token :
      (st : Stream) (b : Bool) (s : Spaced) (tk : Token) (ts : List Token)
      → env.keep_spaces ≡ false
      → AllObjects env
      → (tk.t == tok_nosubst) ≡ false
      → ((m : Macro)
          → define_find env tk.t ≡ some m
          → one_of tk.t st.nested ≡ false
          → Expands
              (inside env (subst_loop env 0) 0 b st s tk ts)
              b
              (record { str = s.str; spc = false })
              m.d)
      → ((s1 : Spaced) → Expands st b s1 ts)
      → Expands st b s (tk ∷ ts)
  Expands-token st b s tk ts k objects raw body rest = elim (Option-cases (define_find env tk.t)) [
    | inl d ↦ Expands-copy st b s tk ts raw d rest
    | inr (m, d) ↦ elim (Bool-cases (one_of tk.t st.nested)) [
      | inl n ↦ Expands-nested st b s tk ts raw m d n rest
      | inr n ↦ elim (Option-cases (special env tk.t)) [
        | inr (tk1, sp) ↦ Expands-special st b s tk ts raw m tk1 k d n sp rest
        | inl sp ↦
            let (object, raw_d) = objects tk.t m d in
            Expands-macro st b s tk ts raw m k d n sp object (is_raw-twosharps m.d raw_d)
              (body m d n) rest
      ]
    ]
  ]

  module _ (k : env.keep_spaces ≡ false) (objects : AllObjects env) where
    -- Strings are expanded in which fewer than `n` names may be, if it is so for the strings that
    -- they lead to.
    Expands-string :
        (n : ℕ)
        → ((st : Stream) (b : Bool) (s : Spaced) (ptr : List Token)
            → is_raw ptr ≡ true
            → unused st.nested env.tok_ident < n
            → Expands st b s ptr)
        → (ptr : List Token) (st : Stream) (b : Bool) (s : Spaced) → is_raw ptr ≡ true
        → unused st.nested env.tok_ident < suc n
        → Expands st b s ptr
    Expands-string n deeper [] st b s raw lt = Expands-end st b s
    Expands-string n deeper (tk ∷ ts) st b s raw lt =
        let (unmarked, raw_ts) = is_raw-head tk ts raw in
        Expands-token st b s tk ts k objects unmarked
          (λ m d free.
            let fewer =
              unused-cons tk.t st.nested env.tok_ident (define_find-below env tk.t m d) free in
            deeper (inside env (subst_loop env 0) 0 b st s tk ts) b
              (record { str = s.str; spc = false }) m.d (objects tk.t m d).1 (omega arith))
          (λ s1. Expands-string n deeper ts st b s1 raw_ts lt)

    Expands-all :
        (n : ℕ) (st : Stream) (b : Bool) (s : Spaced) (ptr : List Token)
        → is_raw ptr ≡ true
        → unused st.nested env.tok_ident < n
        → Expands st b s ptr
    Expands-all zero st b s ptr raw lt = absurd (omega arith)
    Expands-all (suc n) st b s ptr raw lt = Expands-string n (Expands-all n) ptr st b s raw lt

    -- Where no macro has parameters, no string of the table or of the input holds `##` or a mark, and
    -- spaces are not kept, macro_subst ends: with enough fuel it writes, behind what was written
    -- before, a string in which every name of a macro is marked, and leaves the stream as it was.
    pub macro_subst-settled :
        (b : Bool) (st : Stream) (str ts : List Token) → is_raw ts ≡ true → Settles env b st str ts
    unfolding macro_subst macro_twosharps
    macro_subst-settled b st str ts raw =
        let s : Spaced = record { str = str; spc = false } in
        let e = Expands-all (suc (unused st.nested env.tok_ident)) st b s ts raw (omega arith) in
        (e.fuel, e.out, λ f. rw (is_raw-twosharps ts raw) (e.runs f), e.is_settled)
