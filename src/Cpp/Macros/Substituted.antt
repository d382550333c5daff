-- ===== src/Cpp/Macros/Substituted.antt =====
-- What the body of a macro becomes where it has neither `#` nor `##`.
use inherpreter.Prelude.{
  ℕ, ◌≡◌, refl, inl, inr, Bool, true, false, not, ◌&&◌, none, some, List, [], ◌∷◌, ◌++◌,
  append_assoc, append-nil, ◌==◌, Bool-cases, Option-cases,
}
use inherpreter.Cpp.Macros.{Token, tok_twosharps, Env, Result, ok}
use inherpreter.Cpp.Macros.Expanding.{Stream, expand_arg, macro_subst}
use inherpreter.Cpp.Macros.Arguments.{Arg, named, macro_arg_subst}

-- Neither operator.
abbrev pub is_plain : List Token → Bool
is_plain [] = true
is_plain (tk ∷ ts) = not (tk.t == b'#') && not (tk.t == tok_twosharps) && is_plain ts

-- Each name of a parameter becomes the expansion of its argument.
unfoldable pub substituted :
    (expansion : List Token → List Token) → List Arg → List Token → List Token
substituted expansion args [] = []
substituted expansion args (tk ∷ ts) =
    (elim (named args tk.t) [ none ↦ tk ∷ [] | some a ↦ expansion a.d ])
    ++ substituted expansion args ts

-- Each argument whose parameter is in the body has its expansion.
abbrev pub HaveExpansions :
    (expand : List Token → List Token → Result (List Token))
    → (expansion : List Token → List Token) → List Arg
    → (body : List Token) → Type 0
HaveExpansions expand expansion args [] = Unit
HaveExpansions expand expansion args (tk ∷ ts) =
    ((a : Arg)
      → named args tk.t ≡ some a
      → (str : List Token) → expand str a.d ≡ ok (str ++ expansion a.d))
    × HaveExpansions expand expansion args ts

module _ (env : Env) (expand : List Token → List Token → Result (List Token))
    (expansion : List Token → List Token) where
  plain-head :
      (tk : Token) (ts : List Token)
      → is_plain (tk ∷ ts) ≡ true
      → ((tk.t == b'#') ≡ false) × ((tk.t == tok_twosharps) ≡ false) × (is_plain ts ≡ true)
  plain-head tk ts h = elim (Bool-cases (tk.t == b'#')) [
    | inl e ↦ let no : false ≡ true = rw e at h in absurd (cc)
    | inr e ↦ elim (Bool-cases (tk.t == tok_twosharps)) [
      | inl e1 ↦ let no : false ≡ true = rw (e, e1) at h in absurd (cc)
      | inr e1 ↦ (e, e1, rw (e, e1) at h)
    ]
  ]

  substituted_lem :
      (args : List Arg) (last_tok : ℕ) (str body : List Token)
      → (last_tok == tok_twosharps) ≡ false
      → is_plain body ≡ true
      → HaveExpansions expand expansion args body
      → macro_arg_subst env expand args last_tok str body
        ≡ ok (str ++ substituted expansion args body)
  unfolding macro_arg_subst substituted
  substituted_lem args last_tok str [] l h x = rw (append-nil str) refl
  substituted_lem args last_tok str (tk ∷ []) l h (x, xs) =
      let (no_hash, no_paste, h1) = plain-head tk [] h in
      elim (Option-cases (named args tk.t)) [
        | inl e ↦ rw (no_hash, e) refl
        | inr (a, e) ↦ rw (no_hash, e, l, x a e str, append-nil (expansion a.d)) refl
      ]
  substituted_lem args last_tok str (tk ∷ next ∷ ts) l h (x, xs) =
      let (no_hash, no_paste, h1) = plain-head tk (next ∷ ts) h in
      let (no_hash1, no_paste1, h2) = plain-head next ts h1 in
      elim (Option-cases (named args tk.t)) [
        | inl e ↦
            rw (no_hash, e, ← append_assoc str (tk ∷ []) (substituted expansion args (next ∷ ts)))
              (substituted_lem args tk.t (str ++ tk ∷ []) (next ∷ ts) no_paste h1 xs)
        | inr (a, e) ↦
            rw
              (
                no_hash,
                e,
                l,
                no_paste1,
                x a e str,
                ← append_assoc str (expansion a.d) (substituted expansion args (next ∷ ts)),
              )
              (substituted_lem args tk.t (str ++ expansion a.d) (next ∷ ts) no_paste h1 xs)
      ]

-- The body is written with each parameter replaced by the expansion of its argument, all at once, if
-- it has neither `#` nor `##`. The expansion of an argument that is used is the one that macro_subst
-- writes behind any string, with the fuel and in the stream of the call.
pub macro_arg_subst-substituted :
    (env : Env) (f : ℕ) (st : Stream) (expansion : List Token → List Token) (args : List Arg)
    (str body : List Token)
    → is_plain body ≡ true
    → HaveExpansions (expand_arg (macro_subst env f) st) expansion args body
    → macro_arg_subst env (expand_arg (macro_subst env f) st) args 0 str body
      ≡ ok (str ++ substituted expansion args body)
macro_arg_subst-substituted env f st expansion args str body h x =
    substituted_lem env (expand_arg (macro_subst env f) st) expansion args 0 str body refl h x
