-- ===== src/Cpp/Macros/Pasting.antt =====
-- The operator `##` (tccpp.c: macro_twosharps).
use inherpreter.Prelude.{
  Bool, true, false, ◌||◌, Option, none, some, List, [], ◌∷◌, ◌++◌, ◌==◌, if◌then◌else◌,
}
use inherpreter.Cpp.Macros.{Token, plain_token, tok_twosharps, tok_nosubst, minus_one, Env}

abbrev pub has_twosharps : List Token → Bool
has_twosharps [] = false
has_twosharps (tk ∷ ts) = tk.t == tok_twosharps || has_twosharps ts

-- What the lexer leaves of the pasted text: the last token, and the ones before it, which are
-- written with a warning.
unfoldable pub all_but_last : List Token → List Token × Token
all_but_last [] = ([], plain_token minus_one)
all_but_last (x ∷ []) = ([], x)
all_but_last (x ∷ y ∷ xs) = let (written, last) = all_but_last (y ∷ xs) in (x ∷ written, last)

abbrev mark_or : Option (List Token) → List Token → List Token
mark_or none str = str
mark_or (some before) str = before

-- `start_of_nosubsts`, as the string up to there, when `tk` is read.
abbrev marked : Token → Option (List Token) → List Token → Option (List Token)
marked tk (some before) str = some before
marked tk none str = if tk.t == tok_nosubst then some str else none

abbrev kept : Token → Option (List Token) → Option (List Token)
kept tk mark = if tk.t == tok_nosubst then mark else none

module _ (env : Env) where
  abbrev pasted : Token → Token → List Token × Token
  pasted a b = all_but_last (env.lex (env.get_tok_str a ++ env.get_tok_str b))

  -- The second loop of macro_twosharps, with `tok` read, and `ptr` behind it, or behind a `##` that
  -- follows it.
  unfoldable pub paste_from :
      (mark : Option (List Token))
      → (str : List Token) → (tok : Token) → (behind : Bool) → (ptr : List Token) → List Token
  unfolding all_but_last
  paste_from mark str tok behind [] = str ++ tok ∷ []
  paste_from mark str tok true (tk ∷ ptr) =
      let (written, last) = pasted tok tk in
      let skipped = paste_from mark str tok true ptr in
      let joined = paste_from mark (str ++ written) last false ptr in
      if tk.t == tok_nosubst || tk.t == tok_twosharps then skipped else joined
  paste_from mark str tok false (tk ∷ ptr) =
      let sharps = paste_from mark (mark_or mark str) tok true ptr in
      let str1 = str ++ tok ∷ [] in
      let next = paste_from (marked tk (kept tok mark) str1) str1 tk false ptr in
      if tk.t == tok_twosharps then sharps else next

  unfoldable pub paste : List Token → List Token
  unfolding paste_from
  paste [] = []
  paste (tk ∷ ptr) =
      let later = paste ptr in
      if tk.t == tok_twosharps then later else paste_from (marked tk none []) [] tk false ptr

  -- The string that macro_subst works on: the one without `##` itself.
  unfoldable pub macro_twosharps : List Token → List Token
  unfolding paste
  macro_twosharps macro_str = if has_twosharps macro_str then paste macro_str else macro_str
