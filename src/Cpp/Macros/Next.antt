-- ===== src/Cpp/Macros/Next.antt =====
-- The tokens that the parser is given (tccpp.c: next).
use inherpreter.Prelude.{ℕ, zero, suc, true, Option, none, some, List, [], ◌==◌, if◌then◌else◌}
use inherpreter.Cpp.Macros.{
  Token, tok_nosubst, minus_one, Env, define_find, Result, ok, out_of_fuel, ◌>>=◌, Input, Cursor,
  read_token, next_nomacro_spc, read_nonspace, next_nomacro,
}
use inherpreter.Cpp.Macros.Expanding.{Stream, macro_subst_tok, macro_subst}

-- What the parser reads from: the string that `macro_ptr` points into, and the file.
pub record Reader : Type 0 where
  pub pending : Option (List Token)
  pub source : List Token

module _ (env : Env) where
  unfoldable pub read_next : Input → Cursor
  unfolding read_token read_nonspace
  read_next i = if env.keep_spaces then next_nomacro_spc i else next_nomacro i

  abbrev pub at_file : List Token → Stream
  at_file file = record { macro_ptr = none; file = file; levels = []; nested = [] }

  -- next, each turn of its loop on fuel, with PARSE_FLAG_PREPROCESS, without PARSE_FLAG_TOK_NUM, and
  -- with no token pushed back: the token, and what follows it.
  unfoldable pub next : ℕ → Reader → Result (Token × Reader)
  unfolding define_find macro_subst_tok macro_subst read_next
  next zero r = out_of_fuel
  next (suc f) r = elim r.pending [
    | none ↦
        let c = read_next (record { ended_by = minus_one; rest = r.source }) in
        let found : Token × Reader = (c.tok, record { pending = none; source = c.input.rest }) in
        elim (define_find env c.tok.t) [
          | none ↦ ok found
          | some m ↦
              macro_subst_tok env f (macro_subst env f) true (at_file c.input.rest) [] c.tok.t m
              >>= λ (done, (st, str)).
                  let again = next f (record { pending = some str; source = st.file }) in
                  if done then again else ok (c.tok, record { pending = none; source = st.file })
        ]
    | some p ↦
        let c = read_next (record { ended_by = 0; rest = p }) in
        let again = next f (record { pending = some c.input.rest; source = r.source }) in
        let ended = next f (record { pending = none; source = r.source }) in
        if c.tok.t == 0
        then ended
        else if c.tok.t == tok_nosubst
        then again
        else ok (c.tok, record { pending = some c.input.rest; source = r.source })
  ]
