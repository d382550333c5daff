-- ===== src/Cpp/Macros/Reading.antt =====
-- next, which gives the parser its tokens, on strings and on the file.
use inherpreter.Prelude.{
  ℕ, zero, suc, ◌+◌, ◌≤◌, ◌<◌, ◌≡◌, refl, sym, ◌∙◌, ◌⊎◌, inl, inr, Bool, true, false, ◌||◌, Option,
  none, some, List, [], ◌∷◌, arith, ltb, ◌==◌, Bool-cases, Option-cases, length, set,
}
use inherpreter.Cpp.Tokens.{tok_linenum}
use inherpreter.Cpp.Macros.{
  Token, tok_nosubst, minus_one, is_space, Macro, Env, define_find, ok, Input, Cursor,
  read_nonspace, next_nomacro,
}
use inherpreter.Cpp.Macros.Next.{Reader, read_next, at_file, next}
use inherpreter.Cpp.Macros.Expanding.{Stream, special, macro_subst_tok, macro_subst}
use inherpreter.Cpp.Macros.Settled.{is_raw, is_raw-head, AllObjects}
use inherpreter.Cpp.Macros.Complete.{macro_subst-settled}

-- What read_nonspace leaves of a string: its end is met, or fewer tokens follow.
Reads : (e : ℕ) → List Token → Cursor → Type 0
Reads e ts c = (c.tok.t ≡ e) ⊎ (length c.input.rest < length ts)

read_nonspace-Reads : (e : ℕ) (ts : List Token) → Reads e ts (read_nonspace e ts)
unfolding Reads read_nonspace
read_nonspace-Reads e [] = inl refl
read_nonspace-Reads e (tk ∷ ts) = elim (Bool-cases (tk.t == tok_linenum || is_space tk.t)) [
  | inl b ↦ elim (read_nonspace-Reads e ts) [
    | inl h ↦ inl (rw b h)
    | inr h ↦ inr (rw b (omega arith))
  ]
  | inr b ↦ inr (rw b (omega arith))
]

shorter_behind :
    (n : ℕ) (p : List Token)
    → ((read_nonspace 0 p).tok.t == 0) ≡ false
    → length p < suc n
    → length (read_nonspace 0 p).input.rest < n
unfolding Reads
shorter_behind n p e lt = elim (read_nonspace-Reads 0 p) [
  | inl ended ↦ let no : true ≡ false = rw ended at e in absurd (cc)
  | inr shorter ↦ omega arith
]

-- No mark is read from a raw string, and what is left of it is raw.
RawCursor : Cursor → Type 0
RawCursor c = ((c.tok.t == tok_nosubst) ≡ false) × (is_raw c.input.rest ≡ true)

read_nonspace-RawCursor :
    (e : ℕ) (ts : List Token)
    → (e == tok_nosubst) ≡ false
    → is_raw ts ≡ true
    → RawCursor (read_nonspace e ts)
unfolding RawCursor read_nonspace
read_nonspace-RawCursor e [] h raw = (h, refl)
read_nonspace-RawCursor e (tk ∷ ts) h raw =
    let (unmarked, raw_ts) = is_raw-head tk ts raw in
    elim (Bool-cases (tk.t == tok_linenum || is_space tk.t)) [
      | inl b ↦ rw b (read_nonspace-RawCursor e ts h raw_ts)
      | inr b ↦ rw b (unmarked, raw_ts)
    ]

module _ (env : Env) where
  read_next_lem : env.keep_spaces ≡ false → (i : Input) → read_next env i ≡ next_nomacro i
  unfolding read_next
  read_next_lem k i = rw k refl

  -- With enough fuel `next` gives a token, which is no mark, and what is left of the file is raw.
  pub record Returns (r : Reader) : Type 0 where
    pub fuel : ℕ
    pub tok : Token
    pub after : Reader
    pub runs : (f : ℕ) → next env (fuel + f) r ≡ ok (tok, after)
    pub unmarked : (tok.t == tok_nosubst) ≡ false
    pub raw : is_raw after.source ≡ true

  abbrev in_file : List Token → Reader
  in_file ts = record { pending = none; source = ts }

  abbrev in_string : List Token → List Token → Reader
  in_string p ts = record { pending = some p; source = ts }

  -- A string is read to its end, and then the file.
  Returns-string :
      (n : ℕ) (p source : List Token)
      → env.keep_spaces ≡ false
      → length p < n
      → is_raw source ≡ true
      → Returns (in_file source)
      → Returns (in_string p source)
  unfolding next
  Returns-string zero p source k lt raw file = absurd (omega arith)
  Returns-string (suc n) p source k lt raw file =
      let c = read_nonspace 0 p in
      elim (Bool-cases (c.tok.t == 0)) [
        | inl e ↦ record {
          fuel = suc file.fuel;
          tok = file.tok;
          after = file.after;
          runs = λ f.
              let first : suc file.fuel + f ≡ suc (file.fuel + f) = omega arith in
              rw (first, read_next_lem k _, e) (file.runs f);
          unmarked = file.unmarked;
          raw = file.raw;
        }
        | inr e ↦ elim (Bool-cases (c.tok.t == tok_nosubst)) [
          | inr e1 ↦ record {
            fuel = 1;
            tok = c.tok;
            after = in_string c.input.rest source;
            runs = λ f.
                let first : 1 + f ≡ suc f = omega arith in
                rw (first, read_next_lem k _, e, e1) refl;
            unmarked = e1;
            raw = raw;
          }
          | inl e1 ↦
              let shorter : length c.input.rest < n = shorter_behind n p e lt in
              let later = Returns-string n c.input.rest source k shorter raw file in
              record {
                fuel = suc later.fuel;
                tok = later.tok;
                after = later.after;
                runs = λ f.
                    let first : suc later.fuel + f ≡ suc (later.fuel + f) = omega arith in
                    rw (first, read_next_lem k _, e, e1) (later.runs f);
                unmarked = later.unmarked;
                raw = later.raw;
              }
        ]
      ]

  macro_subst_tok-object :
      (f : ℕ) (b : Bool) (st : Stream) (str : List Token) (tok : ℕ) (m : Macro) (str1 : List Token)
      → special env tok ≡ none
      → m.is_func ≡ false
      → macro_subst env f b (record st { nested = tok ∷ st.nested }) str m.d
        ≡ ok (record st { nested = tok ∷ st.nested }, str1)
      → macro_subst_tok env f (macro_subst env f) b st str tok m ≡ ok (true, (st, str1))
  unfolding macro_subst_tok
  macro_subst_tok-object f b st str tok m str1 sp fn run = rw (macro_subst_tok, sp, fn, run) refl

  -- What a macro of the file is expanded to.
  abbrev WrittenBy : (tok : ℕ) (m : Macro) → List Token → Type 0
  WrittenBy tok m source =
      (fuel : ℕ) × (out : List Token) × ((f : ℕ)
        → macro_subst_tok env (fuel + f) (macro_subst env (fuel + f)) true (at_file env source) []
            tok m
          ≡ ok (true, (at_file env source, out)))

  define_find-end : env.tok_ident ≤ minus_one → define_find env minus_one ≡ none
  unfolding define_find
  define_find-end le = let no : ltb minus_one env.tok_ident ≡ false = ground arith in rw no refl

  shorter_file :
      (n : ℕ) (source : List Token) (m : Macro)
      → env.tok_ident ≤ minus_one
      → define_find env (read_nonspace minus_one source).tok.t ≡ some m
      → length source < suc n
      → length (read_nonspace minus_one source).input.rest < n
  unfolding Reads
  shorter_file n source m le d lt = elim (read_nonspace-Reads minus_one source) [
    | inl ended ↦ let no : none ≡ some m = sym (define_find-end le) ∙ (rw ended at d) in absurd (cc)
    | inr shorter ↦ omega arith
  ]

  module _ (le : env.tok_ident ≤ minus_one) (k : env.keep_spaces ≡ false)
      (objects : AllObjects env) where
    written_by :
        (tok : ℕ) (m : Macro) (source : List Token)
        → define_find env tok ≡ some m
        → WrittenBy tok m source
    written_by tok m source d = elim (Option-cases (special env tok)) [
      | inr (tk, sp) ↦ (0, tk ∷ [], λ f. unfold macro_subst_tok in rw (macro_subst_tok, sp) refl)
      | inl sp ↦
          let (object, raw) = objects tok m d in
          let (fuel, out, runs, set) =
            macro_subst-settled env k objects true
              (record (at_file env source) { nested = tok ∷ [] }) [] m.d raw in
          (
            fuel,
            out,
            λ f.
                macro_subst_tok-object (fuel + f) true (at_file env source) [] tok m out sp object
                  (runs f),
          )
    ]

    Returns-file :
        (n : ℕ) (source : List Token)
        → length source < n
        → is_raw source ≡ true
        → Returns (in_file source)
    unfolding next Reads RawCursor
    Returns-file zero source lt raw = absurd (omega arith)
    Returns-file (suc n) source lt raw =
        let c = read_nonspace minus_one source in
        let (unmarked, raw_rest) = read_nonspace-RawCursor minus_one source refl raw in
        let i : Input = record { ended_by = minus_one; rest = source } in
        let here = read_next_lem k i in
        let found_none = λ (d : define_find env c.tok.t ≡ none).
          let e : define_find env (read_next env i).tok.t ≡ none = rw here d in e in
        elim (Option-cases (define_find env c.tok.t)) [
          | inl d ↦ record {
            fuel = 1;
            tok = c.tok;
            after = in_file c.input.rest;
            runs = λ f.
                let first : 1 + f ≡ suc f = omega arith in
                rw (first, next, found_none d, here) refl;
            unmarked = unmarked;
            raw = raw_rest;
          }
          | inr (m, d) ↦
              let found : define_find env (read_next env i).tok.t ≡ some m = rw here d in
              let shorter = shorter_file n source m le d lt in
              let file = Returns-file n c.input.rest shorter raw_rest in
              let (fuel, out, writes) = written_by c.tok.t m c.input.rest d in
              let later =
                Returns-string (suc (length out)) out c.input.rest k (omega arith) raw_rest file in
              record {
                fuel = suc (fuel + later.fuel);
                tok = later.tok;
                after = later.after;
                runs = λ f.
                    let first : suc (fuel + later.fuel) + f ≡ suc (fuel + (later.fuel + f)) =
                      omega arith in
                    let swap : fuel + (later.fuel + f) ≡ later.fuel + (fuel + f) = omega arith in
                    let wrote = writes (later.fuel + f) in
                    rw (first, next, found, here, wrote) (rw swap (later.runs (fuel + f)));
                unmarked = later.unmarked;
                raw = later.raw;
              }
        ]

    Returns-from :
        (pending : Option (List Token)) (source : List Token)
        → is_raw source ≡ true
        → Returns (record { pending = pending; source = source })
    Returns-from none source raw = Returns-file (suc (length source)) source (omega arith) raw
    Returns-from (some p) source raw =
        Returns-string (suc (length p)) p source k (omega arith) raw
          (Returns-file (suc (length source)) source (omega arith) raw)

    -- Where no macro has parameters, no string of the table or of the file holds `##` or a mark, the
    -- names are below -1, and spaces are not kept, `next` returns with enough fuel, in the file or in
    -- any string that is pending: it gives a token that is no mark, and leaves a file of that kind.
    pub next-Returns : (r : Reader) → is_raw r.source ≡ true → Returns r
    next-Returns r raw = Returns-from r.pending r.source raw
