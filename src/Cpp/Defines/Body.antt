-- ===== src/Cpp/Defines/Body.antt =====
-- The tokens of a macro in #define (tccpp.c: parse_define).
use inherpreter.Prelude.{
  ℕ, ◌≡◌, refl, sym, ap, ◌∙◌, inl, inr, Bool, true, false, ◌||◌, List, [], ◌∷◌, ◌++◌, append_assoc,
  append-nil, arith, ◌==◌, if◌then◌else◌, Bool-cases,
}
use inherpreter.Cpp.Macros.{Token, tok_twosharps, tok_linefeed, minus_one, is_space, drop_last}

abbrev pub ends_line : ℕ → Bool
ends_line t = t == tok_linefeed || t == minus_one

abbrev pub b_hash : ℕ
b_hash = b'#'

abbrev finish : List Token → (spc : ℕ) → List Token
finish str spc = if spc == 1 then drop_last str else str

-- The loop of parse_define over the tokens that next_nomacro_spc gives; the list's end is TOK_EOF.
unfoldable pub parse_body : (str : List Token) → (spc : ℕ) → List Token → List Token
unfolding drop_last
parse_body str spc [] = finish str spc
parse_body str spc (tk ∷ ts) =
    let sharps = parse_body (finish str spc ++ tk ∷ []) 2 ts in
    let hash = parse_body (str ++ tk ∷ []) 2 ts in
    let space = parse_body (str ++ tk ∷ []) 1 ts in
    let skip = parse_body str spc ts in
    let word = parse_body (str ++ tk ∷ []) 0 ts in
    if ends_line tk.t
    then finish str spc
    else if tk.t == tok_twosharps
    then sharps
    else if tk.t == b_hash
    then hash
    else if is_space tk.t
    then if spc == 0 then space else skip
    else word

-- What stands before a token: nothing, `#` or `##`, a space, or another token.
pub data Before : Type 0 where
  start hash space word : Before

-- No space at the start, behind `#` or `##` or another space, before `##`, or at the end.
unfoldable pub is_tidy : Before → List Token → Bool
is_tidy space [] = false
is_tidy start [] = true
is_tidy hash [] = true
is_tidy word [] = true
is_tidy before (tk ∷ ts) =
    let behind_hash = is_tidy hash ts in
    let behind_space = is_tidy space ts in
    let behind_word = is_tidy word ts in
    if tk.t == tok_twosharps
    then elim before [
      | space ↦ false
      | start ↦ behind_hash
      | hash ↦ behind_hash
      | word ↦ behind_hash
    ]
    else if tk.t == b_hash
    then behind_hash
    else if is_space tk.t
    then elim before [ word ↦ behind_space | start ↦ false | hash ↦ false | space ↦ false ]
    else behind_word

-- The tokens up to the end of the line, and those of a string that are no spaces.
unfoldable pub line : List Token → List Token
line [] = []
line (tk ∷ ts) = let rest = line ts in if ends_line tk.t then [] else tk ∷ rest

unfoldable pub ink : List Token → List Token
ink [] = []
ink (tk ∷ ts) = let rest = ink ts in if is_space tk.t then rest else tk ∷ rest

-- What may stand between the tokens that are written and the next one: a space that comes is kept back
-- (`free`) or dropped (`closed`), and one that was kept back is written if it has to be.
pub data Gap : Type 0 where
  free closed : Gap
  held : Token → Gap

unfoldable pub flush : Gap → List Token → List Token
flush (held sp) ts = sp ∷ ts
flush free ts = ts
flush closed ts = ts

unfoldable pub after_space : Gap → Token → Gap
after_space free sp = held sp
after_space closed sp = closed
after_space (held sp1) sp = held sp1

-- The tokens that are still to be written.
unfoldable pub written : Gap → List Token → List Token
unfolding flush
written g [] = []
written g (tk ∷ ts) =
    let behind_hash = tk ∷ written closed ts in
    let behind_word = tk ∷ written free ts in
    let behind_space = written (after_space g tk) ts in
    if ends_line tk.t
    then []
    else if tk.t == tok_twosharps
    then behind_hash
    else if tk.t == b_hash
    then flush g behind_hash
    else if is_space tk.t
    then behind_space
    else flush g behind_word

-- The string and the `spc` of the code.
abbrev pub str_of : Gap → List Token → List Token
str_of (held sp) str = str ++ sp ∷ []
str_of free str = str
str_of closed str = str

abbrev pub spc_of : Gap → ℕ
spc_of (held sp) = 1
spc_of free = 0
spc_of closed = 2

drop_last-snoc : {A : Type 0} (xs : List A) (x : A) → drop_last (xs ++ x ∷ []) ≡ xs
unfolding drop_last
drop_last-snoc [] x = refl
drop_last-snoc (y ∷ []) x = refl
drop_last-snoc (y ∷ z ∷ xs) x = ap (λ l. y ∷ l) (drop_last-snoc (z ∷ xs) x)

-- The four kinds of tokens.
pub data Sort (t : ℕ) : Type 0 where
  an_end : ends_line t ≡ true → Sort t
  a_paste : ends_line t ≡ false → (t == tok_twosharps) ≡ true → is_space t ≡ false → Sort t
  a_hash :
      ends_line t ≡ false
      → (t == tok_twosharps) ≡ false
      → (t == b_hash) ≡ true
      → is_space t ≡ false
      → Sort t
  a_space :
      ends_line t ≡ false
      → (t == tok_twosharps) ≡ false
      → (t == b_hash) ≡ false
      → is_space t ≡ true
      → Sort t
  a_word :
      ends_line t ≡ false
      → (t == tok_twosharps) ≡ false
      → (t == b_hash) ≡ false
      → is_space t ≡ false
      → Sort t

pub Sort-of : (t : ℕ) → Sort t
Sort-of t = elim (Bool-cases (ends_line t)) [
  | inl e ↦ an_end e
  | inr e ↦ elim (Bool-cases (t == tok_twosharps)) [
    | inl p ↦ a_paste e p (let same : t ≡ tok_twosharps = ground arith in rw same refl)
    | inr p ↦ elim (Bool-cases (t == b_hash)) [
      | inl h ↦ a_hash e p h (let same : t ≡ b_hash = ground arith in rw same refl)
      | inr h ↦ elim (Bool-cases (is_space t)) [ inl s ↦ a_space e p h s | inr s ↦ a_word e p h s ]
    ]
  ]
]

finish_lem : (g : Gap) (str : List Token) → finish (str_of g str) (spc_of g) ≡ str
finish_lem free str = refl
finish_lem closed str = refl
finish_lem (held sp) str = drop_last-snoc str sp

str_of-flush :
    (g : Gap) (str : List Token) (tk : Token) (ts : List Token)
    → (str_of g str ++ tk ∷ []) ++ ts ≡ str ++ flush g (tk ∷ ts)
unfolding flush
str_of-flush free str tk ts = append_assoc str (tk ∷ []) ts
str_of-flush closed str tk ts = append_assoc str (tk ∷ []) ts
str_of-flush (held sp) str tk ts = simp append_assoc refl

behind_space :
    (g : Gap) (str : List Token) (tk : Token) (ts : List Token)
    → ((g1 : Gap) → parse_body (str_of g1 str) (spc_of g1) ts ≡ str ++ written g1 ts)
    → (if spc_of g == 0
        then parse_body (str_of g str ++ tk ∷ []) 1 ts
        else parse_body (str_of g str) (spc_of g) ts)
      ≡ str ++ written (after_space g tk) ts
unfolding after_space
behind_space free str tk ts ih = ih (held tk)
behind_space closed str tk ts ih = ih closed
behind_space (held sp) str tk ts ih = ih (held sp)

pub parse_body-written :
    (g : Gap) (str ts : List Token) → parse_body (str_of g str) (spc_of g) ts ≡ str ++ written g ts
unfolding parse_body written
parse_body-written g str [] = finish_lem g str ∙ sym (append-nil str)
parse_body-written g str (tk ∷ ts) = elim (Sort-of tk.t) [
  | an_end e ↦ rw (e, append-nil str) (finish_lem g str)
  | a_paste e p s ↦
      rw (e, p, finish_lem g str)
        (parse_body-written closed (str ++ tk ∷ []) ts
          ∙ append_assoc str (tk ∷ []) (written closed ts))
  | a_hash e p h s ↦
      rw (e, p, h)
        (parse_body-written closed (str_of g str ++ tk ∷ []) ts
          ∙ str_of-flush g str tk (written closed ts))
  | a_space e p h s ↦
      rw (e, p, h, s) (behind_space g str tk ts (λ g1. parse_body-written g1 str ts))
  | a_word e p h s ↦
      rw (e, p, h, s)
        (parse_body-written free (str_of g str ++ tk ∷ []) ts
          ∙ str_of-flush g str tk (written free ts))
]
