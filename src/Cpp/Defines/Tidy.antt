-- ===== src/Cpp/Defines/Tidy.antt =====
-- The spaces in the tokens of a macro.
use inherpreter.Prelude.{ℕ, ◌≡◌, refl, ap, ◌∙◌, true, false, List, [], ◌∷◌, arith, ◌==◌}
use inherpreter.Cpp.Macros.{Token, tok_twosharps, is_space}
use inherpreter.Cpp.Defines.Body.{
  b_hash, parse_body, Before, start, hash, word, is_tidy, line, ink, Gap, free, closed, held, flush,
  after_space, written, an_end, a_paste, a_hash, a_space, a_word, Sort-of, parse_body-written,
}

-- Where a string stands that is written behind a gap; a space that was kept back is one.
data Agrees : Gap → Before → Type 0 where
  at_word : Agrees free word
  at_space : (sp : Token) → is_space sp.t ≡ true → Agrees (held sp) word
  at_start : Agrees closed start
  at_hash : Agrees closed hash

Agrees-after_space :
    (g : Gap) (b : Before) (tk : Token)
    → is_space tk.t ≡ true
    → Agrees g b
    → Agrees (after_space g tk) b
unfolding after_space
Agrees-after_space g b tk e at_word = at_space tk e
Agrees-after_space g b tk e (at_space sp1 h) = at_space sp1 h
Agrees-after_space g b tk e at_start = at_start
Agrees-after_space g b tk e at_hash = at_hash

is_tidy-end : (g : Gap) (b : Before) → Agrees g b → is_tidy b [] ≡ true
unfolding is_tidy
is_tidy-end g b at_word = refl
is_tidy-end g b (at_space sp h) = refl
is_tidy-end g b at_start = refl
is_tidy-end g b at_hash = refl

is_tidy-paste :
    (g : Gap) (b : Before) (tk : Token) (ts : List Token)
    → Agrees g b
    → (tk.t == tok_twosharps) ≡ true
    → is_tidy b (tk ∷ ts) ≡ is_tidy hash ts
unfolding is_tidy
is_tidy-paste g b tk ts at_word e = rw e refl
is_tidy-paste g b tk ts (at_space sp h) e = rw e refl
is_tidy-paste g b tk ts at_start e = rw e refl
is_tidy-paste g b tk ts at_hash e = rw e refl

space_other : (t : ℕ) → is_space t ≡ true → ((t == tok_twosharps) ≡ false) × ((t == b_hash) ≡ false)
space_other t e = (ground arith, ground arith)

is_tidy-hash :
    (g : Gap) (b : Before) (tk : Token) (ts : List Token)
    → Agrees g b
    → (tk.t == tok_twosharps) ≡ false
    → (tk.t == b_hash) ≡ true
    → is_tidy b (flush g (tk ∷ ts)) ≡ is_tidy hash ts
unfolding is_tidy flush
is_tidy-hash g b tk ts at_word e f = rw (e, f) refl
is_tidy-hash g b tk ts (at_space sp h) e f =
    let (p, q) = space_other sp.t h in rw (p, q, h, e, f) refl
is_tidy-hash g b tk ts at_start e f = rw (e, f) refl
is_tidy-hash g b tk ts at_hash e f = rw (e, f) refl

is_tidy-word :
    (g : Gap) (b : Before) (tk : Token) (ts : List Token)
    → Agrees g b
    → (tk.t == tok_twosharps) ≡ false
    → (tk.t == b_hash) ≡ false
    → is_space tk.t ≡ false
    → is_tidy b (flush g (tk ∷ ts)) ≡ is_tidy word ts
unfolding is_tidy flush
is_tidy-word g b tk ts at_word e f s = rw (e, f, s) refl
is_tidy-word g b tk ts (at_space sp h) e f s =
    let (p, q) = space_other sp.t h in rw (p, q, h, e, f, s) refl
is_tidy-word g b tk ts at_start e f s = rw (e, f, s) refl
is_tidy-word g b tk ts at_hash e f s = rw (e, f, s) refl

written-tidy :
    (g : Gap) (b : Before) (ts : List Token) → Agrees g b → is_tidy b (written g ts) ≡ true
unfolding written
written-tidy g b [] h = is_tidy-end g b h
written-tidy g b (tk ∷ ts) h = elim (Sort-of tk.t) [
  | an_end e ↦ rw e (is_tidy-end g b h)
  | a_paste e p s ↦
      rw (e, p, is_tidy-paste g b tk (written closed ts) h p) (written-tidy closed hash ts at_hash)
  | a_hash e p f s ↦
      rw (e, p, f, is_tidy-hash g b tk (written closed ts) h p f)
        (written-tidy closed hash ts at_hash)
  | a_space e p f s ↦
      rw (e, p, f, s) (written-tidy (after_space g tk) b ts (Agrees-after_space g b tk s h))
  | a_word e p f s ↦
      rw (e, p, f, s, is_tidy-word g b tk (written free ts) h p f s)
        (written-tidy free word ts at_word)
]

ink-flush : (g : Gap) (b : Before) (ts : List Token) → Agrees g b → ink (flush g ts) ≡ ink ts
unfolding ink flush
ink-flush g b ts at_word = refl
ink-flush g b ts (at_space sp h) = rw h refl
ink-flush g b ts at_start = refl
ink-flush g b ts at_hash = refl

ink_cons : (tk : Token) (ts : List Token) → is_space tk.t ≡ false → ink (tk ∷ ts) ≡ tk ∷ ink ts
unfolding ink
ink_cons tk ts s = rw s refl

ink-written :
    (g : Gap) (b : Before) (ts : List Token) → Agrees g b → ink (written g ts) ≡ ink (line ts)
unfolding written ink line
ink-written g b [] h = refl
ink-written g b (tk ∷ ts) h = elim (Sort-of tk.t) [
  | an_end e ↦ rw e refl
  | a_paste e p s ↦ rw (e, p, s) (ap (λ l. tk ∷ l) (ink-written closed hash ts at_hash))
  | a_hash e p f s ↦
      rw (e, p, f, ink-flush g b (tk ∷ written closed ts) h, s)
        (ap (λ l. tk ∷ l) (ink-written closed hash ts at_hash))
  | a_space e p f s ↦
      rw (e, p, f, s) (ink-written (after_space g tk) b ts (Agrees-after_space g b tk s h))
  | a_word e p f s ↦
      rw (e, p, f, s, ink-flush g b (tk ∷ written free ts) h)
        (ink_cons tk (written free ts) s ∙ ap (λ l. tk ∷ l) (ink-written free word ts at_word))
]

-- The tokens of a #define that are stored for the macro have no space at the start, behind `#`, around
-- `##`, behind another space, or at the end; the others are those of the line, in their order.
pub parse_body-tidy :
    (ts : List Token)
    → (is_tidy start (parse_body [] 2 ts) ≡ true) × (ink (parse_body [] 2 ts) ≡ ink (line ts))
parse_body-tidy ts =
    let e = parse_body-written closed [] ts in
    (rw e (written-tidy closed start ts at_start), rw e (ink-written closed start ts at_start))
