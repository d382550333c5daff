-- ===== src/Cpp/Pack/Scoped.antt =====
-- Pragmas in which each push has its pop, and the alignment that they leave.
use inherpreter.Prelude.{
  ℕ, zero, suc, ◌+◌, ◌-◌, ◌<◌, ◌≡◌, refl, sym, ap, ◌∙◌, subst, false, List, [], ◌∷◌, ◌++◌,
  append_assoc, append-nil, arith, leb, ◌==◌, ==_refl,
}
use inherpreter.Cpp.Pack.{
  pack_stack_size, Pack, current, Pragma, pop, reset, value, push, ok, is_invalid, set_current,
  pragma_parse, parse_all,
}

pub data Pragmas : Type 0 where
  done : Pragmas
  default : Pragmas → Pragmas
  align : ℕ → Pragmas → Pragmas
  scope : ℕ → (inner rest : Pragmas) → Pragmas

unfoldable pub emit : Pragmas → List Pragma
emit done = []
emit (default ps) = reset ∷ emit ps
emit (align n ps) = value n ∷ emit ps
emit (scope n inner rest) = push n ∷ (emit inner ++ (pop ∷ emit rest))

-- The alignment behind the pragmas, where it was `n` before them: that of a scope ends with it.
unfoldable pub alignment : (n : ℕ) → Pragmas → ℕ
alignment n done = n
alignment n (default ps) = alignment 0 ps
alignment n (align m ps) = alignment m ps
alignment n (scope m inner rest) = alignment n rest

-- The alignments are powers of two up to 16, and scopes are nested in no more than `room`.
abbrev pub Fits : (room : ℕ) → Pragmas → Type 0
Fits room done = Unit
Fits room (default ps) = Fits room ps
Fits room (align n ps) = (is_invalid n ≡ false) × Fits room ps
Fits zero (scope n inner rest) = ⊥
Fits (suc room) (scope n inner rest) =
    (is_invalid n ≡ false) × Fits room inner × Fits (suc room) rest

-- The level of the stack is as before, and so are the levels below it.
pub record Leaves (s : Pack) (ps : List Pragma) (rest : List Pragma) (n : ℕ) : Type 0 where
  pub after : Pack
  pub runs : parse_all (ps ++ rest) s ≡ parse_all rest after
  pub level : after.pack_stack_ptr ≡ s.pack_stack_ptr
  pub holds : current after ≡ n
  pub below : (i : ℕ) → i < s.pack_stack_ptr → after.pack_stack i ≡ s.pack_stack i

parse_all-step :
    (s s1 : Pack) (p : Pragma) (ps : List Pragma)
    → pragma_parse s p ≡ ok s1
    → parse_all (p ∷ ps) s ≡ parse_all ps s1
unfolding parse_all
parse_all-step s s1 p ps way = rw (parse_all, way) refl

Leaves-step :
    (s s1 : Pack) (p : Pragma) (ps rest : List Pragma) (n : ℕ)
    → pragma_parse s p ≡ ok s1
    → s1.pack_stack_ptr ≡ s.pack_stack_ptr
    → ((i : ℕ) → i < s.pack_stack_ptr → s1.pack_stack i ≡ s.pack_stack i)
    → Leaves s1 ps rest n
    → Leaves s (p ∷ ps) rest n
Leaves-step s s1 p ps rest n way same kept l = record {
  after = l.after;
  runs = parse_all-step s s1 p (ps ++ rest) way ∙ l.runs;
  level = l.level ∙ same;
  holds = l.holds;
  below = λ i lt. l.below i (rw same lt) ∙ kept i lt;
}

set_current-below :
    (s : Pack) (n i : ℕ) → i < s.pack_stack_ptr → (set_current s n).pack_stack i ≡ s.pack_stack i
set_current-below s n i lt =
    let other : (s.pack_stack_ptr == i) ≡ false = ground arith in rw other refl

set_current-holds : (s : Pack) (n : ℕ) → current (set_current s n) ≡ n
set_current-holds s n = rw (==_refl s.pack_stack_ptr) refl

abbrev deeper : Pack → Pack
deeper s = record s { pack_stack_ptr = s.pack_stack_ptr + 1 }

abbrev pushed : Pack → ℕ → Pack
pushed s n = set_current (deeper s) n

abbrev popped : Pack → Pack
popped s = record s { pack_stack_ptr = s.pack_stack_ptr - 1 }

push_lem :
    (s : Pack) (n : ℕ)
    → is_invalid n ≡ false
    → s.pack_stack_ptr + 1 < pack_stack_size
    → pragma_parse s (push n) ≡ ok (pushed s n)
unfolding pragma_parse
push_lem s n valid lt =
    let room : leb (pack_stack_size - 1) s.pack_stack_ptr ≡ false = ground arith in
    rw (room, valid) refl

pop_lem : (s : Pack) → 0 < s.pack_stack_ptr → pragma_parse s pop ≡ ok (popped s)
unfolding pragma_parse
pop_lem s lt = let some_ : (s.pack_stack_ptr == 0) ≡ false = ground arith in rw some_ refl

-- A scope, from what its inside and what follows it leave.
Leaves-scope :
    (s : Pack) (n m : ℕ) (inner ps rest : List Pragma)
    → is_invalid n ≡ false
    → s.pack_stack_ptr + 1 < pack_stack_size
    → (l : Leaves (pushed s n) inner (pop ∷ (ps ++ rest)) m) → (k : ℕ)
    → Leaves (popped l.after) ps rest k
    → Leaves s (push n ∷ (inner ++ (pop ∷ ps))) rest k
Leaves-scope s n m inner ps rest valid lt l k next =
    let up : (popped l.after).pack_stack_ptr ≡ s.pack_stack_ptr = omega (arith, l.level) in
    record {
      after = next.after;
      runs =
          parse_all-step s (pushed s n) (push n) ((inner ++ (pop ∷ ps)) ++ rest)
            (push_lem s n valid lt)
          ∙ rw (append_assoc inner (pop ∷ ps) rest) l.runs
          ∙ parse_all-step l.after (popped l.after) pop (ps ++ rest)
              (pop_lem l.after (omega (arith, l.level)))
          ∙ next.runs;
      level = next.level ∙ up;
      holds = next.holds;
      below = λ i i_lt.
          next.below i (omega (arith, up))
          ∙ l.below i (omega arith)
          ∙ set_current-below (deeper s) n i (omega arith);
    }

Leaves-emit :
    (ps : Pragmas) (room : ℕ) (s : Pack) (rest : List Pragma)
    → Fits room ps
    → s.pack_stack_ptr + room < pack_stack_size
    → Leaves s (emit ps) rest (alignment (current s) ps)
unfolding emit alignment pragma_parse
Leaves-emit done room s rest h lt = record {
  after = s;
  runs = refl;
  level = refl;
  holds = refl;
  below = λ i lt1. refl;
}
Leaves-emit (default ps) room s rest h lt =
    let s1 = set_current s 0 in
    let l = Leaves-emit ps room s1 rest h lt in
    Leaves-step s s1 reset (emit ps) rest (alignment 0 ps) refl refl (set_current-below s 0)
      (subst (λ (m : ℕ). Leaves s1 (emit ps) rest (alignment m ps)) (set_current-holds s 0) l)
Leaves-emit (align n ps) room s rest (valid, h) lt =
    let s1 = set_current s n in
    let l = Leaves-emit ps room s1 rest h lt in
    Leaves-step s s1 (value n) (emit ps) rest (alignment n ps) (rw valid refl) refl
      (set_current-below s n)
      (subst (λ (m : ℕ). Leaves s1 (emit ps) rest (alignment m ps)) (set_current-holds s n) l)
Leaves-emit (scope n inner rest_) zero s rest h lt = elim h [ ]
Leaves-emit (scope n inner rest_) (suc room) s rest (valid, h, h1) lt =
    let l = Leaves-emit inner room (pushed s n) (pop ∷ (emit rest_ ++ rest)) h (omega arith) in
    let up : (popped l.after).pack_stack_ptr ≡ s.pack_stack_ptr = omega (arith, l.level) in
    let same : current (popped l.after) ≡ current s =
      ap (popped l.after).pack_stack up
      ∙ l.below s.pack_stack_ptr (omega arith)
      ∙ set_current-below (deeper s) n s.pack_stack_ptr (omega arith) in
    let next = Leaves-emit rest_ (suc room) (popped l.after) rest h1 (omega (arith, up)) in
    Leaves-scope s n (alignment (current (pushed s n)) inner) (emit inner) (emit rest_) rest valid
      (omega arith) l (alignment (current s) rest_)
      (subst (λ (m : ℕ). Leaves (popped l.after) (emit rest_) rest (alignment m rest_)) same next)

-- Where each push has its pop, the alignments are powers of two up to 16, and the scopes fit in the
-- stack, reading the pragmas succeeds: the alignment behind them is that of the scope they stand in,
-- and the level and those below it are as before.
pub parse_all-emit :
    (ps : Pragmas) (room : ℕ) (s : Pack)
    → Fits room ps
    → s.pack_stack_ptr + room < pack_stack_size
    → (after : Pack) × (parse_all (emit ps) s ≡ ok after)
      × (after.pack_stack_ptr ≡ s.pack_stack_ptr)
      × (current after ≡ alignment (current s) ps)
      × ((i : ℕ) → i < s.pack_stack_ptr → after.pack_stack i ≡ s.pack_stack i)
unfolding parse_all
parse_all-emit ps room s h lt =
    let l = Leaves-emit ps room s [] h lt in
    let runs : parse_all (emit ps) s ≡ ok l.after =
      ap (λ (k : List Pragma). parse_all k s) (sym (append-nil (emit ps))) ∙ l.runs in
    (l.after, runs, l.level, l.holds, l.below)
