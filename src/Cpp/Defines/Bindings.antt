-- ===== src/Cpp/Defines/Bindings.antt =====
-- The symbols that names are bound to, through every change of the table.
use Prim.{tt}
use inherpreter.Prelude.{
  ℕ, ◌+◌, ◌≤◌, ◌<◌, ◌≡◌, refl, sym, ◌∙◌, subst, inl, inr, true, false, ◌&&◌, Option, none, some,
  List, [], ◌∷◌, map, arith, ◌==◌, ==_refl, Bool-cases, Option-cases, some_eq,
}
use inherpreter.Cpp.Macros.{Macro}
use inherpreter.Gen.Scope.{sym_field_flag}
use inherpreter.Cpp.Defines.{
  DefineSym, Defines, is_name, deref, push_sym, no_macro, push_param, define_push, pointer,
  define_find_sym, unbound, cleared, define_undef, is_symbol, free_from, free_defines,
}

-- What happens to the table, in any order: a macro's parameters and the macro are pushed, a macro that
-- was found is undefined, symbols are freed, and names are added.
pub data Step (s : Defines) : Defines → Type 0 where
  param : (v : ℕ) → Step s (push_param s v)
  define : (v : ℕ) (m : Macro) → is_name s v ≡ true → Step s (define_push s v m)
  undef : (v : ℕ) (e : DefineSym) → define_find_sym s v ≡ some e → Step s (define_undef s e)
  free : (b : Option ℕ) → Step s (free_defines s b)
  grow : (n : ℕ) → s.tok_ident ≤ n → Step s (record s { tok_ident = n })

pub data Reach (s : Defines) : Defines → Type 0 where
  here : Reach s s
  next : {t u : Defines} → Reach s t → Step t u → Reach s u

-- The symbols' numbers are below that of the next one, and each is above those under it.
abbrev pub Descending : (above : ℕ) → List DefineSym → Type 0
Descending above [] = Unit
Descending above (e ∷ es) = (e.id < above) × Descending e.id es

-- Every name that is bound is bound to a symbol of that name among `es`.
abbrev pub BoundIn : List DefineSym → Defines → Type 0
BoundIn es s =
    (v id : ℕ)
    → s.sym_define v ≡ some id
    → (e : DefineSym) × (deref es id ≡ some e) × (e.v ≡ v) × (is_name s v ≡ true)

pub record IsSound (s : Defines) : Type 0 where
  pub descending : Descending s.next_id s.define_stack
  pub bound : BoundIn s.define_stack s

Descending-le : (a b : ℕ) (es : List DefineSym) → a ≤ b → Descending a es → Descending b es
Descending-le a b [] le h = h
Descending-le a b (e ∷ es) le (lt, h) = (omega arith, h)

pub deref_id : (es : List DefineSym) (id : ℕ) (e : DefineSym) → deref es id ≡ some e → e.id ≡ id
unfolding deref
deref_id [] id e h = absurd (cc)
deref_id (x ∷ es) id e h = elim (Bool-cases (x.id == id)) [
  | inl b ↦ let same : x ≡ e = some_eq (rw b at h) in rw (← same) (ground arith)
  | inr b ↦ deref_id es id e (rw b at h)
]

pub deref-below :
    (above : ℕ) (es : List DefineSym) (id : ℕ) (e : DefineSym)
    → Descending above es
    → deref es id ≡ some e
    → id < above
unfolding deref
deref-below above [] id e d h = absurd (cc)
deref-below above (x ∷ es) id e (lt, d) h = elim (Bool-cases (x.id == id)) [
  | inl b ↦ ground arith
  | inr b ↦ let ih = deref-below x.id es id e d (rw b at h) in omega arith
]

push_sym-IsSound : (s : Defines) (v : ℕ) (m : Macro) → IsSound s → IsSound (push_sym s v m)
push_sym-IsSound s v m h = record {
  descending = (omega arith, h.descending);
  bound = λ u id p.
      let (e, d, same, name) = h.bound u id p in
      let lt = deref-below s.next_id s.define_stack id e h.descending d in
      let other : (s.next_id == id) ≡ false = ground arith in
      (e, unfold deref in rw other d, same, name);
}

define_push-IsSound :
    (s : Defines) (v : ℕ) (m : Macro) → is_name s v ≡ true → IsSound s → IsSound (define_push s v m)
unfolding define_push
define_push-IsSound s v m named h =
    let pushed = push_sym-IsSound s v m h in
    record {
      descending = pushed.descending;
      bound = λ u id p. elim (Bool-cases (u == v)) [
        | inl b ↦
            let same : u ≡ v = ground arith in
            let this : s.next_id ≡ id = some_eq (rw b at p) in
            (
              record { id = s.next_id; v = v; macro = m },
              unfold deref in rw (this, ==_refl id) refl,
              rw same refl,
              rw same named,
            )
        | inr b ↦ pushed.bound u id (rw b at p)
      ];
    }

found-on_stack :
    (s : Defines) (v : ℕ) (e : DefineSym)
    → define_find_sym s v ≡ some e
    → deref s.define_stack e.id ≡ some e
unfolding define_find_sym
found-on_stack s v e found = elim (Option-cases (pointer s v)) [
  | inl p ↦ let no : none ≡ some e = rw (define_find_sym, p) at found in absurd (cc)
  | inr (i, p) ↦
      let d : deref s.define_stack i ≡ some e = rw (define_find_sym, p) at found in
      let same : e.id ≡ i = deref_id s.define_stack i e d in
      subst (λ (x : ℕ). deref s.define_stack x ≡ some e) (sym same) d
]

-- Where the symbol that bears a name is taken, the name's test does not fail.
stale-absurd :
    (s : Defines) (u : ℕ) (e f : DefineSym)
    → e ≡ f
    → f.v ≡ u
    → is_name s u ≡ true
    → (is_name s e.v && (u == e.v)) ≡ false
    → ⊥
stale-absurd s u e f same named name b =
    let v_same : u ≡ e.v = rw same (sym named) in
    let yes_b : (is_name s e.v && (u == e.v)) ≡ true = rw (← v_same, name, ==_refl u) refl in
    let no : true ≡ false = sym yes_b ∙ b in cc

-- A symbol that is popped leaves no name bound to it.
BoundIn-pop :
    (e : DefineSym) (es : List DefineSym) (s : Defines)
    → BoundIn (e ∷ es) s
    → BoundIn es (unbound s e.v)
unfolding deref
BoundIn-pop e es s h u id p = elim (Bool-cases (is_name s e.v && (u == e.v))) [
  | inl b ↦ let no : none ≡ some id = rw b at p in absurd (cc)
  | inr b ↦
      let (f, d, same, name) = h u id (rw b at p) in
      elim (Bool-cases (e.id == id)) [
        | inl c ↦
            let popped : e ≡ f = some_eq (rw c at d) in
            absurd (stale-absurd s u e f popped same name b)
        | inr c ↦ (f, rw c at d, same, name)
      ]
]

free_from-IsSound :
    (es : List DefineSym) (b : Option ℕ) (s : Defines) (above : ℕ)
    → above ≤ s.next_id
    → Descending above es
    → BoundIn es s
    → IsSound (free_from es b s)
unfolding free_from
free_from-IsSound [] b s above le d h = record { descending = tt; bound = h }
free_from-IsSound (e ∷ es) b s above le (lt, d) h = elim (Bool-cases (is_symbol b e.id)) [
  | inl stop ↦ rw stop (record { descending = (omega arith, d); bound = h })
  | inr more ↦
      rw more (free_from-IsSound es b (unbound s e.v) e.id (omega arith) d (BoundIn-pop e es s h))
]

deref-cleared :
    (es : List DefineSym) (i id : ℕ) (e : DefineSym)
    → deref es id ≡ some e
    → (id == i) ≡ false
    → deref (map (cleared i) es) id ≡ some e
unfolding deref
deref-cleared [] i id e h other = absurd (cc)
deref-cleared (x ∷ es) i id e h other = elim (Bool-cases (x.id == id)) [
  | inl b ↦
      let same : x.id ≡ id = ground arith in
      let kept : (x.id == i) ≡ false = rw same other in rw (kept, b) (rw b at h)
  | inr b ↦
      let ih = deref-cleared es i id e (rw b at h) other in
      elim (Bool-cases (x.id == i)) [ inl c ↦ rw (c, b) ih | inr c ↦ rw (c, b) ih ]
]

Descending-cleared :
    (above i : ℕ) (es : List DefineSym)
    → Descending above es
    → Descending above (map (cleared i) es)
Descending-cleared above i [] h = tt
Descending-cleared above i (e ∷ es) (lt, h) =
    let ih = Descending-cleared e.id i es h in
    elim (Bool-cases (e.id == i)) [ inl b ↦ rw b (lt, ih) | inr b ↦ rw b (lt, ih) ]

define_undef-IsSound :
    (s : Defines) (v : ℕ) (e : DefineSym)
    → define_find_sym s v ≡ some e
    → IsSound s
    → IsSound (define_undef s e)
unfolding define_undef define_find_sym
define_undef-IsSound s v e found h = record {
  descending = Descending-cleared s.next_id e.id s.define_stack h.descending;
  bound = λ u id p. elim (Bool-cases (is_name s e.v && (u == e.v))) [
    | inl b ↦ let no : none ≡ some id = rw b at p in absurd (cc)
    | inr b ↦
        let (f, d, same, name) = h.bound u id (rw b at p) in
        elim (Bool-cases (id == e.id)) [
          | inl c ↦
              let at_id : id ≡ e.id = ground arith in
              let taken : e ≡ f = some_eq (sym (found-on_stack s v e found) ∙ rw at_id at d) in
              absurd (stale-absurd s u e f taken same name b)
          | inr c ↦ (f, deref-cleared s.define_stack e.id id f d c, same, name)
        ]
  ];
}

Step-IsSound : {s t : Defines} → Step s t → IsSound s → IsSound t
unfolding push_param free_defines
Step-IsSound {s} (param v) h = push_sym-IsSound s (v + sym_field_flag) no_macro h
Step-IsSound {s} (define v m named) h = define_push-IsSound s v m named h
Step-IsSound {s} (undef v e found) h = define_undef-IsSound s v e found h
Step-IsSound {s} (free b) h =
    free_from-IsSound s.define_stack b s s.next_id (omega arith) h.descending h.bound
Step-IsSound {s} (grow n le) h = record {
  descending = h.descending;
  bound = λ u id p. let (e, d, same, name) = h.bound u id p in (e, d, same, ground arith);
}

-- From a table in which no name is bound, whatever is pushed, undefined and freed in whatever order:
-- the numbers of the symbols on the stack descend, and a name is bound to a symbol of that name on
-- the stack, never to one that was freed.
pub Reach-IsSound :
    {s t : Defines}
    → s.define_stack ≡ []
    → ((v : ℕ) → s.sym_define v ≡ none)
    → Reach s t
    → IsSound t
Reach-IsSound {s} e unnamed here = record {
  descending = rw e tt;
  bound = λ u id p. let no : none ≡ some id = sym (unnamed u) ∙ p in absurd (cc);
}
Reach-IsSound e unnamed (next r st) = Step-IsSound st (Reach-IsSound e unnamed r)
