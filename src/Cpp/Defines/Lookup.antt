-- ===== src/Cpp/Defines/Lookup.antt =====
-- What a name stands for after a macro was pushed, undefined or freed.
use inherpreter.Prelude.{
  ℕ, ◌<◌, ◌≡◌, refl, sym, ◌∙◌, inl, inr, true, false, Option, none, some, List, ◌∷◌, arith, ◌==◌,
  if◌then◌else◌, ==_refl, Bool-cases, Option-cases,
}
use inherpreter.Cpp.Macros.{Macro}
use inherpreter.Cpp.Defines.{
  DefineSym, Defines, is_name, deref, push_sym, define_push, pointer, define_find_sym, free_from,
  free_defines,
}
use inherpreter.Cpp.Defines.Bindings.{Descending, IsSound, deref-below}

-- A name whose pointer leads to no symbol that was freed.
pointer-bound :
    (s : Defines) (u id : ℕ) → IsSound s → pointer s u ≡ some id → s.sym_define u ≡ some id
pointer-bound s u id h p = elim (Bool-cases (is_name s u)) [
  | inl b ↦ rw b at p
  | inr b ↦ let no : none ≡ some id = rw b at p in absurd (cc)
]

-- Behind a push, the symbols that were there are found as before.
found-push_sym :
    (s : Defines) (v u id : ℕ) (m : Macro)
    → IsSound s
    → pointer s u ≡ some id
    → deref (push_sym s v m).define_stack id ≡ deref s.define_stack id
unfolding deref
found-push_sym s v u id m h p =
    let (e, d, same, name) = h.bound u id (pointer-bound s u id h p) in
    let lt = deref-below s.next_id s.define_stack id e h.descending d in
    let other : (s.next_id == id) ≡ false = ground arith in rw other refl

abbrev look : List DefineSym → Option ℕ → Option DefineSym
look es none = none
look es (some id) = deref es id

found : (s : Defines) (u : ℕ) → define_find_sym s u ≡ look s.define_stack (pointer s u)
unfolding define_find_sym
found s u =
    elim (pointer s u)
      as (λ o.
        elim o as (λ x. Option DefineSym) [ none ↦ none | some id ↦ deref s.define_stack id ]
        ≡ look s.define_stack o) [ none ↦ refl | some id ↦ refl ]

-- In a table without dangling names, a macro that is pushed is what its name stands for, whatever it
-- stood for before, and the other names stand for what they did.
pub define_find_sym-define_push :
    (s : Defines) (v u : ℕ) (m : Macro)
    → IsSound s
    → is_name s v ≡ true
    → define_find_sym (define_push s v m) u
      ≡ (if u == v then some (record { id = s.next_id; v = v; macro = m }) else define_find_sym s u)
unfolding define_push deref
define_find_sym-define_push s v u m h named =
    let t = define_push s v m in
    elim (Bool-cases (u == v)) [
      | inl b ↦
          let same : u ≡ v = ground arith in
          let bound : pointer t u ≡ some s.next_id = rw (same, named, ==_refl v) refl in
          found t u ∙ rw (bound, b, ==_refl s.next_id) refl
      | inr b ↦
          let kept : pointer t u ≡ pointer s u = rw b refl in
          let there : look t.define_stack (pointer s u) ≡ look s.define_stack (pointer s u) =
            elim (Option-cases (pointer s u)) [
              | inl p ↦ rw p refl
              | inr (id, p) ↦ rw p (found-push_sym s v u id m h p)
            ] in
          found t u ∙ rw (kept, b) (there ∙ sym (found s u))
    ]

-- Freeing the table down to where it was before a macro was pushed does not bring back what the
-- macro's name stood for then: the name stands for nothing. Other names stand for what they did.
pub free_defines-define_push :
    (s : Defines) (e : DefineSym) (es : List DefineSym) (v u : ℕ) (m : Macro)
    → IsSound s
    → s.define_stack ≡ e ∷ es
    → is_name s v ≡ true
    → define_find_sym (free_defines (define_push s v m) (some e.id)) u
      ≡ (if u == v then none else define_find_sym s u)
unfolding define_push free_defines free_from
free_defines-define_push s e es v u m h top named =
    let t = free_defines (define_push s v m) (some e.id) in
    let lt : e.id < s.next_id =
      (let d : Descending s.next_id (e ∷ es) = rw top at h.descending in d.0) in
    let other : (e.id == s.next_id) ≡ false = ground arith in
    let stack : t.define_stack ≡ s.define_stack = rw (other, top, ==_refl e.id) refl in
    let names : pointer t u ≡ (if u == v then none else pointer s u) = elim (Bool-cases (u == v)) [
      | inl b ↦
          let same : u ≡ v = ground arith in
          rw (other, top, ==_refl e.id, same, named, ==_refl v) refl
      | inr b ↦ rw (other, top, ==_refl e.id, named, b) refl
    ] in
    let there : look s.define_stack (if u == v then none else pointer s u)
        ≡ (if u == v then none else define_find_sym s u) =
      elim (Bool-cases (u == v)) [ inl b ↦ rw b refl | inr b ↦ rw b (sym (found s u)) ] in
    found t u ∙ rw (stack, names) there
