-- ===== src/Cpp/Defines.antt =====
-- The stack of macros and the names that they are bound to (tccpp.c: define_push, define_undef,
-- define_find (define_find_sym), free_defines, and the parameters that parse_define pushes). A pointer to a symbol is
-- its number in the order of allocation; the warning for a different redefinition is left out.

pub mod Bindings
pub mod Lookup
pub mod Body
pub mod Tidy
use inherpreter.Prelude.{
  ℕ, ◌+◌, Bool, false, ◌&&◌, Option, none, some, List, [], ◌∷◌, map, ltb, leb, ◌==◌, if◌then◌else◌,
}
use inherpreter.Cpp.Idents.{tok_ident_base}
use inherpreter.Cpp.Macros.{Macro}
use inherpreter.Gen.Scope.{sym_field_flag}

-- A symbol of define_stack: its number, and its fields `v`, and `type.t`, `d` and `next`.
pub record DefineSym : Type 0 where
  pub id : ℕ
  pub v : ℕ
  pub macro : Macro

-- The stack with its top first, the number of the next symbol, the field `sym_define` of each name,
-- and the end of the names' tokens.
pub record Defines : Type 0 where
  pub define_stack : List DefineSym
  pub next_id : ℕ
  pub sym_define : ℕ → Option ℕ
  pub tok_ident : ℕ

abbrev pub is_name : Defines → ℕ → Bool
is_name s v = leb tok_ident_base v && ltb v s.tok_ident

-- The symbol that a pointer leads to, if it is on the stack.
unfoldable pub deref : List DefineSym → (id : ℕ) → Option DefineSym
deref [] id = none
deref (e ∷ es) id = if e.id == id then some e else deref es id

-- `sym_push2(&define_stack, ...)`
abbrev pub push_sym : Defines → (v : ℕ) → Macro → Defines
push_sym s v m = record s {
  define_stack = record { id = s.next_id; v = v; macro = m } ∷ s.define_stack;
  next_id = s.next_id + 1;
}

abbrev pub no_macro : Macro
no_macro = record { is_func = false; d = []; params = [] }

-- The parameters of a macro have SYM_FIELD in their `v`, and no tokens.
unfoldable pub push_param : Defines → (v : ℕ) → Defines
push_param s v = push_sym s (v + sym_field_flag) no_macro

unfoldable pub define_push : Defines → (v : ℕ) → Macro → Defines
define_push s v m = record (push_sym s v m) {
  sym_define = λ u. if u == v then some s.next_id else s.sym_define u;
}

abbrev pub pointer : Defines → (v : ℕ) → Option ℕ
pointer s v = if is_name s v then s.sym_define v else none

-- The macro that a name is bound to; `none` also for a pointer to a symbol that was freed.
unfoldable pub define_find_sym : Defines → (v : ℕ) → Option DefineSym
unfolding deref
define_find_sym s v = elim (pointer s v) [ none ↦ none | some id ↦ deref s.define_stack id ]

abbrev pub unbound : Defines → (v : ℕ) → Defines
unbound s v = record s {
  sym_define = λ u. if is_name s v && (u == v) then none else s.sym_define u;
}

abbrev pub cleared : (id : ℕ) → DefineSym → DefineSym
cleared id e = if e.id == id then record e { v = 0 } else e

-- define_undef for the symbol `e`.
unfoldable pub define_undef : Defines → DefineSym → Defines
define_undef s e = record (unbound s e.v) { define_stack = map (cleared e.id) s.define_stack }

abbrev pub is_symbol : Option ℕ → ℕ → Bool
is_symbol none id = false
is_symbol (some b) id = b == id

-- free_defines down to the symbol `b`, or to the bottom; over the symbols that are left.
unfoldable pub free_from : List DefineSym → (b : Option ℕ) → Defines → Defines
free_from [] b s = record s { define_stack = [] }
free_from (e ∷ es) b s =
    let freed = free_from es b (unbound s e.v) in
    if is_symbol b e.id then record s { define_stack = e ∷ es } else freed

unfoldable pub free_defines : Defines → (b : Option ℕ) → Defines
unfolding free_from
free_defines s b = free_from s.define_stack b s
