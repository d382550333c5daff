-- ===== src/Gen/Scope.antt =====
-- The stacks of symbols and the names they bind (tccgen.c: sym_push2, sym_find2, struct_find,
-- sym_find, sym_push, sym_pop, block). A pointer to a symbol is its number in the order of allocation, and
-- 0 is NULL; sym_malloc returns a symbol that is not in use, here always a new one.
pub mod Unbinding
pub mod Entering
pub mod Closing
pub mod Redefinition
use inherpreter.Prelude.{
  ℕ, zero, suc, ◌+◌, ◌-◌, ◌/◌, ◌%◌, sym, Bool, true, false, not, ◌&&◌, ◌||◌, Option, none, some,
  ltb, leb, ◌==◌, if◌then◌else◌, update,
}
use inherpreter.Cpp.Idents.{tok_ident_base, sym_first_anom}

abbrev pub sym_struct_flag : ℕ
sym_struct_flag = 0x4000_0000

abbrev pub sym_field_flag : ℕ
sym_field_flag = 0x2000_0000

-- `v & SYM_FIELD`, `v & SYM_STRUCT` and `v & ~SYM_STRUCT`; `v` is not negative.
abbrev pub is_field : ℕ → Bool
is_field v = v / sym_field_flag % 2 == 1

abbrev pub is_struct : ℕ → Bool
is_struct v = v / sym_struct_flag % 2 == 1

abbrev pub without_struct : ℕ → ℕ
without_struct v = if is_struct v then v - sym_struct_flag else v

-- The test for a symbol that is neither a field nor anonymous.
abbrev pub is_named : ℕ → Bool
is_named v = not (is_field v) && ltb (without_struct v) sym_first_anom

-- `type_t` and `type_ref` are the fields of `type`.
pub record Sym : Type 0 where
  pub v : ℕ
  pub type_t : ℕ
  pub type_ref : ℕ
  pub r : ℕ
  pub c : ℕ
  pub prev : ℕ
  pub prev_tok : ℕ

-- The symbols, the number of the next one, the stacks, and the fields `sym_identifier` and
-- `sym_struct` of the names, which are given by their tokens.
pub record Scopes : Type 0 where
  pub heap : ℕ → Sym
  pub next_sym : ℕ
  pub local_stack : ℕ
  pub global_stack : ℕ
  pub scope_stack_bottom : ℕ
  pub sym_identifier : ℕ → ℕ
  pub sym_struct : ℕ → ℕ
  pub tok_ident : ℕ

-- `&local_stack` or `&global_stack`
pub data Stack : Type 0 where
  on_local on_global : Stack

abbrev pub top : Stack → Scopes → ℕ
top on_local s = s.local_stack
top on_global s = s.global_stack

abbrev pub set_top : Stack → ℕ → Scopes → Scopes
set_top on_local i s = record s { local_stack = i }
set_top on_global i s = record s { global_stack = i }

-- Whether the walk of sym_push2 meets `v` before the bottom of the scope, on fuel.
unfoldable pub redefines : ℕ → Scopes → (v i : ℕ) → Bool
redefines zero s v i = false
redefines (suc fuel) s v i =
    let rest = redefines fuel s v (s.heap i).prev in
    if i == 0 || i == s.scope_stack_bottom
    then false
    else if is_named v && ((s.heap i).v == v)
    then true
    else rest

abbrev pub is_local : Stack → Bool
is_local on_local = true
is_local on_global = false

-- The new symbol is on the stack, and its number is returned. `none` is the error "incompatible
-- types for redefinition".
unfoldable pub sym_push2 : Scopes → Stack → (v t c : ℕ) → Option (Scopes × ℕ)
unfolding redefines
sym_push2 s ps v t c =
    if is_local ps && redefines s.local_stack s v s.local_stack
    then none
    else let i = s.next_sym in
      let sym : Sym = record {
        v = v;
        type_t = t;
        type_ref = 0;
        r = 0;
        c = c;
        prev = top ps s;
        prev_tok = 0;
      } in
      some (set_top ps i (record s { heap = update s.heap i sym; next_sym = i + 1 }), i)

-- What a block and a `for` begin with: the mark, which is the new bottom of the scope. Its field
-- `next`, which leads back to the old bottom, is left out.
unfoldable pub open_scope : Scopes → Option Scopes
unfolding sym_push2
open_scope s = elim (sym_push2 s on_local sym_field_flag 0 0) [
  | none ↦ none
  | some (t, frame_bottom) ↦ some (record t { scope_stack_bottom = frame_bottom })
]

-- The topmost symbol `v` of a stack, on fuel; 0 if there is none.
unfoldable pub sym_find2 : ℕ → Scopes → (i v : ℕ) → ℕ
sym_find2 zero s i v = 0
sym_find2 (suc fuel) s i v =
    let rest = sym_find2 fuel s (s.heap i).prev v in
    if i == 0 then 0 else if (s.heap i).v == v then i else rest

-- The names' tokens are from TOK_IDENT up to `tok_ident`.
abbrev pub is_token : Scopes → ℕ → Bool
is_token s v = leb tok_ident_base v && ltb v s.tok_ident

unfoldable pub struct_find : Scopes → (v : ℕ) → ℕ
struct_find s v = if is_token s v then s.sym_struct v else 0

unfoldable pub sym_find : Scopes → (v : ℕ) → ℕ
sym_find s v = if is_token s v then s.sym_identifier v else 0

-- What the names' fields hold.
abbrev pub bound : Bool → Scopes → ℕ → ℕ
bound true s = s.sym_struct
bound false s = s.sym_identifier

abbrev pub set_bound : Bool → (ℕ → ℕ) → Scopes → Scopes
set_bound true f s = record s { sym_struct = f }
set_bound false f s = record s { sym_identifier = f }

-- `s->prev_tok = *ps; *ps = s;`
abbrev pub bind : Scopes → (v i : ℕ) → Scopes
bind s v i =
    let tok = without_struct v in
    let old = bound (is_struct v) s in
    let sym = record (s.heap i) { prev_tok = old tok } in
    set_bound (is_struct v) (update old tok i) (record s { heap = update s.heap i sym })

-- `s->type.ref = type->ref; s->r = r;`
abbrev pub set_type : Scopes → (i type_ref r : ℕ) → Scopes
set_type s i type_ref r = record s {
  heap = update s.heap i (record (s.heap i) { type_ref = type_ref; r = r });
}

abbrev pushed : (v type_ref r : ℕ) → Option (Scopes × ℕ) → Option (Scopes × ℕ)
pushed v type_ref r none = none
pushed v type_ref r (some (s, i)) =
    let s1 = set_type s i type_ref r in some (if is_named v then bind s1 v i else s1, i)

unfoldable pub sym_push : Scopes → (v type_t type_ref r c : ℕ) → Option (Scopes × ℕ)
unfolding sym_push2
sym_push s v type_t type_ref r c =
    let ps = if s.local_stack == 0 then on_global else on_local in
    pushed v type_ref r (sym_push2 s ps v type_t c)

-- `*ps = s->prev_tok`, for a symbol that is bound to a name.
abbrev pub unbind : Scopes → (i : ℕ) → Scopes
unbind s i =
    let v = (s.heap i).v in
    let old = bound (is_struct v) s in
    if is_named v
    then set_bound (is_struct v) (update old (without_struct v) (s.heap i).prev_tok) s
    else s

-- The loop of sym_pop, on fuel, from the symbol `i` down to `b`.
unfoldable pub pop_until : ℕ → Scopes → (i b : ℕ) → Scopes
pop_until zero s i b = s
pop_until (suc fuel) s i b =
    let rest = pop_until fuel (unbind s i) (s.heap i).prev b in if i == b then s else rest

-- A stack's symbols have falling numbers, so the number of the top is enough fuel.
unfoldable pub sym_pop : Scopes → Stack → (b : ℕ) → Scopes
unfolding pop_until
sym_pop s ptop b = set_top ptop b (pop_until (top ptop s) s (top ptop s) b)
