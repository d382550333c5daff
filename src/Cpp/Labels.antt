-- ===== src/Cpp/Labels.antt =====
-- Labels and their stacks (tccpp.c: label_find, label_push). A pointer to a symbol is its number in
-- the order of allocation, and 0 is NULL.
use inherpreter.Prelude.{
  ℕ, zero, suc, ◌+◌, Bool, true, false, not, ◌&&◌, ltb, leb, ◌==◌, if◌then◌else◌, update,
}
use inherpreter.Cpp.Idents.{tok_ident_base}

pub record Label : Type 0 where
  pub v : ℕ
  pub r : ℕ
  pub jnext : ℕ
  pub prev : ℕ
  pub prev_tok : ℕ

-- The stacks are the assembler's, the functions' and those of blocks.
pub data LabelStack : Type 0 where
  asm_labels global_label_stack local_label_stack : LabelStack

-- `sym_label` is the field of the names' TokenSym.
pub record Labels : Type 0 where
  pub heap : ℕ → Label
  pub next_sym : ℕ
  pub top : LabelStack → ℕ
  pub sym_label : ℕ → ℕ

abbrev pub same_stack : LabelStack → LabelStack → Bool
same_stack asm_labels asm_labels = true
same_stack global_label_stack global_label_stack = true
same_stack local_label_stack local_label_stack = true
same_stack _ _ = false

unfoldable pub label_find : Labels → (tok_ident v : ℕ) → ℕ
label_find s tok_ident v = if leb tok_ident_base v && ltb v tok_ident then s.sym_label v else 0

-- The last symbol of a name's chain, on fuel.
unfoldable pub last_label : ℕ → (ℕ → Label) → ℕ → ℕ
last_label zero heap i = i
last_label (suc fuel) heap i =
    let rest = last_label fuel heap (heap i).prev_tok in if (heap i).prev_tok == 0 then i else rest

abbrev new_label : Labels → LabelStack → (v flags prev_tok : ℕ) → Labels
new_label s ptop v flags prev_tok = record s {
  heap =
      update s.heap s.next_sym
        (record { v = v; r = flags; jnext = 0; prev = s.top ptop; prev_tok = prev_tok });
  next_sym = s.next_sym + 1;
  top = λ p. if same_stack p ptop then s.next_sym else s.top p;
}

abbrev bind_label : Labels → (v i : ℕ) → Labels
bind_label s v i = record s { sym_label = update s.sym_label v i }

-- A label of a function goes behind the labels of blocks that have its name.
abbrev is_global_stack : LabelStack → Bool
is_global_stack ptop = same_stack ptop global_label_stack

-- `*ps = s`, for the field prev_tok of the symbol `last`.
abbrev behind_last : (last i : ℕ) → Labels → Labels
behind_last last i s = record s {
  heap = update s.heap last (record (s.heap last) { prev_tok = i });
}

-- The new symbol's number is `next_sym`. The chain of a name has at most that many symbols.
unfoldable pub label_push : Labels → LabelStack → (v flags : ℕ) → Labels × ℕ
unfolding last_label
label_push s ptop v flags =
    let i = s.next_sym in
    if is_global_stack ptop && not (s.sym_label v == 0)
    then (
      behind_last (last_label s.next_sym s.heap (s.sym_label v)) i (new_label s ptop v flags 0),
      i,
    )
    else (bind_label (new_label s ptop v flags (s.sym_label v)) v i, i)
