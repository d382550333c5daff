-- ===== src/Tests/Scopes.antt =====
-- A block in which a name is declared again.
use inherpreter.Prelude.{ℕ, ◌≡◌, refl, none, some, arith, ◌==◌, if◌then◌else◌, update}
use inherpreter.Gen.Scope.{
  sym_field_flag, Sym, Scopes, on_local, redefines, sym_push2, open_scope, sym_push, sym_pop,
}
use inherpreter.Gen.Scope.Closing.{opened, marked, declared, IsSane, sym_pop-Opened}
use inherpreter.Gen.Scope.Redefinition.{IsFalling}

abbrev no_sym : Sym
no_sym = record { v = 0; type_t = 0; type_ref = 0; r = 0; c = 0; prev = 0; prev_tok = 0 }

-- The identifier 300 is bound to symbol 1, which is in the scope of the function's body.
abbrev body : Scopes
body = record {
  heap = λ i. if i == 1 then record no_sym { v = 300 } else no_sym;
  next_sym = 2;
  local_stack = 1;
  global_stack = 0;
  scope_stack_bottom = 0;
  sym_identifier = λ k. if k == 300 then 1 else 0;
  sym_struct = λ k. 0;
  tok_ident = 400;
}

body-IsSane : IsSane body
body-IsSane = omega arith

-- 300 is not declared twice in one block, and a block inside it hides it.
refused : sym_push body 300 3 0 0x32 8 ≡ none
unfolding sym_push sym_push2 redefines
refused = refl

abbrev block : Scopes
block = record body {
  heap = update body.heap 2 (record no_sym { v = sym_field_flag; prev = 1 });
  next_sym = 3;
  local_stack = 2;
  scope_stack_bottom = 2;
}

body-block : open_scope body ≡ some block
unfolding open_scope sym_push2 redefines
body-block = refl

hidden : (q : Scopes × ℕ) × (sym_push block 300 3 0 0x32 8 ≡ some q)
unfolding sym_push sym_push2 redefines
hidden = (_, refl)

hidden_run : hidden.0.0.sym_identifier 300 ≡ 3
unfolding hidden
hidden_run = refl

sym_pop-Opened_example :
    let r = sym_pop hidden.0.0 on_local 1 in
    (r.local_stack ≡ 1)
    × ((k : ℕ) → r.sym_identifier k ≡ body.sym_identifier k)
    × ((k : ℕ) → r.sym_struct k ≡ 0)
sym_pop-Opened_example =
    sym_pop-Opened body hidden.0.0 body-IsSane
      (declared 300 3 0 0x32 8 hidden.0 (marked block opened body-block) (omega arith) hidden.1)

body-IsFalling : IsFalling body
body-IsFalling i pos lt = ground arith
