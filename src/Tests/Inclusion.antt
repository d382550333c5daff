-- ===== src/Tests/Inclusion.antt =====
-- Conditional inclusion.
use Prim.{tt}
use inherpreter.Prelude.{ℕ, ◌≡◌, refl, Bool, true, false, List, [], ◌∷◌, arith, ◌==◌}
use inherpreter.Cpp.Conditionals.{ok, Text, State, reading, read_lines}
use inherpreter.Cpp.Conditionals.Grammar.{
  on_defined, on_undefined, Items, done, tokens, defining, conditional, closed, otherwise, else_if,
  emit_items, eval_items, IsNested, OnNames,
}
use inherpreter.Cpp.Conditionals.Meaning.{read_lines-eval_items}
use inherpreter.Cpp.Conditionals.Guard.{
  IsStart, Records, read_lines_guarded, read_lines_guarded_elif,
}

-- An expression `defined v`.
abbrev first_is_defined : (defines : ℕ → Bool) → List ℕ → Bool
first_is_defined defines [] = false
first_is_defined defines (v ∷ e) = defines v

abbrev nothing_defined : Text
nothing_defined = record { defines = λ v. false; output = [] }

abbrev defined_1000 : Text
defined_1000 = record { defines = λ v. v == 1000; output = [] }

abbrev file_start : Text → State
file_start w = record {
  text_state = w;
  stack = [];
  floor = 0;
  ifndef_macro = 0;
  ifndef_macro_saved = 0;
  is_bof = true;
  at_endif = false;
}

-- #ifdef 1000 / 1 / #else / #ifndef 1001 / 2 / #endif / #endif / 4
abbrev two_ways : Items
two_ways =
    conditional (on_defined 1000) (tokens 1 done)
      (otherwise (conditional (on_undefined 1001) (tokens 2 done) closed done)) (tokens 4 done)

read_lines-eval_items_example :
    (st' : State) × (read_lines first_is_defined
        (file_start nothing_defined)
        reading
        (emit_items two_ways)
      ≡ ok st')
    × (st'.text_state ≡ record { defines = λ v. false; output = 2 ∷ 4 ∷ [] })
    × (st'.stack ≡ [])
unfolding eval_items
read_lines-eval_items_example =
    read_lines-eval_items first_is_defined two_ways 2 (file_start nothing_defined)
      (unfold OnNames in (tt, tt, (tt, tt, tt, tt), tt))
      (unfold IsNested in (omega arith, tt, (omega arith, tt, tt, tt), tt)) refl (omega arith)

file_start-IsStart : (w : Text) → IsStart (file_start w)
file_start-IsStart w = record { bof = refl; at_floor = refl }

read_lines_guarded_example :
    let file =
      emit_items (conditional (on_undefined 1000) (defining 1000 (tokens 1 done)) closed done) in
    Records
      (read_lines first_is_defined (file_start nothing_defined) reading file)
      1000
      (eval_items first_is_defined (defining 1000 (tokens 1 done)) nothing_defined)
    × ((st' : State) × (read_lines first_is_defined (file_start defined_1000) reading file ≡ ok st')
        × (st'.text_state ≡ defined_1000))
read_lines_guarded_example =
    read_lines_guarded first_is_defined 1000 (defining 1000 (tokens 1 done)) 0
      (file_start nothing_defined) (file_start defined_1000) (omega arith)
      (unfold IsNested in (omega arith, tt)) (file_start-IsStart nothing_defined) refl (omega arith)
      (file_start-IsStart defined_1000) refl (omega arith)

-- #ifndef 1000 / #define 1000 / #elif defined 1000 / 2 / #endif
read_lines_guarded_elif_example :
    let file = emit_items (
      conditional
        (on_undefined 1000)
        (defining 1000 done)
        (else_if (1000 ∷ []) (tokens 2 done) closed)
        done) in
    Records
      (read_lines first_is_defined (file_start nothing_defined) reading file)
      1000
      (eval_items first_is_defined (defining 1000 done) nothing_defined)
    × ((st' : State) × (read_lines first_is_defined (file_start defined_1000) reading file ≡ ok st')
        × (st'.text_state ≡ eval_items first_is_defined (tokens 2 done) defined_1000))
read_lines_guarded_elif_example =
    read_lines_guarded_elif first_is_defined 1000 (defining 1000 done) (tokens 2 done) (1000 ∷ []) 0
      (file_start nothing_defined) (file_start defined_1000) (omega arith)
      (unfold IsNested in (omega arith, tt)) (unfold IsNested in tt)
      (file_start-IsStart nothing_defined) refl (omega arith) (file_start-IsStart defined_1000) refl
      refl (omega arith)
