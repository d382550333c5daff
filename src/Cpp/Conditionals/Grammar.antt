-- ===== src/Cpp/Conditionals/Grammar.antt =====
-- The structure of conditional inclusion: how it is written in lines, and what it means.
use inherpreter.Prelude.{
  ℕ, zero, suc, ◌≤◌, Bool, true, false, not, List, [], ◌∷◌, ◌++◌, if◌then◌else◌,
}
use inherpreter.Cpp.Idents.{tok_ident_base}
use inherpreter.Cpp.Conditionals.{
  Line, text, define, undef, ifdef, ifndef, if_, elif, else_, endif, Text, set_define, put_text,
}

pub data Test : Type 0 where
  on_defined on_undefined : ℕ → Test
  on_expr : List ℕ → Test

-- What a group holds, and the branches behind the first group of a conditional.
mutual
  pub data Items : Type 0 where
    done : Items
    tokens defining undefining : ℕ → Items → Items
    conditional : Test → Items → Branches → Items → Items

  pub data Branches : Type 0 where
    closed : Branches
    otherwise : Items → Branches
    else_if : List ℕ → Items → Branches → Branches

abbrev pub test_line : Test → Line
test_line (on_defined v) = ifdef v
test_line (on_undefined v) = ifndef v
test_line (on_expr e) = if_ e

unfoldable mutual
  pub emit_items : Items → List Line
  emit_items done = []
  emit_items (tokens t is) = text t ∷ emit_items is
  emit_items (defining v is) = define v ∷ emit_items is
  emit_items (undefining v is) = undef v ∷ emit_items is
  emit_items (conditional t body br is) =
      test_line t ∷ (emit_items body ++ (emit_branches br ++ emit_items is))

  pub emit_branches : Branches → List Line
  emit_branches closed = endif ∷ []
  emit_branches (otherwise is) = else_ ∷ (emit_items is ++ endif ∷ [])
  emit_branches (else_if e is br) = elif e ∷ (emit_items is ++ emit_branches br)

module _ (expr_preprocess : (defines : ℕ → Bool) → List ℕ → Bool) where
  abbrev pub holds : Test → Text → Bool
  holds (on_defined v) w = w.defines v
  holds (on_undefined v) w = not (w.defines v)
  holds (on_expr e) w = expr_preprocess w.defines e

  -- The first group whose test holds is read, in the order of the lines.
  unfoldable mutual
    pub eval_items : Items → Text → Text
    eval_items done w = w
    eval_items (tokens t is) w = eval_items is (put_text t w)
    eval_items (defining v is) w = eval_items is (set_define v true w)
    eval_items (undefining v is) w = eval_items is (set_define v false w)
    eval_items (conditional t body br is) w =
        let taken = eval_items body w in
        let others = eval_branches br w in eval_items is (if holds t w then taken else others)

    pub eval_branches : Branches → Text → Text
    eval_branches closed w = w
    eval_branches (otherwise is) w = eval_items is w
    eval_branches (else_if e is br) w =
        let taken = eval_items is w in
        let others = eval_branches br w in if expr_preprocess w.defines e then taken else others

abbrev pub IsTest : Test → Type 0
IsTest (on_defined v) = tok_ident_base ≤ v
IsTest (on_undefined v) = tok_ident_base ≤ v
IsTest (on_expr e) = Unit

-- Names are identifiers, and at most `room` conditionals are open at once.
unfoldable mutual
  pub IsNested : (room : ℕ) → Items → Type 0
  IsNested room done = Unit
  IsNested room (tokens t is) = IsNested room is
  IsNested room (defining v is) = (tok_ident_base ≤ v) × IsNested room is
  IsNested room (undefining v is) = IsNested room is
  IsNested zero (conditional t body br is) = ⊥
  IsNested (suc room) (conditional t body br is) =
      IsTest t × IsNested room body × AreNested room br × IsNested (suc room) is

  pub AreNested : (room : ℕ) → Branches → Type 0
  AreNested room closed = Unit
  AreNested room (otherwise is) = IsNested room is
  AreNested room (else_if e is br) = IsNested room is × AreNested room br

abbrev pub IsNameTest : Test → Type 0
IsNameTest (on_expr e) = ⊥
IsNameTest _ = Unit

-- Every conditional asks for a name, with #ifdef or #ifndef and perhaps #else.
unfoldable mutual
  pub OnNames : Items → Type 0
  OnNames done = Unit
  OnNames (tokens t is) = OnNames is
  OnNames (defining v is) = OnNames is
  OnNames (undefining v is) = OnNames is
  OnNames (conditional t body br is) = IsNameTest t × OnNames body × AreOnNames br × OnNames is

  pub AreOnNames : Branches → Type 0
  AreOnNames closed = Unit
  AreOnNames (otherwise is) = OnNames is
  AreOnNames (else_if e is br) = ⊥
