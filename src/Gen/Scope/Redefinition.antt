-- ===== src/Gen/Scope/Redefinition.antt =====
-- When sym_push2 reports a redefinition.
use mathlib.Core.Bool.{true≢false}
use inherpreter.Prelude.{
  ℕ, zero, suc, ◌≤◌, ◌<◌, ◌≡◌, refl, sym, ◌∙◌, ◌≢◌, ◌↔◌, inl, inr, true, false, none, arith, ◌==◌,
  if◌then◌else◌, Bool-cases,
}
use inherpreter.Gen.Scope.{is_named, Scopes, on_local, redefines, sym_push2}

-- A symbol `v` is on the stack from `i` on, above the bottom of the scope.
pub data InScope (s : Scopes) (v : ℕ) : ℕ → Type 0 where
  here : {i : ℕ} → i ≢ 0 → i ≢ s.scope_stack_bottom → (s.heap i).v ≡ v → InScope s v i
  under : {i : ℕ} → i ≢ 0 → i ≢ s.scope_stack_bottom → InScope s v (s.heap i).prev → InScope s v i

-- The symbols of a stack have falling numbers.
abbrev pub IsFalling : Scopes → Type 0
IsFalling s = (i : ℕ) → 0 < i → i < s.next_sym → (s.heap i).prev < i

redefines-InScope : (fuel : ℕ) (s : Scopes) (v i : ℕ) → redefines fuel s v i ≡ true → InScope s v i
unfolding redefines
redefines-InScope zero s v i h = absurd (ground arith)
redefines-InScope (suc fuel) s v i h = elim (Bool-cases ((s.heap i).v == v)) [
  | inl e ↦ here (ground arith) (ground arith) (ground arith)
  | inr e ↦ under (ground arith) (ground arith) (redefines-InScope fuel s v _ (ground arith))
]

redefines_step :
    (fuel : ℕ) (s : Scopes) (v i : ℕ)
    → i ≢ 0
    → i ≢ s.scope_stack_bottom
    → is_named v ≡ true
    → redefines (suc fuel) s v i
      ≡ (if (s.heap i).v == v then true else redefines fuel s v (s.heap i).prev)
unfolding redefines
redefines_step fuel s v i nz nb named =
    let not_null : (i == 0) ≡ false = ground arith in
    let not_bottom : (i == s.scope_stack_bottom) ≡ false = ground arith in
    rw (not_null, not_bottom, named) refl

InScope-redefines :
    (fuel : ℕ) (s : Scopes) (v i : ℕ)
    → is_named v ≡ true
    → IsFalling s
    → i < s.next_sym
    → i ≤ fuel
    → InScope s v i
    → redefines fuel s v i ≡ true
InScope-redefines zero s v i named falls lt enough (here nz nb e) = absurd (omega arith)
InScope-redefines zero s v i named falls lt enough (under nz nb k) = absurd (omega arith)
InScope-redefines (suc fuel) s v i named falls lt enough (here nz nb e) =
    redefines_step fuel s v i nz nb named ∙ (ground arith)
InScope-redefines (suc fuel) s v i named falls lt enough (under nz nb k) =
    let down = falls i (omega arith) lt in
    let rest =
      InScope-redefines fuel s v (s.heap i).prev named falls (omega arith) (omega arith) k in
    redefines_step fuel s v i nz nb named ∙ rw rest (ground arith)

none-redefines :
    (s : Scopes) (v t c : ℕ)
    → sym_push2 s on_local v t c ≡ none
    → redefines s.local_stack s v s.local_stack ≡ true
unfolding sym_push2
none-redefines s v t c h = elim (Bool-cases (redefines s.local_stack s v s.local_stack)) [
  | inl e ↦ e
  | inr e ↦ cc
]

-- For a name, sym_push2 on the local stack reports a redefinition exactly if a symbol of that name
-- is in the scope that is open. The symbols under a symbol were allocated before it.
pub sym_push2-InScope :
    (s : Scopes) (v t c : ℕ)
    → is_named v ≡ true
    → IsFalling s
    → s.local_stack < s.next_sym
    → (sym_push2 s on_local v t c ≡ none) ↔ InScope s v s.local_stack
unfolding sym_push2
sym_push2-InScope s v t c named falls lt =
    elim (Bool-cases (redefines s.local_stack s v s.local_stack)) [
      | inl e ↦ (λ h. redefines-InScope s.local_stack s v s.local_stack e, λ k. rw e refl)
      | inr e ↦ (
        λ h. absurd (true≢false (sym (none-redefines s v t c h) ∙ e)),
        λ k. absurd (
            true≢false (
              sym (InScope-redefines s.local_stack s v s.local_stack named falls lt (omega arith) k)
              ∙ e)),
      )
    ]
