-- ===== src/Gen/Scope/Closing.antt =====
-- Closing a scope brings the names back that it hid.
use inherpreter.Prelude.{
  ℕ, zero, suc, ◌≤◌, ◌<◌, ◌≡◌, refl, ap, ◌∙◌, ◌≢◌, Bool, true, false, some, arith, ◌==◌, ==_refl,
}
use inherpreter.Gen.Scope.{
  Scopes, on_local, open_scope, bound, sym_push, unbind, pop_until, sym_pop,
}
use inherpreter.Gen.Scope.Entering.{
  Agrees, Enters, Agrees-unbind, Enters-sym_push, Enters-open_scope,
}

-- A state that is reached from `s` inside a block: blocks are opened by a mark, which is the new
-- bottom of the scope, and names are declared while the local stack is not empty.
pub data Opened (s : Scopes) : Scopes → Type 0 where
  opened : Opened s s
  marked : {t : Scopes} (q : Scopes) → Opened s t → open_scope t ≡ some q → Opened s q
  declared :
      {t : Scopes} (v type_t type_ref r c : ℕ) (q : Scopes × ℕ)
      → Opened s t
      → t.local_stack ≢ 0
      → sym_push t v type_t type_ref r c ≡ some q
      → Opened s q.0

-- The local stack holds symbols that were allocated.
abbrev pub IsSane : Scopes → Type 0
IsSane s = s.local_stack < s.next_sym

-- The loop of sym_pop, from a state that agrees with an opened one, gives the old bindings.
abbrev Closes : Scopes → Scopes → Type 0
Closes s t =
    (s.next_sym ≤ t.next_sym)
    × ((fuel : ℕ) (u : Scopes)
        → t.local_stack ≤ fuel
        → Agrees t u
        → (b : Bool) (k : ℕ)
        → bound b (pop_until fuel u t.local_stack s.local_stack) k ≡ bound b s k)

pop_step :
    (s t t' : Scopes) (fuel : ℕ) (u : Scopes)
    → s.local_stack < s.next_sym
    → s.next_sym ≤ t.next_sym
    → Enters t t'
    → Agrees t' u
    → pop_until (suc fuel) u t'.local_stack s.local_stack
      ≡ pop_until fuel (unbind u t.next_sym) t.local_stack s.local_stack
unfolding pop_until
pop_step s t t' fuel u sane le e a =
    let differ : (t.next_sym == s.local_stack) ≡ false = ground arith in
    let same = a.older t.next_sym (omega (arith, e.new_next)) in
    rw (e.new_top, differ, same, e.new_prev) refl

Closes-Enters : (s t t' : Scopes) → IsSane s → IsSane t → Enters t t' → Closes s t → Closes s t'
Closes-Enters s t t' sane below e (le, closes) = (
  omega (arith, e.new_next),
  λ fuel u enough a b k.
      elim fuel
          as (λ f.
            t'.local_stack ≤ f
            → bound b (pop_until f u t'.local_stack s.local_stack) k ≡ bound b s k) [
              | zero ↦ λ h. absurd (omega (arith, e.new_top))
              | suc f ↦ λ h.
                  ap (λ x. bound b x k) (pop_step s t t' f u sane le e a)
                  ∙ closes f (unbind u t.next_sym) (omega (arith, e.new_top))
                      (Agrees-unbind t t' u e a) b k
            ]
        enough,
)

IsSane-Enters : (t t' : Scopes) → Enters t t' → IsSane t'
IsSane-Enters t t' e = omega (arith, e.new_top, e.new_next)

pop_stop : (fuel : ℕ) (u : Scopes) (b : ℕ) → pop_until fuel u b b ≡ u
unfolding pop_until
pop_stop zero u b = refl
pop_stop (suc fuel) u b = rw (==_refl b) refl

Opened-Closes : (s t : Scopes) → IsSane s → Opened s t → IsSane t × Closes s t
Opened-Closes s t sane opened = (
  sane,
  (
    omega arith,
    λ fuel u enough a b k. ap (λ x. bound b x k) (pop_stop fuel u s.local_stack) ∙ a.alike b k,
  ),
)
Opened-Closes s t sane (marked q o h) =
    let (below, c) = Opened-Closes s _ sane o in
    let e = Enters-open_scope _ q h in (IsSane-Enters _ _ e, Closes-Enters s _ _ sane below e c)
Opened-Closes s t sane (declared v type_t type_ref r c q o nonempty h) =
    let (below, cl) = Opened-Closes s _ sane o in
    let e = Enters-sym_push _ v type_t type_ref r c q nonempty h in
    (IsSane-Enters _ _ e, Closes-Enters s _ _ sane below e cl)

-- Whatever blocks are opened and names are declared, sym_pop down to the symbol that was on top of the local
-- stack at the beginning puts that symbol on top again, and gives every name the identifier and
-- the struct that it was bound to. The local stack held allocated symbols then.
pub sym_pop-Opened :
    (s t : Scopes)
    → IsSane s
    → Opened s t
    → let r = sym_pop t on_local s.local_stack in
      (r.local_stack ≡ s.local_stack)
      × ((k : ℕ) → r.sym_identifier k ≡ s.sym_identifier k)
      × ((k : ℕ) → r.sym_struct k ≡ s.sym_struct k)
unfolding sym_pop
sym_pop-Opened s t sane o =
    let closes =
      (Opened-Closes s t sane o).1.1 t.local_stack t (omega arith)
        (record { older = λ i lt. refl; alike = λ b k. refl }) in
    (refl, closes false, closes true)
