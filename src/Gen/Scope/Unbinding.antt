-- ===== src/Gen/Scope/Unbinding.antt =====
-- What taking a symbol's binding back does to the state.
use inherpreter.Prelude.{
  ℕ, ◌≡◌, refl, ◌∙◌, inl, inr, Bool, true, false, not, ◌&&◌, arith, ◌==◌, if◌then◌else◌, Bool-cases,
  update,
}
use inherpreter.Gen.Scope.{
  is_struct, without_struct, is_named, Sym, Scopes, bound, set_bound, unbind,
}

-- The bindings that differ only in one field of one name.
abbrev pub rebound : (same : Bool) (tok x old k : ℕ) → ℕ
rebound same tok x old k = if same && tok == k then x else old

abbrev pub same_table : Bool → Bool → Bool
same_table true b = b
same_table false b = not b

bound-set_bound :
    (b st : Bool) (s : Scopes) (tok x k : ℕ)
    → bound b (set_bound st (update (bound st s) tok x) s) k
      ≡ rebound (same_table b st) tok x (bound b s k) k
bound-set_bound true true s tok x k = refl
bound-set_bound true false s tok x k = refl
bound-set_bound false true s tok x k = refl
bound-set_bound false false s tok x k = refl

pub bound-set_bound_heap :
    (b st : Bool) (s : Scopes) (g : ℕ → Sym) (tok x k : ℕ)
    → bound b (set_bound st (update (bound st s) tok x) (record s { heap = g })) k
      ≡ rebound (same_table b st) tok x (bound b s k) k
bound-set_bound_heap true true s g tok x k = refl
bound-set_bound_heap true false s g tok x k = refl
bound-set_bound_heap false true s g tok x k = refl
bound-set_bound_heap false false s g tok x k = refl

pub heap-set_bound : (st : Bool) (f : ℕ → ℕ) (s : Scopes) → (set_bound st f s).heap ≡ s.heap
heap-set_bound true f s = refl
heap-set_bound false f s = refl

pub heap-unbind : (s : Scopes) (i : ℕ) → (unbind s i).heap ≡ s.heap
heap-unbind s i = elim (Bool-cases (is_named (s.heap i).v)) [
  | inl e ↦ rw e (heap-set_bound (is_struct (s.heap i).v) _ s)
  | inr e ↦ rw e
]

pub bound-unbind :
    (b : Bool) (s : Scopes) (i k : ℕ)
    → bound b (unbind s i) k
      ≡ rebound
          (is_named (s.heap i).v && same_table b (is_struct (s.heap i).v))
          (without_struct (s.heap i).v)
          (s.heap i).prev_tok
          (bound b s k)
          k
bound-unbind b s i k = elim (Bool-cases (is_named (s.heap i).v)) [
  | inl e ↦ rw e (bound-set_bound b (is_struct (s.heap i).v) s _ _ k)
  | inr e ↦ rw e
]

pub rebound_back :
    (b st : Bool) (s : Scopes) (tok n k : ℕ)
    → rebound
        (same_table b st)
        tok
        (bound st s tok)
        (rebound (same_table b st) tok n (bound b s k) k)
        k
      ≡ bound b s k
rebound_back true true s tok n k = ground arith
rebound_back true false s tok n k = ground arith
rebound_back false true s tok n k = ground arith
rebound_back false false s tok n k = ground arith

pub bound-unbind_named :
    (b : Bool) (s : Scopes) (i v p k : ℕ)
    → (s.heap i).v ≡ v
    → (s.heap i).prev_tok ≡ p
    → is_named v ≡ true
    → bound b (unbind s i) k
      ≡ rebound (same_table b (is_struct v)) (without_struct v) p (bound b s k) k
bound-unbind_named b s i v p k ev ep named = bound-unbind b s i k ∙ rw (ev, ep, named) refl
