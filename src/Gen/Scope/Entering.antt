-- ===== src/Gen/Scope/Entering.antt =====
-- What entering a symbol does, and taking it back.
use inherpreter.Prelude.{
  ℕ, ◌+◌, ◌<◌, ◌≡◌, refl, sym, ap, ◌∙◌, subst, ◌≢◌, inl, inr, Bool, true, false, ◌&&◌, none, some,
  arith, ◌==◌, if◌then◌else◌, ==_refl, Bool-cases, Option-cases, update,
}
use inherpreter.Gen.Scope.Unbinding.{
  rebound, same_table, bound-set_bound_heap, heap-set_bound, heap-unbind, bound-unbind,
  rebound_back, bound-unbind_named,
}
use inherpreter.Gen.Scope.{
  sym_field_flag, is_struct, without_struct, is_named, Sym, Scopes, on_local, set_top, redefines,
  sym_push2, open_scope, bound, set_bound, bind, set_type, pushed, sym_push, unbind,
}

some_injective {ℓ} : {A : Type ℓ} {a b : A} → some a ≡ some b → a ≡ b
some_injective h = cc

pub none≢some {ℓ} : {A : Type ℓ} {a : A} → none ≢ some a
none≢some h = cc

-- The symbols that are older than `t`'s next one are those of `t`, and the names are bound alike.
pub record Agrees (t u : Scopes) : Type 0 where
  pub older : (i : ℕ) → i < t.next_sym → u.heap i ≡ t.heap i
  pub alike : (b : Bool) (k : ℕ) → bound b u k ≡ bound b t k

-- What entering a symbol does to the state: taking it back gives the bindings that there were.
pub record Enters (t t' : Scopes) : Type 0 where
  pub new_top : t'.local_stack ≡ t.next_sym
  pub new_next : t'.next_sym ≡ t.next_sym + 1
  pub new_prev : (t'.heap t.next_sym).prev ≡ t.local_stack
  pub kept : (i : ℕ) → i < t.next_sym → t'.heap i ≡ t.heap i
  pub undone : (b : Bool) (k : ℕ) → bound b (unbind t' t.next_sym) k ≡ bound b t k

abbrev entered : Scopes → (v t c : ℕ) → Scopes
entered s v t c = set_top on_local s.next_sym (record s {
  heap = update s.heap s.next_sym (record {
    v = v;
    type_t = t;
    type_ref = 0;
    r = 0;
    c = c;
    prev = s.local_stack;
    prev_tok = 0;
  });
  next_sym = s.next_sym + 1;
})

sym_push2-entered :
    (s : Scopes) (v t c : ℕ) (q : Scopes × ℕ)
    → sym_push2 s on_local v t c ≡ some q
    → q ≡ (entered s v t c, s.next_sym)
unfolding sym_push2
sym_push2-entered s v t c q h = elim (Bool-cases (redefines s.local_stack s v s.local_stack)) [
  | inl e ↦ cc
  | inr e ↦ cc
]

update_older : (f : ℕ → Sym) (x : Sym) {n i : ℕ} → i < n → update f n x i ≡ f i
update_older f x lt = ground arith

-- The symbol `v` is new, and bound to no name yet.
record Fresh (s e : Scopes) (v : ℕ) : Type 0 where
  top_is : e.local_stack ≡ s.next_sym
  next_is : e.next_sym ≡ s.next_sym + 1
  prev_is : (e.heap s.next_sym).prev ≡ s.local_stack
  v_is : (e.heap s.next_sym).v ≡ v
  older : (i : ℕ) → i < s.next_sym → e.heap i ≡ s.heap i
  alike : (b : Bool) (k : ℕ) → bound b e k ≡ bound b s k

Fresh-entered : (s : Scopes) (v t c : ℕ) → Fresh s (entered s v t c) v
Fresh-entered s v t c = record {
  top_is = refl;
  next_is = refl;
  prev_is = rw (==_refl s.next_sym) refl;
  v_is = rw (==_refl s.next_sym) refl;
  older = λ i lt. update_older s.heap _ lt;
  alike = λ b k. elim b as (λ b. bound b (entered s v t c) k ≡ bound b s k) [
    | true ↦ refl
    | false ↦ refl
  ];
}

Fresh-set_type :
    (s e : Scopes) (v type_ref r : ℕ) → Fresh s e v → Fresh s (set_type e s.next_sym type_ref r) v
Fresh-set_type s e v type_ref r f = record {
  top_is = f.top_is;
  next_is = f.next_is;
  prev_is = rw (==_refl s.next_sym) f.prev_is;
  v_is = rw (==_refl s.next_sym) f.v_is;
  older = λ i lt. update_older e.heap _ lt ∙ f.older i lt;
  alike = λ b k. elim b as (λ b. bound b (set_type e s.next_sym type_ref r) k ≡ bound b s k) [
    | true ↦ f.alike true k
    | false ↦ f.alike false k
  ];
}

Enters-unnamed : (s e : Scopes) (v : ℕ) → Fresh s e v → is_named v ≡ false → Enters s e
Enters-unnamed s e v f h = record {
  new_top = f.top_is;
  new_next = f.next_is;
  new_prev = f.prev_is;
  kept = f.older;
  undone = λ b k. bound-unbind b e s.next_sym k ∙ rw (f.v_is, h) (f.alike b k);
}

same_fields :
    (st : Bool) (f : ℕ → ℕ) (s : Scopes)
    → ((set_bound st f s).local_stack ≡ s.local_stack) × ((set_bound st f s).next_sym ≡ s.next_sym)
same_fields true f s = (refl, refl)
same_fields false f s = (refl, refl)

module _ (s e : Scopes) (v : ℕ) (f : Fresh s e v) (h : is_named v ≡ true) where
  abbrev n : ℕ
  n = s.next_sym

  abbrev old : ℕ
  old = bound (is_struct v) e (without_struct v)

  heap-bind :
      (i : ℕ) → (bind e v n).heap i ≡ update e.heap n (record (e.heap n) { prev_tok = old }) i
  heap-bind i = ap (λ g. g i) (heap-set_bound (is_struct v) _ _)

  heap_new : (bind e v n).heap n ≡ record (e.heap n) { prev_tok = old }
  heap_new = heap-bind n ∙ rw (==_refl n) refl

  bound-bind :
      (b : Bool) (k : ℕ)
      → bound b (bind e v n) k
        ≡ rebound (same_table b (is_struct v)) (without_struct v) n (bound b e k) k
  bound-bind b k = bound-set_bound_heap b (is_struct v) e _ (without_struct v) n k

  Enters-bind : Enters s (bind e v n)
  Enters-bind = record {
    new_top = (same_fields (is_struct v) _ _).0 ∙ f.top_is;
    new_next = (same_fields (is_struct v) _ _).1 ∙ f.next_is;
    new_prev = rw heap_new f.prev_is;
    kept = λ i lt. heap-bind i ∙ update_older e.heap _ lt ∙ f.older i lt;
    undone = λ b k.
        bound-unbind_named b (bind e v n) n v old k (rw heap_new f.v_is) (rw heap_new refl) h
        ∙ ap (λ x. rebound (same_table b (is_struct v)) (without_struct v) old x k) (bound-bind b k)
        ∙ rebound_back b (is_struct v) e (without_struct v) n k
        ∙ f.alike b k;
  }

pub Agrees-unbind : (t t' u : Scopes) → Enters t t' → Agrees t' u → Agrees t (unbind u t.next_sym)
Agrees-unbind t t' u e a =
    let n = t.next_sym in
    let same : u.heap n ≡ t'.heap n = a.older n (omega (arith, e.new_next)) in
    record {
      older = λ i lt.
          ap (λ h. h i) (heap-unbind u n) ∙ a.older i (omega (arith, e.new_next)) ∙ e.kept i lt;
      alike = λ b k.
          bound-unbind b u n k
          ∙ (rw (same, a.alike b k) (sym (bound-unbind b t' n k)))
          ∙ e.undone b k;
    }

sym_push-pushed :
    (t : Scopes) (v type_t type_ref r c : ℕ)
    → t.local_stack ≢ 0
    → sym_push t v type_t type_ref r c ≡ pushed v type_ref r (sym_push2 t on_local v type_t c)
unfolding sym_push
sym_push-pushed t v type_t type_ref r c nonempty =
    let e : (t.local_stack == 0) ≡ false = ground arith in rw e refl

abbrev declared_in : Scopes → (v type_t type_ref r c : ℕ) → Scopes
declared_in t v type_t type_ref r c = set_type (entered t v type_t c) t.next_sym type_ref r

sym_push-some :
    (t : Scopes) (v type_t type_ref r c : ℕ) (q : Scopes × ℕ)
    → t.local_stack ≢ 0
    → sym_push t v type_t type_ref r c ≡ some q
    → let e = declared_in t v type_t type_ref r c in
      (q ≡ (if is_named v then bind e v t.next_sym else e, t.next_sym))
sym_push-some t v type_t type_ref r c q nonempty h =
    let h1 = sym (sym_push-pushed t v type_t type_ref r c nonempty) ∙ h in
    elim (Option-cases (sym_push2 t on_local v type_t c)) [
      | inl e ↦ absurd (none≢some (sym (ap (pushed v type_ref r) e) ∙ h1))
      | inr (p, e) ↦
          let e1 = e ∙ ap some (sym_push2-entered t v type_t c p e) in
          some_injective (sym h1 ∙ ap (pushed v type_ref r) e1)
    ]

Fresh-declared_in :
    (t : Scopes) (v type_t type_ref r c : ℕ) → Fresh t (declared_in t v type_t type_ref r c) v
Fresh-declared_in t v type_t type_ref r c =
    Fresh-set_type t (entered t v type_t c) v type_ref r (Fresh-entered t v type_t c)

Enters-if_named :
    (t e : Scopes) (v : ℕ) → Fresh t e v → Enters t (if is_named v then bind e v t.next_sym else e)
Enters-if_named t e v f = elim (Bool-cases (is_named v)) [
  | inl named ↦ rw named (Enters-bind t e v f named)
  | inr unnamed ↦ rw unnamed (Enters-unnamed t e v f unnamed)
]

pub Enters-sym_push :
    (t : Scopes) (v type_t type_ref r c : ℕ) (q : Scopes × ℕ)
    → t.local_stack ≢ 0
    → sym_push t v type_t type_ref r c ≡ some q
    → Enters t q.0
Enters-sym_push t v type_t type_ref r c q nonempty h =
    subst (λ p. Enters t p.0) (sym (sym_push-some t v type_t type_ref r c q nonempty h))
      (Enters-if_named t _ v (Fresh-declared_in t v type_t type_ref r c))

bound_bottom :
    (b : Bool) (e : Scopes) (n k : ℕ)
    → bound b (record e { scope_stack_bottom = n }) k ≡ bound b e k
bound_bottom true e n k = refl
bound_bottom false e n k = refl

-- The bottom of the scope has no part in it.
Enters-bottom : (t e : Scopes) (n : ℕ) → Enters t e → Enters t (record e { scope_stack_bottom = n })
Enters-bottom t e n x = record {
  new_top = x.new_top;
  new_next = x.new_next;
  new_prev = x.new_prev;
  kept = x.kept;
  undone = λ b k.
      bound-unbind b (record e { scope_stack_bottom = n }) t.next_sym k
      ∙ ap
          (λ y.
            rebound
              (is_named (e.heap t.next_sym).v && same_table b (is_struct (e.heap t.next_sym).v))
              (without_struct (e.heap t.next_sym).v) (e.heap t.next_sym).prev_tok y k)
          (bound_bottom b e n k)
      ∙ sym (bound-unbind b e t.next_sym k)
      ∙ x.undone b k;
}

pub Enters-open_scope : (t q : Scopes) → open_scope t ≡ some q → Enters t q
unfolding open_scope
Enters-open_scope t q h = elim (Option-cases (sym_push2 t on_local sym_field_flag 0 0)) [
  | inl e ↦ let no : none ≡ some q = rw (open_scope, e) at h in absurd (none≢some no)
  | inr (p, e) ↦
      let q_is : record p.0 { scope_stack_bottom = p.1 } ≡ q =
        some_injective (rw (open_scope, e) at h) in
      subst (Enters t) q_is (
        rw (sym_push2-entered t sym_field_flag 0 0 p e) (
          Enters-bottom t _ t.next_sym (
            Enters-unnamed t (entered t sym_field_flag 0 0) sym_field_flag
              (Fresh-entered t sym_field_flag 0 0) refl)))
]

bound-entered :
    (b : Bool) (s e : Scopes) (v k : ℕ)
    → Fresh s e v
    → bound b (if is_named v then bind e v s.next_sym else e) k
      ≡ rebound
          (is_named v && same_table b (is_struct v))
          (without_struct v)
          s.next_sym
          (bound b s k)
          k
bound-entered b s e v k f = elim (Bool-cases (is_named v)) [
  | inl named ↦ rw named (
      bound-bind s e v f named b k
      ∙ ap (λ x. rebound (same_table b (is_struct v)) (without_struct v) s.next_sym x k)
          (f.alike b k))
  | inr unnamed ↦ rw unnamed (f.alike b k)
]

-- Declaring a symbol while the local stack is not empty binds its name to the new symbol, in the
-- table of structs or in that of identifiers, if it is neither a field nor anonymous; no other name
-- is bound differently.
pub bound-sym_push :
    (t : Scopes) (v type_t type_ref r c : ℕ) (q : Scopes × ℕ) (b : Bool) (k : ℕ)
    → t.local_stack ≢ 0
    → sym_push t v type_t type_ref r c ≡ some q
    → bound b q.0 k ≡ (
        if (is_named v && same_table b (is_struct v)) && without_struct v == k
        then q.1
        else bound b t k)
bound-sym_push t v type_t type_ref r c q b k nonempty h =
    let q_is = sym_push-some t v type_t type_ref r c q nonempty h in
    ap (λ p. bound b p.0 k) q_is
    ∙ bound-entered b t (declared_in t v type_t type_ref r c) v k
        (Fresh-declared_in t v type_t type_ref r c)
    ∙ ap
        (λ i.
          rebound (is_named v && same_table b (is_struct v)) (without_struct v) i (bound b t k) k)
        (sym (ap (λ p. p.1) q_is))
