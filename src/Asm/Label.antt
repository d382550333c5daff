-- ===== src/Asm/Label.antt =====
-- The definition of labels (tccasm.c: asm_new_label1).
use inherpreter.Prelude.{
  ℕ, ◌≤◌, ◌<◌, ◌≡◌, refl, ◌≢◌, ◌⊎◌, inl, inr, Bool, false, Option, none, some, arith, ◌==◌,
  if◌then◌else◌, ==_refl, Bool-cases, update,
}
use inherpreter.Cpp.Idents.{tok_ident_base}
use inherpreter.Cpp.Labels.{asm_labels, Labels, label_find, label_push}

-- `none` is the error "assembler label already defined".
unfoldable pub asm_new_label1 :
    Labels → (tok_ident label : ℕ) → (is_local : Bool) → (sh_num value : ℕ) → Option Labels
unfolding label_find label_push
asm_new_label1 s tok_ident label is_local sh_num value =
    let sym = label_find s tok_ident label in
    let defined = λ (p : Labels × ℕ). record p.0 {
      heap = update p.0.heap p.1 (record (p.0.heap p.1) { r = sh_num; jnext = value });
    } in
    if sym == 0
    then some (defined (label_push s asm_labels label 0))
    else if (s.heap sym).r == 0
    then some (defined (s, sym))
    else if is_local
    then some (defined (label_push s asm_labels label 0))
    else none

-- The new label of asm_labels is the one that its name finds.
label_find-label_push :
    (s : Labels) (tok_ident v flags : ℕ)
    → tok_ident_base ≤ v
    → v < tok_ident
    → label_find (label_push s asm_labels v flags).0 tok_ident v ≡ s.next_sym
unfolding label_find label_push
label_find-label_push s tok_ident v flags lo hi = ground arith

abbrev set_label : Labels → (i sh_num value : ℕ) → Labels
set_label s i sh_num value = record s {
  heap = update s.heap i (record (s.heap i) { r = sh_num; jnext = value });
}

-- What a defined label is: found by its name, with its section and value.
abbrev pub IsLabel : Labels → (tok_ident label sh_num value : ℕ) → Type 0
IsLabel s tok_ident label sh_num value =
    let i = label_find s tok_ident label in
    (0 < i) × ((s.heap i).r ≡ sh_num) × ((s.heap i).jnext ≡ value)

IsLabel-set_label :
    (s : Labels) (tok_ident label i sh_num value : ℕ)
    → label_find s tok_ident label ≡ i
    → 0 < i
    → IsLabel (set_label s i sh_num value) tok_ident label sh_num value
unfolding label_find
IsLabel-set_label s tok_ident label i sh_num value e pos =
    let e' : label_find (set_label s i sh_num value) tok_ident label ≡ i = e in
    rw (e', ==_refl i) (pos, refl, refl)

IsLabel-label_push :
    (s : Labels) (tok_ident label sh_num value : ℕ)
    → tok_ident_base ≤ label
    → label < tok_ident
    → 0 < s.next_sym
    → IsLabel
        (set_label
          (label_push s asm_labels label 0).0
          (label_push s asm_labels label 0).1
          sh_num
          value)
        tok_ident
        label
        sh_num
        value
unfolding label_push
IsLabel-label_push s tok_ident label sh_num value lo hi pos =
    IsLabel-set_label (label_push s asm_labels label 0).0 tok_ident label s.next_sym sh_num value
      (label_find-label_push s tok_ident label 0 lo hi) pos

-- Defining a label by a name of the table succeeds, unless the name has a label that is defined
-- already and the new one is not a local label. The name then finds a label of the section and value
-- that were given.
pub asm_new_label1_lem :
    (s : Labels) (tok_ident label sh_num value : ℕ) (is_local : Bool)
    → tok_ident_base ≤ label
    → label < tok_ident
    → 0 < s.next_sym
    → let old = label_find s tok_ident label in
      ((asm_new_label1 s tok_ident label is_local sh_num value ≡ none)
        × (0 < old)
        × ((s.heap old).r ≢ 0)
        × (is_local ≡ false))
      ⊎ ((s' : Labels) × (asm_new_label1 s tok_ident label is_local sh_num value ≡ some s')
          × IsLabel s' tok_ident label sh_num value)
unfolding asm_new_label1
asm_new_label1_lem s tok_ident label sh_num value is_local lo hi pos =
    let old = label_find s tok_ident label in
    let p = label_push s asm_labels label 0 in
    let fresh = set_label p.0 p.1 sh_num value in
    let pushed = IsLabel-label_push s tok_ident label sh_num value lo hi pos in
    elim (Bool-cases (old == 0)) [
      | inl e ↦ inr (fresh, rw e refl, pushed)
      | inr e ↦ elim (Bool-cases ((s.heap old).r == 0)) [
        | inl u ↦ inr (
          set_label s old sh_num value,
          rw (e, u) refl,
          IsLabel-set_label s tok_ident label old sh_num value refl (ground arith),
        )
        | inr d ↦ elim (Bool-cases is_local) [
          | inl l ↦ inr (fresh, rw (e, d, l) refl, pushed)
          | inr g ↦ inl (rw (e, d, g) refl, ground arith, ground arith, g)
        ]
      ]
    ]
