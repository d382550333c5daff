-- ===== src/Elf/Sorting/Places.antt =====
-- Where sort_syms puts the symbols.
use inherpreter.Prelude.{
  ℕ, zero, suc, ◌+◌, ◌≤◌, ◌<◌, ◌≡◌, refl, sym, ap, ◌∙◌, inl, inr, Bool, true, false, List, [], ◌∷◌,
  ◌++◌, append_assoc, append-nil, arith, if◌then◌else◌, Bool-cases, length, get_or, set,
  length-append, length-set, get_or-append_right, get_or-set,
}
use inherpreter.Elf.Symtab.{ElfSym, null_sym}
use inherpreter.Elf.Sorting.{is_local_sym, same_bool, sort_pass}

-- The symbols that one pass takes.
unfoldable pub pick : Bool → List ElfSym → List ElfSym
pick local [] = []
pick local (p ∷ ps) = if same_bool local (is_local_sym p) then p ∷ pick local ps else pick local ps

abbrev noted : List ElfSym → List ℕ → (i : ℕ) → ElfSym → Bool → List ElfSym × List ℕ
noted new m i p taken = if taken then (new ++ p ∷ [], set m i (length new)) else (new, m)

sort_pass_step :
    (local : Bool) (i : ℕ) (p : ElfSym) (ps new : List ElfSym) (m : List ℕ) {b : Bool}
    → same_bool local (is_local_sym p) ≡ b
    → sort_pass local i (p ∷ ps) (new, m) ≡ sort_pass local (i + 1) ps (noted new m i p b)
unfolding sort_pass
sort_pass_step local i p ps new m e = ap (λ b. sort_pass local (i + 1) ps (noted new m i p b)) e

pub pick_step :
    (local : Bool) (p : ElfSym) (ps : List ElfSym) {b : Bool}
    → same_bool local (is_local_sym p) ≡ b
    → pick local (p ∷ ps) ≡ (if b then p ∷ pick local ps else pick local ps)
unfolding pick
pick_step local p ps e = ap (λ b. if b then p ∷ pick local ps else pick local ps) e

pub sort_pass-syms :
    (local : Bool) (i : ℕ) (ps new : List ElfSym) (m : List ℕ)
    → (sort_pass local i ps (new, m)).0 ≡ new ++ pick local ps
unfolding sort_pass pick
sort_pass-syms local i [] new m = sym (append-nil new)
sort_pass-syms local i (p ∷ ps) new m = elim (Bool-cases (same_bool local (is_local_sym p))) [
  | inl e ↦
      rw (sort_pass_step local i p ps new m e, pick_step local p ps e)
        (sort_pass-syms local (i + 1) ps (new ++ p ∷ []) _
          ∙ append_assoc new (p ∷ []) (pick local ps))
  | inr e ↦
      rw (sort_pass_step local i p ps new m e, pick_step local p ps e)
        (sort_pass-syms local (i + 1) ps new m)
]

pub sort_pass-width :
    (local : Bool) (i : ℕ) (ps new : List ElfSym) (m : List ℕ)
    → length (sort_pass local i ps (new, m)).1 ≡ length m
unfolding sort_pass
sort_pass-width local i [] new m = refl
sort_pass-width local i (p ∷ ps) new m = elim (Bool-cases (same_bool local (is_local_sym p))) [
  | inl e ↦
      rw (sort_pass_step local i p ps new m e)
        (sort_pass-width local (i + 1) ps (new ++ p ∷ []) _ ∙ length-set m i _)
  | inr e ↦ rw (sort_pass_step local i p ps new m e) (sort_pass-width local (i + 1) ps new m)
]

-- The places of symbols before `i` stay.
sort_pass-before :
    (local : Bool) (i j : ℕ) (ps new : List ElfSym) (m : List ℕ)
    → j < i
    → i + length ps ≤ length m
    → get_or (sort_pass local i ps (new, m)).1 j 0 ≡ get_or m j 0
unfolding sort_pass
sort_pass-before local i j [] new m lt room = refl
sort_pass-before local i j (p ∷ ps) new m lt room =
    elim (Bool-cases (same_bool local (is_local_sym p))) [
      | inl e ↦ rw (sort_pass_step local i p ps new m e) (
          sort_pass-before local (i + 1) j ps (new ++ p ∷ []) (set m i (length new)) (omega arith)
            (omega (arith, length-set m i (length new)))
          ∙ get_or-set m i j (length new) 0 (omega arith)
          ∙ ground arith)
      | inr e ↦
          rw (sort_pass_step local i p ps new m e)
            (sort_pass-before local (i + 1) j ps new m (omega arith) (omega arith))
    ]

-- The place of a symbol that the pass does not take stays.
pub sort_pass-passed :
    (local : Bool) (i j : ℕ) (ps new : List ElfSym) (m : List ℕ)
    → j < length ps
    → i + length ps ≤ length m
    → same_bool local (is_local_sym (get_or ps j null_sym)) ≡ false
    → get_or (sort_pass local i ps (new, m)).1 (i + j) 0 ≡ get_or m (i + j) 0
unfolding sort_pass
sort_pass-passed local i j [] new m lt room other = absurd (omega arith)
sort_pass-passed local i zero (p ∷ ps) new m lt room other =
    rw (sort_pass_step local i p ps new m other)
      (sort_pass-before local (i + 1) (i + 0) ps new m (omega arith) (omega arith))
sort_pass-passed local i (suc j) (p ∷ ps) new m lt room other =
    let at : i + suc j ≡ i + 1 + j = omega arith in
    elim (Bool-cases (same_bool local (is_local_sym p))) [
      | inl e ↦
          rw (at, sort_pass_step local i p ps new m e)
            (sort_pass-passed local (i + 1) j ps (new ++ p ∷ []) (set m i (length new))
                (omega arith) (omega (arith, length-set m i (length new))) other
              ∙ get_or-set m i (i + 1 + j) (length new) 0 (omega arith)
              ∙ ground arith)
      | inr e ↦
          rw (at, sort_pass_step local i p ps new m e)
            (sort_pass-passed local (i + 1) j ps new m (omega arith) (omega arith) other)
    ]

-- A symbol that the pass takes is at the place that is noted for it.
pub sort_pass-taken :
    (local : Bool) (i j : ℕ) (ps new : List ElfSym) (m : List ℕ)
    → j < length ps
    → i + length ps ≤ length m
    → same_bool local (is_local_sym (get_or ps j null_sym)) ≡ true
    → let r = sort_pass local i ps (new, m) in
      (get_or r.1 (i + j) 0 < length r.0)
      × (get_or r.0 (get_or r.1 (i + j) 0) null_sym ≡ get_or ps j null_sym)
unfolding sort_pass
sort_pass-taken local i j [] new m lt room taken = absurd (omega arith)
sort_pass-taken local i zero (p ∷ ps) new m lt room taken =
    let m' = set m i (length new) in
    let new' = new ++ p ∷ [] in
    let place : get_or (sort_pass local (i + 1) ps (new', m')).1 (i + 0) 0 ≡ length new =
      sort_pass-before local (i + 1) (i + 0) ps new' m' (omega arith)
        (omega (arith, length-set m i (length new)))
      ∙ get_or-set m i (i + 0) (length new) 0 (omega arith)
      ∙ ground arith in
    let grown = sort_pass-syms local (i + 1) ps new' m' in
    rw (sort_pass_step local i p ps new m taken, place, grown)
      (
        omega (arith, length-append new' (pick local ps), length-append new (p ∷ [])),
        rw (append_assoc new (p ∷ []) (pick local ps))
            (get_or-append_right new (p ∷ pick local ps) 0 (length new) null_sym (omega arith)),
      )
sort_pass-taken local i (suc j) (p ∷ ps) new m lt room taken =
    let at : i + suc j ≡ i + 1 + j = omega arith in
    elim (Bool-cases (same_bool local (is_local_sym p))) [
      | inl e ↦
          rw (at, sort_pass_step local i p ps new m e)
            (sort_pass-taken local (i + 1) j ps (new ++ p ∷ []) (set m i (length new)) (omega arith)
              (omega (arith, length-set m i (length new))) taken)
      | inr e ↦
          rw (at, sort_pass_step local i p ps new m e)
            (sort_pass-taken local (i + 1) j ps new m (omega arith) (omega arith) taken)
    ]
