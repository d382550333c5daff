-- ===== src/Elf/Sorting/Order.antt =====
-- The order that sort_syms leaves, and what the relocations refer to.
use native.Mathlib.Decide.{dec_lt}
use inherpreter.Prelude.{
  ℕ, zero, suc, ◌+◌, ◌-◌, ◌<◌, ◌≡◌, refl, sym, ap, ◌∙◌, subst, inl, inr, Bool, true, false, not,
  ◌&&◌, List, [], ◌∷◌, ◌++◌, arith, ltb, ◌==◌, Bool-cases, length, get_or, length-append,
  get_or-append_left, get_or-append_right,
}
use inherpreter.Elf.Symtab.{ElfSym, null_sym}
use inherpreter.Elf.Sorting.{
  Rel, is_local_sym, same_bool, first_pass, both_passes, RelSection, sort_syms,
}
use inherpreter.Elf.Sorting.Places.{pick, pick_step, sort_pass-syms}

length-pick : (ps : List ElfSym) → length (pick true ps) + length (pick false ps) ≡ length ps
unfolding pick
length-pick [] = refl
length-pick (p ∷ ps) = elim (Bool-cases (is_local_sym p)) [
  | inl e ↦
      rw (pick_step true p ps e, pick_step false p ps (ap not e)) (omega (arith, length-pick ps))
  | inr e ↦
      rw (pick_step true p ps e, pick_step false p ps (ap not e)) (omega (arith, length-pick ps))
]

-- Every symbol of the list is of the kind.
abbrev AllOf : Bool → List ElfSym → Type 0
AllOf local ps =
    (j : ℕ) → j < length ps → same_bool local (is_local_sym (get_or ps j null_sym)) ≡ true

AllOf-cons :
    (local : Bool) (p : ElfSym) (ps : List ElfSym)
    → same_bool local (is_local_sym p) ≡ true
    → AllOf local ps
    → AllOf local (p ∷ ps)
AllOf-cons local p ps e all zero lt = e
AllOf-cons local p ps e all (suc j) lt = all j (omega arith)

pick-AllOf : (local : Bool) (ps : List ElfSym) → AllOf local (pick local ps)
unfolding pick
pick-AllOf local [] = λ j lt. absurd (omega arith)
pick-AllOf local (p ∷ ps) = elim (Bool-cases (same_bool local (is_local_sym p))) [
  | inl e ↦
      subst (AllOf local) (sym (pick_step local p ps e))
        (AllOf-cons local p (pick local ps) e (pick-AllOf local ps))
  | inr e ↦ subst (AllOf local) (sym (pick_step local p ps e)) (pick-AllOf local ps)
]

not-true : (b : Bool) → not b ≡ true → b ≡ false
not-true true h = sym h
not-true false h = refl

AllOf-append :
    (xs ys : List ElfSym) (j : ℕ)
    → AllOf true xs
    → AllOf false ys
    → j < length xs + length ys
    → is_local_sym (get_or (xs ++ ys) j null_sym) ≡ ltb j (length xs)
AllOf-append xs ys j all none_of lt = elim (dec_lt j (length xs)) [
  | yes small ↦
      ap is_local_sym (get_or-append_left xs ys j null_sym small) ∙ all j small ∙ ground arith
  | no big ↦
      ap is_local_sym (get_or-append_right xs ys (j - length xs) j null_sym (omega arith))
      ∙ not-true _ (none_of (j - length xs) (omega arith))
      ∙ ground arith
]

first_pass-syms : (syms : List ElfSym) → (first_pass syms).0 ≡ pick true syms
first_pass-syms syms = sort_pass-syms true 0 syms [] _

both_passes-syms : (syms : List ElfSym) → (both_passes syms).0 ≡ pick true syms ++ pick false syms
both_passes-syms syms =
    sort_pass-syms false 0 syms (first_pass syms).0 (first_pass syms).1
    ∙ ap (λ l. l ++ pick false syms) (first_pass-syms syms)

-- Sorting keeps the number of symbols, and puts the local ones first: those before sh_info are local,
-- those from there on are not.
pub sort_syms-local_first :
    (syms : List ElfSym) (sections : List RelSection)
    → let r = sort_syms syms sections in
      (length r.syms ≡ length syms)
      × ((j : ℕ) → j < length syms → is_local_sym (get_or r.syms j null_sym) ≡ ltb j r.sh_info)
unfolding sort_syms
sort_syms-local_first syms sections =
    rw (both_passes-syms syms, first_pass-syms syms)
      (
        length-append (pick true syms) (pick false syms) ∙ length-pick syms,
        λ j lt.
            AllOf-append (pick true syms) (pick false syms) j (pick-AllOf true syms)
              (pick-AllOf false syms) (omega (arith, length-pick syms)),
      )

abbrev pub no_rel : Rel
no_rel = record { r_offset = 0; r_info = 0; r_addend = 0 }

abbrev pub no_section : RelSection
no_section = record { relocates = false; rels = [] }

-- Whether sort_syms goes through the relocations of section `i`.
abbrev pub touched : List RelSection → ℕ → Bool
touched sections i = not (i == 0) && (get_or sections i no_section).relocates
