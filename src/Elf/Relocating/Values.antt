-- ===== src/Elf/Relocating/Values.antt =====
-- What relocate_syms changes and what it keeps.
use inherpreter.Prelude.{
  ℕ, zero, suc, ◌+◌, ◌%◌, ◌^◌, ◌<◌, ◌≡◌, refl, sym, ap, ap₂, ◌∙◌, subst, ◌≢◌, Bool, true, false,
  Option, none, some, List, [], ◌∷◌, arith, ltb, ◌==◌, get_or,
}
use inherpreter.Elf.Section.{Section}
use inherpreter.Elf.Symtab.{ElfSym, Symtab, null_sym, name_of, find_elf_sym}
use inherpreter.Elf.Symtab.Chains.{latest, Holds}
use inherpreter.Elf.Symtab.Lookup.{
  entry_of, entries_of, HasName, Named, IsValid, lookup, find_elf_sym-lookup,
}
use inherpreter.Elf.Resolve.{shn_undef, shn_loreserve, get_elf_sym_addr}
use inherpreter.Elf.Resolve.Outcome.{sym_of}
use inherpreter.Elf.Relocating.{Addresses, new_value, with_value, relocate_from, relocate_syms}

same_entry :
    (l : Section) (sym : ElfSym) (value : Option ℕ)
    → entry_of l (with_value sym value) ≡ entry_of l sym
unfolding entry_of name_of
same_entry l sym none = refl
same_entry l sym (some value) = refl

entries_of-relocate_from :
    (a : Addresses) (l : Section) (syms : List ElfSym)
    → entries_of l (relocate_from a l syms).0 ≡ entries_of l syms
unfolding entries_of relocate_from
entries_of-relocate_from a l [] = refl
entries_of-relocate_from a l (sym ∷ syms) =
    ap₂ ◌∷◌ (same_entry l sym (new_value a (name_of l sym) sym)) (entries_of-relocate_from a l syms)

HasName-with_value :
    (l : Section) (sym : ElfSym) (value : Option ℕ)
    → HasName l sym
    → HasName l (with_value sym value)
HasName-with_value l sym none h = h
HasName-with_value l sym (some value) h = h

Named-relocate_from :
    (a : Addresses) (l : Section) (syms : List ElfSym)
    → Named l syms
    → Named l (relocate_from a l syms).0
unfolding relocate_from
Named-relocate_from a l [] h = h
Named-relocate_from a l (sym ∷ syms) (h, more) =
    (HasName-with_value l sym _ h, Named-relocate_from a l syms more)

module _ (a : Addresses) (s : Symtab) (rest : List ElfSym) (first : s.syms ≡ null_sym ∷ rest) where
  syms-relocate_syms : (relocate_syms a s).0.syms ≡ null_sym ∷ (relocate_from a s.link rest).0
  unfolding relocate_syms
  syms-relocate_syms = rw first refl

  entries_of-relocate_syms : entries_of s.link (relocate_syms a s).0.syms ≡ entries_of s.link s.syms
  entries_of-relocate_syms =
      rw (syms-relocate_syms, first)
        (unfold entries_of in
          ap (◌∷◌ (entry_of s.link null_sym)) (entries_of-relocate_from a s.link rest))

-- relocate_syms keeps a valid table valid, and every name is found where it was.
pub relocate_syms-IsValid :
    (a : Addresses) (s : Symtab)
    → IsValid s
    → IsValid (relocate_syms a s).0
      × ((q : List ℕ) → find_elf_sym (relocate_syms a s).0 q ≡ find_elf_sym s q)
unfolding relocate_syms lookup
relocate_syms-IsValid a s v =
    let (rest, first) = v.first in
    let is = syms-relocate_syms a s rest first in
    let same = entries_of-relocate_syms a s rest first in
    let v' : IsValid (relocate_syms a s).0 = record {
      link_fits = v.link_fits;
      named = subst (Named s.link) (sym is) (
        (subst (Named s.link) first v.named).0,
        Named-relocate_from a s.link rest (subst (Named s.link) first v.named).1,
      );
      first = ((relocate_from a s.link rest).0, is);
      holds = subst (Holds s.hash) (sym same) v.holds;
    } in
    (
      v',
      λ q.
          find_elf_sym-lookup (relocate_syms a s).0 q v'
          ∙ ap (λ es. latest q 0 es 0) same
          ∙ sym (find_elf_sym-lookup s q v),
    )

-- The symbol is defined in a section.
abbrev pub InSection : ElfSym → Type 0
InSection sym = (sym.st_shndx ≢ shn_undef) × (sym.st_shndx < shn_loreserve)

abbrev placed : Addresses → ElfSym → ElfSym
placed a sym = record sym { st_value = (sym.st_value + a.sh_addr sym.st_shndx) % 2 ^ 64 }

new_value-InSection :
    (a : Addresses) (name : List ℕ) (sym : ElfSym)
    → InSection sym
    → new_value a name sym ≡ some ((sym.st_value + a.sh_addr sym.st_shndx) % 2 ^ 64)
unfolding new_value
new_value-InSection a name sym (defined, small) =
    let e : (sym.st_shndx == shn_undef) ≡ false = ground arith in
    let f : ltb sym.st_shndx shn_loreserve ≡ true = ground arith in rw (e, f) refl

placed_at :
    (a : Addresses) (l : Section) (syms : List ElfSym) (i : ℕ)
    → InSection (get_or syms i null_sym)
    → get_or (relocate_from a l syms).0 i null_sym ≡ placed a (get_or syms i null_sym)
unfolding relocate_from
placed_at a l [] i (defined, small) = absurd (defined refl)
placed_at a l (sym ∷ syms) zero h =
    ap (with_value sym) (new_value-InSection a (name_of l sym) sym h)
placed_at a l (sym ∷ syms) (suc i) h = placed_at a l syms i h

behind_null :
    (a : Addresses) (l : Section) (rest : List ElfSym) (i : ℕ)
    → InSection (get_or (null_sym ∷ rest) i null_sym)
    → get_or (null_sym ∷ (relocate_from a l rest).0) i null_sym
      ≡ placed a (get_or (null_sym ∷ rest) i null_sym)
behind_null a l rest zero (defined, small) = absurd (defined refl)
behind_null a l rest (suc i) h = placed_at a l rest i h

placed_symbol :
    (a : Addresses) (s : Symtab) (rest : List ElfSym) (i : ℕ)
    → s.syms ≡ null_sym ∷ rest
    → InSection (get_or s.syms i null_sym)
    → get_or (relocate_syms a s).0.syms i null_sym ≡ placed a (get_or s.syms i null_sym)
placed_symbol a s rest i first h =
    rw (syms-relocate_syms a s rest first, first)
      (behind_null a s.link rest i (subst (λ l. InSection (get_or l i null_sym)) first h))

-- After relocate_syms on a valid table, the address of a name that is found and defined in a section
-- is its value plus the address of the section, on 64 bits.
pub get_elf_sym_addr-relocate_syms :
    (a : Addresses) (s : Symtab) (name : List ℕ) (err : Bool)
    → IsValid s
    → 0 < find_elf_sym s name
    → InSection (sym_of s name)
    → get_elf_sym_addr (relocate_syms a s).0 name err
      ≡ some (((sym_of s name).st_value + a.sh_addr (sym_of s name).st_shndx) % 2 ^ 64)
unfolding get_elf_sym_addr
get_elf_sym_addr-relocate_syms a s name err v pos h =
    let found = (relocate_syms-IsValid a s v).1 name in
    let at = placed_symbol a s v.first.0 (find_elf_sym s name) v.first.1 h in
    let e : (find_elf_sym s name == 0) ≡ false = ground arith in
    let f : ((sym_of s name).st_shndx == shn_undef) ≡ false = ground arith in
    rw (found, at, e, f) refl
