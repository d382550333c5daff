-- ===== src/Elf/Sorting/Commons.antt =====
-- The room that common symbols are given.
use native.Mathlib.Nat.{mod-lt, mod-add-div', mul-mod_left}
use inherpreter.Prelude.{
  ℕ, ◌+◌, ◌-◌, ◌/◌, ◌%◌, ◌≤◌, ◌<◌, ◌≡◌, refl, ◌≢◌, inl, inr, List, [], ◌∷◌, arith, ◌==◌, Bool-cases,
}
use inherpreter.Elf.Symtab.{ElfSym}
use inherpreter.Elf.Sorting.{shn_common, align_up, relocate_commons, relocate_common_syms}

-- The symbols that were common before, with the places they have now: each begins at a multiple of its
-- alignment, at `from` or behind it, and the next one begins behind its end; all end by `end`.
pub data Placed (sh_num : ℕ) : (from end : ℕ) → (before after : List ElfSym) → Type 0 where
  none_left : {from : ℕ} → Placed sh_num from from [] []
  kept :
      {from end : ℕ} {p : ElfSym} {ps qs : List ElfSym}
      → p.st_shndx ≢ shn_common
      → Placed sh_num from end ps qs
      → Placed sh_num from end (p ∷ ps) (p ∷ qs)
  common :
      {from end : ℕ} {p : ElfSym} {ps qs : List ElfSym} (address : ℕ)
      → p.st_shndx ≡ shn_common
      → from ≤ address
      → address < from + p.st_value
      → address % p.st_value ≡ 0
      → Placed sh_num (address + p.st_size) end ps qs
      → Placed sh_num from end (p ∷ ps) (record p { st_value = address; st_shndx = sh_num } ∷ qs)

abbrev pub HaveAlignment : List ElfSym → Type 0
HaveAlignment [] = Unit {0}
HaveAlignment (p ∷ ps) = (p.st_shndx ≡ shn_common → 0 < p.st_value) × HaveAlignment ps

align_up_lem :
    (offset align : ℕ)
    → 0 < align
    → (offset ≤ align_up offset align)
      × (align_up offset align < offset + align)
      × (align_up offset align % align ≡ 0)
align_up_lem offset align pos =
    let d = mod-add-div' (offset + align - 1) align in
    let r = mod-lt (offset + align - 1) pos in
    (omega (arith, d, r), omega (arith, d, r), mul-mod_left ((offset + align - 1) / align) align)

relocate_commons-Placed :
    (sh_num : ℕ) (syms : List ElfSym) (from : ℕ)
    → HaveAlignment syms
    → let r = relocate_commons sh_num syms from in Placed sh_num from r.1 syms r.0
unfolding relocate_commons
relocate_commons-Placed sh_num [] from al = none_left
relocate_commons-Placed sh_num (p ∷ ps) from (al, more) =
    elim (Bool-cases (p.st_shndx == shn_common)) [
      | inl e ↦
          let is : p.st_shndx ≡ shn_common = ground arith in
          let (lo, hi, multiple) = align_up_lem from p.st_value (al is) in
          rw e (
            common (align_up from p.st_value) is lo hi multiple
              (relocate_commons-Placed sh_num ps (align_up from p.st_value + p.st_size) more))
      | inr e ↦ rw e (kept (ground arith) (relocate_commons-Placed sh_num ps from more))
    ]

-- Where the alignments of the common symbols are positive, relocate_common_syms gives each of them a
-- place of its own in the bss section, at a multiple of its alignment, and grows the section to hold
-- them; the first symbol and the other ones stay as they are.
pub relocate_common_syms-Placed :
    (sh_num : ℕ) (first : ElfSym) (syms : List ElfSym) (data_offset : ℕ)
    → HaveAlignment syms
    → let r = relocate_common_syms sh_num (first ∷ syms) data_offset in
      (qs : List ElfSym) × (r.0 ≡ first ∷ qs) × Placed sh_num data_offset r.1 syms qs
unfolding relocate_common_syms
relocate_common_syms-Placed sh_num first syms data_offset al =
    (_, refl, relocate_commons-Placed sh_num syms data_offset al)
