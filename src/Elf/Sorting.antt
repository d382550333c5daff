-- ===== src/Elf/Sorting.antt =====
-- The sorting of the symbols, and the addresses of common symbols (tccelf.c: sort_syms,
-- relocate_common_syms). A section other than the symbol table is its sh_type, its link and its
-- relocations.
pub mod Places
pub mod Order
pub mod Commons
use inherpreter.Prelude.{
  ℕ, ◌+◌, ◌-◌, ◌*◌, ◌/◌, ◌%◌, ◌^◌, sym, Bool, true, false, not, List, [], ◌∷◌, ◌++◌, map, ◌==◌,
  if◌then◌else◌, length, get_or, set, drop, take, replicate,
}
use inherpreter.Elf.Symtab.{ElfSym, st_bind, stb_local}

pub record Rel : Type 0 where
  pub r_offset : ℕ
  pub r_info : ℕ
  pub r_addend : ℕ

-- ELF64_R_SYM, ELF64_R_TYPE and ELF64_R_INFO; the type passes through an int, and the 32 bits that
-- come back are those of the type.
abbrev pub r_sym : ℕ → ℕ
r_sym info = info / 2 ^ 32

abbrev pub r_type : ℕ → ℕ
r_type info = info % 2 ^ 32

abbrev pub r_info_of : (sym type : ℕ) → ℕ
r_info_of sym type = sym * 2 ^ 32 + type

abbrev pub is_local_sym : ElfSym → Bool
is_local_sym p = st_bind p.st_info == stb_local

abbrev pub same_bool : Bool → Bool → Bool
same_bool true b = b
same_bool false b = not b

-- One pass over the symbols, from index `i` on: those that are local, or those that are not, are
-- put behind `new_syms`, and their places there are noted in `old_to_new`.
unfoldable pub sort_pass :
    (local : Bool) → (i : ℕ) → List ElfSym → List ElfSym × List ℕ → List ElfSym × List ℕ
sort_pass local i [] st = st
sort_pass local i (p ∷ ps) (new_syms, old_to_new) = sort_pass local (i + 1) ps (
    if same_bool local (is_local_sym p)
    then (new_syms ++ p ∷ [], set old_to_new i (length new_syms))
    else (new_syms, old_to_new))

abbrev pub first_pass : List ElfSym → List ElfSym × List ℕ
first_pass syms = sort_pass true 0 syms ([], replicate (length syms) 0)

abbrev pub both_passes : List ElfSym → List ElfSym × List ℕ
both_passes syms = sort_pass false 0 syms (first_pass syms)

-- A section; `relocates` is the test `sr->sh_type == SHT_RELX && sr->link == s`.
pub record RelSection : Type 0 where
  pub relocates : Bool
  pub rels : List Rel

unfoldable pub renumber : List ℕ → Rel → Rel
renumber old_to_new rel = record rel {
  r_info = r_info_of (get_or old_to_new (r_sym rel.r_info) 0) (r_type rel.r_info);
}

unfoldable pub renumber_section : List ℕ → RelSection → RelSection
unfolding renumber
renumber_section old_to_new sr =
    if sr.relocates then record sr { rels = map (renumber old_to_new) sr.rels } else sr

-- What sort_syms leaves: the symbols, `sh_info`, and the sections.
pub record Sorted : Type 0 where
  pub syms : List ElfSym
  pub sh_info : ℕ
  pub sections : List RelSection

-- The loop over the sections leaves the first one out.
unfoldable pub sort_syms : List ElfSym → List RelSection → Sorted
unfolding sort_pass renumber_section
sort_syms syms sections = record {
  syms = (both_passes syms).0;
  sh_info = length (first_pass syms).0;
  sections = take 1 sections ++ map (renumber_section (both_passes syms).1) (drop 1 sections);
}

abbrev pub shn_common : ℕ
shn_common = 0xfff2

-- `(offset + align - 1) & -align`, for an alignment that is a power of two.
abbrev pub align_up : (offset align : ℕ) → ℕ
align_up offset align = (offset + align - 1) / align * align

-- The loop of relocate_common_syms, with the size of the bss section and its number.
unfoldable pub relocate_commons : (sh_num : ℕ) → List ElfSym → (data_offset : ℕ) → List ElfSym × ℕ
relocate_commons sh_num [] data_offset = ([], data_offset)
relocate_commons sh_num (sym ∷ syms) data_offset =
    let is_common = sym.st_shndx == shn_common in
    let offset = align_up data_offset sym.st_value in
    let rest =
      relocate_commons sh_num syms (if is_common then offset + sym.st_size else data_offset) in
    (
      (if is_common then record sym { st_value = offset; st_shndx = sh_num } else sym) ∷ rest.0,
      rest.1,
    )

unfoldable pub relocate_common_syms :
    (sh_num : ℕ) → List ElfSym → (data_offset : ℕ) → List ElfSym × ℕ
unfolding relocate_commons
relocate_common_syms sh_num syms data_offset =
    let (others, end) = relocate_commons sh_num (drop 1 syms) data_offset in
    (take 1 syms ++ others, end)
