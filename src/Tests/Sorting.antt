-- ===== src/Tests/Sorting.antt =====
-- A table with a global symbol before a local one.
use Prim.{tt}
use inherpreter.Prelude.{◌+◌, ◌*◌, ◌^◌, true, false, List, [], ◌∷◌, arith}
use inherpreter.Elf.Symtab.{ElfSym, null_sym}
use inherpreter.Elf.Sorting.{Rel, RelSection}
use inherpreter.Elf.Sorting.Commons.{HaveAlignment}

abbrev mixed : List ElfSym
mixed = null_sym ∷ record null_sym { st_info = 0x12 } ∷ record null_sym { st_value = 4 } ∷ []

abbrev to_local : Rel
to_local = record { r_offset = 8; r_info = 2 * 2 ^ 32 + 1; r_addend = 0 }

-- A relocation in the first section, in one that relocates the table, and in one that does not.
abbrev three_sections : List RelSection
three_sections =
    record { relocates = true; rels = to_local ∷ [] }
    ∷ record { relocates = true; rels = to_local ∷ [] }
    ∷ record { relocates = false; rels = to_local ∷ [] }
    ∷ []

abbrev two_commons : List ElfSym
two_commons =
    record null_sym { st_value = 8; st_size = 12; st_shndx = 0xfff2 }
    ∷ record null_sym { st_value = 4; st_shndx = 1 }
    ∷ record null_sym { st_value = 16; st_size = 1; st_shndx = 0xfff2 }
    ∷ []

two_commons-HaveAlignment : HaveAlignment two_commons
two_commons-HaveAlignment = (λ e. omega arith, (λ e. omega arith, (λ e. omega arith, tt)))
