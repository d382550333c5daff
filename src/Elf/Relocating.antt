-- ===== src/Elf/Relocating.antt =====
-- The addresses of symbols (tccelf.c: relocate_syms).
pub mod Values
use inherpreter.Prelude.{
  ℕ, ◌+◌, ◌%◌, ◌^◌, sym, Bool, Option, none, some, List, [], ◌∷◌, ◌++◌, ltb, ◌==◌, if◌then◌else◌,
  get_or, drop, take,
}
use inherpreter.Elf.Name.{same_name}
use inherpreter.Elf.Symtab.{ElfSym, Symtab, st_bind, null_sym, name_of, find_elf_sym}
use inherpreter.Elf.Resolve.{shn_undef, shn_loreserve, stb_weak}
use inherpreter.Elf.Section.{Section}

-- What relocate_syms reads: `do_resolve`, resolve_sym (which asks the host's libraries; 0 is NULL),
-- `dynsym`, and the fields `sh_addr` of the sections.
pub record Addresses : Type 0 where
  pub do_resolve : Bool
  pub resolve_sym : List ℕ → ℕ
  pub dynsym : Option Symtab
  pub sh_addr : ℕ → ℕ

abbrev pub fp_hw : List ℕ
fp_hw = b'_' ∷ b'f' ∷ b'p' ∷ b'_' ∷ b'h' ∷ b'w' ∷ []

-- `sym->st_value = (addr_t)addr` where resolve_sym knows the name.
abbrev if_address : ℕ → Option ℕ
if_address addr = if addr == 0 then none else some addr

-- The value of the symbol of that name in `dynsym`.
abbrev in_dynsym : Option Symtab → List ℕ → Option ℕ
in_dynsym none name = none
in_dynsym (some s) name =
    let sym_index = find_elf_sym s name in
    if sym_index == 0 then none else some (get_or s.syms sym_index null_sym).st_value

unfoldable pub external : Addresses → List ℕ → Option ℕ
external a name = if a.do_resolve then if_address (a.resolve_sym name) else in_dynsym a.dynsym name

-- The new value of a symbol; `none` is the error "undefined symbol", which leaves it as it is.
unfoldable pub new_value : Addresses → List ℕ → ElfSym → Option ℕ
unfolding external
new_value a name sym =
    if sym.st_shndx == shn_undef
    then elim (external a name) [
      | some value ↦ some value
      | none ↦
          if same_name name fp_hw
          then some sym.st_value
          else if st_bind sym.st_info == stb_weak
          then some 0
          else none
    ]
    else if ltb sym.st_shndx shn_loreserve
    then some ((sym.st_value + a.sh_addr sym.st_shndx) % 2 ^ 64)
    else some sym.st_value

abbrev with_value : ElfSym → Option ℕ → ElfSym
with_value sym none = sym
with_value sym (some value) = record sym { st_value = value }

abbrev reported : List ℕ → Option ℕ → List (List ℕ)
reported name none = name ∷ []
reported name (some value) = []

-- The symbols from one on, and the names that are reported.
unfoldable pub relocate_from :
    Addresses → (strtab : Section) → List ElfSym → List ElfSym × List (List ℕ)
unfolding new_value
relocate_from a strtab [] = ([], [])
relocate_from a strtab (sym ∷ syms) =
    let name = name_of strtab sym in
    let value = new_value a name sym in
    let rest = relocate_from a strtab syms in
    (with_value sym value ∷ rest.0, reported name value ++ rest.1)

-- The first symbol is passed over.
unfoldable pub relocate_syms : Addresses → Symtab → Symtab × List (List ℕ)
unfolding relocate_from
relocate_syms a s =
    let r = relocate_from a s.link (drop 1 s.syms) in
    (record s { syms = take 1 s.syms ++ r.0 }, r.1)
