-- ===== src/Elf/Resolve.antt =====
-- The resolution of symbols by name (tccelf.c: add_elf_sym, get_elf_sym_addr).
pub mod Visibility
pub mod Patch
pub mod Definitions
pub mod Outcome
use inherpreter.Prelude.{
  ℕ, ◌+◌, ◌*◌, ◌/◌, ◌%◌, sym, Bool, true, ◌&&◌, ◌||◌, Option, none, some, List, [], ◌∷◌, ◌++◌, ltb,
  ◌==◌, if◌then◌else◌, get_or, set,
}
use inherpreter.Elf.Symtab.{
  ElfSym, Symtab, st_bind, st_type, pack_info, stb_local, null_sym, put_elf_sym, find_elf_sym,
}

abbrev pub shn_undef : ℕ
shn_undef = 0

abbrev pub shn_loreserve : ℕ
shn_loreserve = 0xff00

abbrev pub shn_common : ℕ
shn_common = 0xfff2

abbrev pub stb_global : ℕ
stb_global = 1

abbrev pub stb_weak : ℕ
stb_weak = 2

abbrev pub stv_default : ℕ
stv_default = 0

abbrev pub stv_internal : ℕ
stv_internal = 1

abbrev pub stv_hidden : ℕ
stv_hidden = 2

-- ELF64_ST_VISIBILITY
abbrev pub st_visibility : ℕ → ℕ
st_visibility other = other % 4

-- The symbol table, the file's `new_undef_sym`, and the names that were reported as defined twice.
pub record Linker : Type 0 where
  pub table : Symtab
  pub new_undef_sym : Bool
  pub defined_twice : List (List ℕ)

unfoldable pub new_visibility : (esym_vis sym_vis : ℕ) → ℕ
new_visibility esym_vis sym_vis =
    if esym_vis == stv_default
    then sym_vis
    else if sym_vis == stv_default
    then esym_vis
    else if ltb esym_vis sym_vis
    then esym_vis
    else sym_vis

-- What is done with a definition or a reference of a name that is already defined.
pub data Action : Type 0 where
  keep patch report : Action

-- The chain of tests of add_elf_sym at a symbol that is defined. `is_dynsym` is the test
-- `s == tcc_state->dynsymtab_section`.
unfoldable pub choose : (is_dynsym : Bool) (esym : ElfSym) (sym_bind sym_vis sh_num : ℕ) → Action
choose is_dynsym esym sym_bind sym_vis sh_num =
    let esym_bind = st_bind esym.st_info in
    if sh_num == shn_undef
    then keep
    else if sym_bind == stb_global && esym_bind == stb_weak
    then patch
    else if sym_bind == stb_weak && esym_bind == stb_global
    then keep
    else if sym_bind == stb_weak && esym_bind == stb_weak
    then keep
    else if sym_vis == stv_hidden || sym_vis == stv_internal
    then keep
    else if esym.st_shndx == shn_common && (ltb sh_num shn_loreserve || sh_num == shn_common)
    then patch
    else if is_dynsym
    then keep
    else report

abbrev pub set_sym : Symtab → ℕ → ElfSym → Symtab
set_sym s i sym = record s { syms = set s.syms i sym }

-- The label do_patch.
unfoldable pub do_patch :
    Linker → (sym_index : ℕ) → (esym : ElfSym) → (value size info other sh_num : ℕ) → Linker
do_patch k sym_index esym value size info other sh_num = record k {
  table = set_sym k.table sym_index (record {
    st_name = esym.st_name;
    st_value = value;
    st_size = size;
    st_info = pack_info (st_bind info) (st_type info);
    st_other = other;
    st_shndx = sh_num;
  });
  new_undef_sym = true;
}

unfoldable pub act :
    Action
    → Linker
    → (sym_index : ℕ) → (esym : ElfSym) → (value size info other sh_num : ℕ) → (name : List ℕ)
    → Linker
act keep k sym_index esym value size info other sh_num name = k
act patch k sym_index esym value size info other sh_num name =
    do_patch k sym_index esym value size info other sh_num
act report k sym_index esym value size info other sh_num name = record k {
  defined_twice = k.defined_twice ++ name ∷ [];
}

-- A symbol of that name is in the table, at `sym_index`.
unfoldable pub merge_sym :
    Linker
    → (is_dynsym : Bool) (sym_index value size info other sh_num : ℕ) → (name : List ℕ) → Linker
merge_sym k is_dynsym sym_index value size info other sh_num name =
    let esym = get_or k.table.syms sym_index null_sym in
    if esym.st_shndx == shn_undef
    then do_patch k sym_index esym value size info other sh_num
    else let new_vis = new_visibility (st_visibility esym.st_other) (st_visibility other) in
      let other' = esym.st_other / 4 * 4 + new_vis in
      let esym' : ElfSym = record esym { st_other = other' } in
      let k' : Linker = record k { table = set_sym k.table sym_index esym' } in
      act (choose is_dynsym esym' (st_bind info) (st_visibility other) sh_num) k' sym_index esym'
        value size info other' sh_num name

-- The label do_def.
unfoldable pub do_def : Linker → (value size info other sh_num : ℕ) → (name : List ℕ) → Linker × ℕ
do_def k value size info other sh_num name =
    let (table, sym_index) =
      put_elf_sym k.table value size (pack_info (st_bind info) (st_type info)) other sh_num name in
    (record k { table = table }, sym_index)

unfoldable pub add_elf_sym :
    Linker → (is_dynsym : Bool) (value size info other sh_num : ℕ) → (name : List ℕ) → Linker × ℕ
add_elf_sym k is_dynsym value size info other sh_num name =
    if st_bind info == stb_local
    then do_def k value size info other sh_num name
    else let sym_index = find_elf_sym k.table name in
      if sym_index == 0
      then do_def k value size info other sh_num name
      else (merge_sym k is_dynsym sym_index value size info other sh_num name, sym_index)

-- `none` is the error "not defined", which is signalled where `err` is set; 0 is returned otherwise.
unfoldable pub get_elf_sym_addr : Symtab → List ℕ → Bool → Option ℕ
get_elf_sym_addr s name err =
    let sym_index = find_elf_sym s name in
    let sym = get_or s.syms sym_index null_sym in
    if sym_index == 0 || sym.st_shndx == shn_undef
    then if err then none else some 0
    else some sym.st_value
