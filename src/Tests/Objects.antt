-- ===== src/Tests/Objects.antt =====
-- A string table and a symbol table with one weak and one strong symbol.
use Prim.{tt}
use inherpreter.Prelude.{
  ℕ, ◌*◌, ◌≡◌, refl, true, false, none, some, List, [], ◌∷◌, arith, if◌then◌else◌,
}
use inherpreter.Elf.Section.{Section, realloc_size, section_realloc, section_ptr_add, memcpy}
use inherpreter.Elf.Section.Text.{c_string}
use inherpreter.Elf.Symtab.{Symtab, st_bind, name_of, put_elf_sym, find_elf_sym, new_symtab}
use inherpreter.Elf.Symtab.Lookup.{IsValid, lookup, find_elf_sym-lookup}
use inherpreter.Elf.Symtab.Adding.{
  put_elf_sym-IsValid, find_elf_sym-put_elf_sym, new_symtab-IsValid,
}
use inherpreter.Elf.Name.{elf_hash, same_name}
use inherpreter.Elf.Resolve.{stb_global, stb_weak, Linker, add_elf_sym, get_elf_sym_addr}
use inherpreter.Elf.Relocating.{Addresses}
use inherpreter.Elf.Resolve.Outcome.{
  find_elf_sym-add_elf_sym, sym_of, strong_kept, undefined_resolved,
}

abbrev no_text : Section
no_text = record { bytes = []; data_offset = 0 }

abbrev ab_text : Section
ab_text = record { bytes = 97 ∷ 98 ∷ 0 ∷ 0 ∷ []; data_offset = 3 }

-- Information of a weak symbol and of a strong one.
abbrev weak_info : ℕ
weak_info = 0x22

abbrev strong_info : ℕ
strong_info = 0x12

-- The name f, weak at 7, then the name g, strong at 8.
abbrev f_name : List ℕ
f_name = 102 ∷ []

abbrev g_name : List ℕ
g_name = 103 ∷ []

abbrev one_sym : Symtab
one_sym = (put_elf_sym new_symtab 7 4 weak_info 0 1 f_name).0

abbrev two_syms : Symtab
two_syms = (put_elf_sym one_sym 8 4 strong_info 0 1 g_name).0

one_sym-IsValid : IsValid one_sym
one_sym-IsValid =
    put_elf_sym-IsValid new_symtab 7 4 weak_info 0 1 f_name new_symtab-IsValid.0 (omega arith, tt)

put_elf_sym-IsValid_example : IsValid two_syms
put_elf_sym-IsValid_example =
    put_elf_sym-IsValid one_sym 8 4 strong_info 0 1 g_name one_sym-IsValid (omega arith, tt)

two_syms-IsValid : IsValid two_syms
two_syms-IsValid =
    put_elf_sym-IsValid one_sym 8 4 strong_info 0 1 g_name one_sym-IsValid (omega arith, tt)

find_elf_sym-put_elf_sym_example :
    find_elf_sym (put_elf_sym two_syms 9 4 weak_info 0 1 f_name).0 f_name ≡ 3
unfolding same_name put_elf_sym new_symtab
find_elf_sym-put_elf_sym_example =
    find_elf_sym-put_elf_sym two_syms 9 4 weak_info 0 1 f_name f_name two_syms-IsValid
      (omega arith, tt)

find_elf_sym-lookup_example : find_elf_sym two_syms f_name ≡ lookup two_syms f_name
find_elf_sym-lookup_example = find_elf_sym-lookup two_syms f_name two_syms-IsValid

abbrev linker : Linker
linker = record { table = two_syms; new_undef_sym = false; defined_twice = [] }

find_elf_sym-add_elf_sym_example :
    let r = add_elf_sym linker false 9 4 strong_info 0 2 f_name in
    IsValid r.0.table
    × ((q : List ℕ)
        → find_elf_sym r.0.table q ≡ (if same_name q f_name then r.1 else find_elf_sym two_syms q))
find_elf_sym-add_elf_sym_example =
    find_elf_sym-add_elf_sym linker false 9 4 strong_info 0 2 f_name two_syms-IsValid
      (omega arith, tt)

f_index : find_elf_sym two_syms f_name ≡ 1
unfolding find_elf_sym put_elf_sym new_symtab section_ptr_add section_realloc realloc_size memcpy
    name_of c_string elf_hash same_name
f_index = refl

g_index : find_elf_sym two_syms g_name ≡ 2
unfolding find_elf_sym put_elf_sym new_symtab section_ptr_add section_realloc realloc_size memcpy
    name_of c_string elf_hash same_name
g_index = refl

h_index : find_elf_sym two_syms (104 ∷ []) ≡ 0
unfolding find_elf_sym put_elf_sym new_symtab section_ptr_add section_realloc realloc_size memcpy
    name_of c_string elf_hash same_name
h_index = refl

f_sym :
    (st_bind (sym_of two_syms f_name).st_info ≡ stb_weak) × ((sym_of two_syms f_name).st_shndx ≡ 1)
f_sym = rw f_index (unfold put_elf_sym new_symtab in (refl, refl))

g_sym :
    (st_bind (sym_of two_syms g_name).st_info ≡ stb_global)
    × ((sym_of two_syms g_name).st_shndx ≡ 1)
g_sym = rw g_index (unfold put_elf_sym new_symtab in (refl, refl))

strong_kept_example :
    get_elf_sym_addr (add_elf_sym linker false 9 4 strong_info 0 2 g_name).0.table g_name true
    ≡ get_elf_sym_addr two_syms g_name true
strong_kept_example =
    strong_kept linker false true 9 4 strong_info 0 2 g_name two_syms-IsValid (omega arith, tt)
      (omega (arith, g_index), omega (arith, g_sym)) (g_sym.0) (omega (arith, g_sym)) (omega arith)

undefined_resolved_example :
    get_elf_sym_addr (add_elf_sym linker false 9 4 weak_info 0 2 (104 ∷ [])).0.table (104 ∷ []) true
    ≡ some 9
undefined_resolved_example =
    undefined_resolved linker false true 9 4 weak_info 0 2 (104 ∷ []) two_syms-IsValid
      (omega arith, tt) (unfold get_elf_sym_addr in rw h_index refl) (omega arith) (omega arith)

abbrev addresses : Addresses
addresses = record {
  do_resolve = false;
  resolve_sym = λ name. 0;
  dynsym = none;
  sh_addr = λ k. k * 0x1000;
}
