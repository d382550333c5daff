-- ===== src/Lib.antt =====
-- The core of the Tiny C Compiler: its object files, its preprocessor, its types and constant folding,
-- the jumps of its code, the expressions of its assembler, and the bounds checker of the programs that
-- it compiles.
--
-- The compiler reads characters into tokens (tccpp.c), parses them and generates code (tccgen.c),
-- and puts code, data and symbols into the sections of an object file (libtcc.c, tccelf.c). A
-- program that is compiled with -b calls the bounds checker (lib/bcheck.c).
--
-- Elf (libtcc.c, tccelf.c)
-- Elf.Section: section_realloc, section_ptr_add, section_reserve and put_elf_str. A section's
-- buffer is the list of its allocated bytes.
-- Elf.Name and Elf.Symtab: elf_hash, put_elf_sym, find_elf_sym, rebuild_hash and new_symtab. A
-- symbol table is the list of its symbols, its string table, and its hash, which is a record in
-- place of an array of ints.
-- Elf.Resolve: add_elf_sym and get_elf_sym_addr, on a state that also holds new_undef_sym and the
-- names that were reported as defined twice.
-- Elf.Sorting: sort_syms and relocate_common_syms, on the list of symbols and the sections that hold
-- relocations.
-- Elf.Relocating: relocate_syms, where resolve_sym, which asks the libraries of the host, is a
-- parameter.
--
-- Bcheck (lib/bcheck.c)
-- Bcheck.Slot: __bound_find_region, add_region and delete_region on one slot of 256 addresses.
-- Bcheck.Table: the table of pages of slots, __bound_new_region, __bound_delete_region,
-- __bound_ptr_add, __bound_ptr_indir, __bound_local_new, __bound_local_delete, get_region_size and
-- mark_invalid. Addresses have 32 bits, which the two levels of the table cover.
-- Bcheck.Checked: the checked memcpy, memmove, memset, strlen and strcpy, with the functions of the C
-- library as parameters.
--
-- Cpp (tccpp.c)
-- Cpp.Strings: CString, add_char and parse_escape_string.
-- Cpp.Tokens: tok_str_add2 and TOK_GET, for x86_64.
-- Cpp.Idents: tok_alloc, with the hash chains as lists of indices.
-- Cpp.Numbers: parse_number, on the bytes of the token.
-- Cpp.Conditionals: the stack of #if in preprocess, preprocess_skip, and the macro that guards a file,
-- on the lines of one file. The value of an expression of #if or #elif (expr_preprocess) is a
-- parameter that sees only which names are defined, and the errors of expressions are not modelled.
-- Cpp.Labels: label_find and label_push.
-- Cpp.Macros: macro_subst, macro_subst_tok, macro_arg_subst, macro_twosharps and next, on lists of
-- tokens. get_tok_str, the lexer that reads pasted text, and the texts of __LINE__ and its like are
-- fields of the environment. Since `*can_read_stream` is a stack of levels, a level that was left is
-- known by the length of that stack. Arguments, expansion and next run on one fuel.
-- Cpp.Defines: the stack of macros with the names that are bound to its symbols, and the tokens that
-- parse_define stores.
-- Cpp.Pack: the stack of alignments of #pragma pack.
--
-- Gen (tccgen.c, x86_64-gen.c, arm-gen.c)
-- Gen.Opic: gen_opic, on 64-bit patterns. Where the host's C leaves a result open, the outcome is a
-- value of its own.
-- Gen.Scope: sym_push2, sym_find2, sym_push, sym_pop and the mark that block sets, with symbols
-- numbered in the order of their allocation, and the fields sym_identifier and sym_struct of the
-- names as functions of the token.
-- Gen.Jumps: g, o, oad, gjmp, gsym and the part of gtst that joins chains of jumps, on x86_64. The
-- bytes of the text section are a function of the address.
-- Gen.Types: type_size, compare_types and is_compatible_func, for x86_64.
-- Gen.Branch: encbranch and decbranch, for ARM.
--
-- Asm (tccasm.c)
-- Asm.Expr: the expressions of the assembler, with strtoul and snprintf as parameters. Asm.Expr.Grammar
-- is the grammar with its meaning.
-- Asm.Label: asm_new_label1.
--
-- Runtime (lib/libtcc1.c)
-- Runtime.Shifts: __ashldi3, __lshrdi3 and __ashrdi3 on the two words of a number.
--
-- Loops of the source that are not structural run on fuel: the length of the symbol list for a hash
-- chain, the requested size for a doubling loop, the length of the text for a string with escapes,
-- 64 for the shifts of a 64-bit number, 2 ^ 31 for the length of a string, which is an int, the
-- number of the tokens for the assembler's parser, the number of bytes of code for a chain of
-- jumps, the number of the topmost symbol for a stack of symbols. The theorems about them are about
-- the functions with that fuel, so they say that it is enough.
--
-- Allocation does not fail in the model. Not modelled: the C parser, the rest of code generation for a processor, the directives of the assembler, the output
-- of files, and the other object formats. lib/libtcc1.c copies its division from libgcc.
pub mod Prelude
pub mod Elf
pub mod Bcheck
pub mod Cpp
pub mod Gen
pub mod Asm
pub mod Runtime
pub mod Tests
