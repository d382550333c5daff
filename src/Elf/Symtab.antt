-- ===== src/Elf/Symtab.antt =====
-- Symbol tables with their hash (tccelf.c: put_elf_sym, find_elf_sym, rebuild_hash, new_symtab).
-- The int array `[nbucket, nchain, bucket..., chain...]` of the hash section is a record: `nchain`
-- is the length of `chain`, and to add a word to the section is to add one to `chain`.
pub mod Chains
pub mod Lookup
pub mod Adding
use inherpreter.Prelude.{
  ℕ, zero, suc, ◌+◌, ◌*◌, ◌/◌, ◌%◌, sym, Option, none, some, List, [], ◌∷◌, ◌++◌, ltb, ◌==◌,
  if◌then◌else◌, length, get_or, set, drop, replicate,
}
use inherpreter.Elf.Section.{Section, put_elf_str, contents}
use inherpreter.Elf.Section.Text.{c_string}
use inherpreter.Elf.Name.{elf_hash, same_name}

pub record ElfSym : Type 0 where
  pub st_name : ℕ
  pub st_value : ℕ
  pub st_size : ℕ
  pub st_info : ℕ
  pub st_other : ℕ
  pub st_shndx : ℕ

pub record HashTable : Type 0 where
  pub nbuckets : ℕ
  pub buckets : List ℕ
  pub chain : List ℕ
  pub nb_hashed_syms : ℕ

pub record Symtab : Type 0 where
  pub syms : List ElfSym
  pub link : Section
  pub hash : HashTable

-- ELF64_ST_BIND, ELF64_ST_TYPE and ELF64_ST_INFO
abbrev pub st_bind : ℕ → ℕ
st_bind info = info / 16

abbrev pub st_type : ℕ → ℕ
st_type info = info % 16

abbrev pub pack_info : ℕ → ℕ → ℕ
pack_info bind type = bind * 16 + type % 16

abbrev pub stb_local : ℕ
stb_local = 0

abbrev pub null_sym : ElfSym
null_sym = record {
  st_name = 0;
  st_value = 0;
  st_size = 0;
  st_info = 0;
  st_other = 0;
  st_shndx = 0;
}

abbrev pub or_empty : Option (List ℕ) → List ℕ
or_empty none = []
or_empty (some t) = t

-- `strtab + sym->st_name`, read as a C string.
unfoldable pub name_of : Section → ElfSym → List ℕ
name_of strtab sym = or_empty (c_string (contents strtab) sym.st_name)

-- One round of the loop of rebuild_hash, for the symbol of index `sym_index`.
unfoldable pub hash_sym : Section → ℕ → ElfSym → HashTable → HashTable
hash_sym strtab sym_index sym t =
    if st_bind sym.st_info == stb_local
    then record t { chain = t.chain ++ 0 ∷ [] }
    else let h = elf_hash (name_of strtab sym) % t.nbuckets in
      record t { chain = t.chain ++ get_or t.buckets h 0 ∷ []; buckets = set t.buckets h sym_index }

unfoldable pub hash_syms : Section → ℕ → List ElfSym → HashTable → HashTable
unfolding hash_sym
hash_syms strtab sym_index [] t = t
hash_syms strtab sym_index (sym ∷ syms) t =
    hash_syms strtab (sym_index + 1) syms (hash_sym strtab sym_index sym t)

-- The first symbol, `sym = data + 1`, is passed over: its chain word is the last of the memset.
unfoldable pub rebuild_hash : Symtab → ℕ → Symtab
unfolding hash_syms
rebuild_hash s nb_buckets = record s {
  hash = hash_syms s.link 1 (drop 1 s.syms) (record {
    nbuckets = nb_buckets;
    buckets = replicate nb_buckets 0;
    chain = 0 ∷ [];
    nb_hashed_syms = s.hash.nb_hashed_syms;
  });
}

-- Adds the symbol, and returns its index. `name` is not NULL.
unfoldable pub put_elf_sym :
    Symtab → (value size info other shndx : ℕ) → (name : List ℕ) → Symtab × ℕ
put_elf_sym s value size info other shndx name =
    let (link, name_offset) = put_elf_str s.link name in
    let sym : ElfSym = record {
      st_name = name_offset;
      st_value = value;
      st_size = size;
      st_info = info;
      st_other = other;
      st_shndx = shndx;
    } in
    let sym_index = length s.syms in
    let syms = s.syms ++ sym ∷ [] in
    let hs = s.hash in
    if st_bind info == stb_local
    then (
      record { syms = syms; link = link; hash = record hs { chain = hs.chain ++ 0 ∷ [] } },
      sym_index,
    )
    else let h = elf_hash name % hs.nbuckets in
      let hs1 = record hs {
        chain = hs.chain ++ get_or hs.buckets h 0 ∷ [];
        buckets = set hs.buckets h sym_index;
        nb_hashed_syms = hs.nb_hashed_syms + 1;
      } in
      let s1 : Symtab = record { syms = syms; link = link; hash = hs1 } in
      (
        if ltb (2 * hs.nbuckets) (hs.nb_hashed_syms + 1)
            then rebuild_hash s1 (2 * hs.nbuckets)
            else s1,
        sym_index,
      )

-- `while (sym_index != 0)`, on fuel.
unfoldable pub find_in_chain : Symtab → List ℕ → ℕ → ℕ → ℕ
find_in_chain s name zero sym_index = 0
find_in_chain s name (suc fuel) sym_index =
    let rest = find_in_chain s name fuel (get_or s.hash.chain sym_index 0) in
    if sym_index == 0
    then 0
    else if same_name name (name_of s.link (get_or s.syms sym_index null_sym))
    then sym_index
    else rest

unfoldable pub find_elf_sym : Symtab → List ℕ → ℕ
unfolding find_in_chain
find_elf_sym s name =
    let h = elf_hash name % s.hash.nbuckets in
    find_in_chain s name (length s.syms) (get_or s.hash.buckets h 0)

-- A table with the null symbol and the empty name, and one bucket.
unfoldable pub new_symtab : Symtab
unfolding put_elf_str
new_symtab = record {
  syms = null_sym ∷ [];
  link = (put_elf_str (record { bytes = []; data_offset = 0 }) []).0;
  hash = record { nbuckets = 1; buckets = 0 ∷ []; chain = 0 ∷ []; nb_hashed_syms = 0 };
}
