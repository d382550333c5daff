-- ===== src/Elf/Resolve/Outcome.antt =====
-- Which definition of a name add_elf_sym keeps, and that the table stays searchable.
use inherpreter.Prelude.{
  ℕ, ◌<◌, ◌≡◌, ap, ◌∙◌, ◌≢◌, ◌⊎◌, inl, inr, Bool, true, false, not, ◌&&◌, none, some, List, arith,
  ◌==◌, if◌then◌else◌, ==_iff, ==_refl, Bool-cases, length, get_or, set, get_or-append_right,
  get_or-set,
}
use inherpreter.Elf.Name.{same_name, same_name-eq, same_name_refl}
use inherpreter.Elf.Section.Text.{IsText}
use inherpreter.Elf.Symtab.{
  ElfSym, Symtab, st_bind, st_type, pack_info, stb_local, null_sym, put_elf_sym, find_elf_sym,
}
use inherpreter.Elf.Symtab.Lookup.{IsValid}
use inherpreter.Elf.Symtab.Adding.{
  added, result_parts, put_elf_sym-IsValid, find_elf_sym-put_elf_sym,
}
use inherpreter.Elf.Resolve.{
  shn_undef, shn_common, stb_global, stb_weak, Linker, choose, set_sym, do_def, add_elf_sym,
  get_elf_sym_addr,
}
use inherpreter.Elf.Resolve.Patch.{set_sym_lem, find_elf_sym-IsFound}
use inherpreter.Elf.Resolve.Definitions.{patched, acted, merged, merge_sym-merged, merged-Replaces}

set-get_or :
    (syms : List ElfSym) (i : ℕ) (x : ElfSym)
    → i < length syms
    → get_or (set syms i x) i null_sym ≡ x
set-get_or syms i x h = get_or-set syms i i x null_sym h ∙ rw (==_refl i)

module _ (k : Linker) (is_dynsym : Bool) (value size info other sh_num : ℕ) (name : List ℕ)
    (v : IsValid k.table) (text : IsText name) where
  abbrev result : Linker × ℕ
  result = add_elf_sym k is_dynsym value size info other sh_num name

  abbrev index : ℕ
  index = find_elf_sym k.table name

  abbrev info' : ℕ
  info' = pack_info (st_bind info) (st_type info)

  info_bind : st_bind info' ≡ st_bind info
  info_bind = omega arith

  -- Where the name is local or not known, the symbol is added.
  result_def :
      ((st_bind info == stb_local) ≡ true) ⊎ (index ≡ 0)
      → (result.0.table ≡ (put_elf_sym k.table value size info' other sh_num name).0)
        × (result.1 ≡ length k.table.syms)
  unfolding add_elf_sym do_def put_elf_sym
  result_def h = (ground arith, ground arith)

  abbrev new_sym : ElfSym
  new_sym = merged is_dynsym (get_or k.table.syms index null_sym) value size info other sh_num

  -- Where the name is known, the symbol at its index is changed.
  result_merge :
      (st_bind info == stb_local) ≡ false
      → 0 < index
      → (result.0.table ≡ set_sym k.table index new_sym) × (result.1 ≡ index)
  unfolding add_elf_sym
  result_merge e pos =
      let known : (index == 0) ≡ false = ground arith in
      (
        rw (e, known) (merge_sym-merged k is_dynsym index value size info other sh_num name),
        rw (e, known),
      )

  abbrev FindsAll : Type 0
  FindsAll =
      IsValid result.0.table
      × ((q : List ℕ)
          → find_elf_sym result.0.table q ≡ (
              if not (st_bind info == stb_local) && same_name q name
              then result.1
              else find_elf_sym k.table q))

  finds_def : ((st_bind info == stb_local) ≡ true) ⊎ (index ≡ 0) → FindsAll
  finds_def h =
      let (e, n) = result_def h in
      (
        rw e (put_elf_sym-IsValid k.table value size info' other sh_num name v text),
        λ q.
            rw (e, n)
              (find_elf_sym-put_elf_sym k.table value size info' other sh_num name q v text
                ∙ rw info_bind),
      )

  merge_facts :
      (st_bind info == stb_local) ≡ false
      → 0 < index
      → IsValid (set_sym k.table index new_sym)
        × ((q : List ℕ) → find_elf_sym (set_sym k.table index new_sym) q ≡ find_elf_sym k.table q)
  merge_facts e pos = set_sym_lem k.table index new_sym v pos (
      merged-Replaces k is_dynsym index value size info other sh_num name e
        (find_elf_sym-IsFound k.table name v pos).1)

  finds_merge : (st_bind info == stb_local) ≡ false → 0 < index → FindsAll
  finds_merge e pos =
      let (t, n) = result_merge e pos in
      let (v', f) = merge_facts e pos in
      (
        rw t v',
        λ q.
            rw (t, n, e)
              (f q ∙ elim (Bool-cases (same_name q name)) [
                | inl s ↦ rw s (ap (find_elf_sym k.table) (same_name-eq q name s))
                | inr s ↦ rw s
              ]),
      )

  finds_all : FindsAll
  finds_all = elim (Bool-cases (st_bind info == stb_local)) [
    | inl e ↦ finds_def (inl e)
    | inr e ↦ elim (Bool-cases (index == 0)) [
      | inl z ↦ finds_def (inr ((==_iff index 0).0 z))
      | inr z ↦ finds_merge e (ground arith)
    ]
  ]

  -- The address of the name after it was added.
  addr_def :
      (err : Bool)
      → (st_bind info == stb_local) ≡ false
      → index ≡ 0
      → sh_num ≢ shn_undef
      → get_elf_sym_addr result.0.table name err ≡ some value
  unfolding get_elf_sym_addr added
  addr_def err e z d =
      let (t, n) = result_def (inr z) in
      let at_name : find_elf_sym result.0.table name ≡ length k.table.syms =
        finds_all.1 name ∙ (rw (e, same_name_refl name) n) in
      let at_end : get_or result.0.table.syms (length k.table.syms) null_sym
          ≡ added k.table value size info' other sh_num name =
        rw (t, (result_parts k.table value size info' other sh_num name v text).0)
          (get_or-append_right k.table.syms _ 0 (length k.table.syms) null_sym (omega arith)) in
      let pos : 0 < length k.table.syms = rw (v.first.1) (omega arith) in
      rw (at_name, at_end) (ground arith)

  -- The address of the name after a merge.
  addr_merge :
      (err : Bool)
      → (st_bind info == stb_local) ≡ false
      → 0 < index
      → new_sym.st_shndx ≢ shn_undef
      → get_elf_sym_addr result.0.table name err ≡ some new_sym.st_value
  unfolding get_elf_sym_addr
  addr_merge err e pos d =
      let (t, n) = result_merge e pos in
      let (v', f) = merge_facts e pos in
      let lt = (find_elf_sym-IsFound k.table name v pos).0 in
      rw (t, f name, set-get_or k.table.syms index new_sym lt) (ground arith)

module _ (is_dynsym : Bool) (esym : ElfSym) (value size info other sh_num : ℕ) where
  abbrev new : ElfSym
  new = merged is_dynsym esym value size info other sh_num

  merged_undef : esym.st_shndx ≡ shn_undef → (new.st_value ≡ value) × (new.st_shndx ≡ sh_num)
  unfolding merged patched
  merged_undef u = (ground arith, ground arith)

  merged_strong :
      esym.st_shndx ≢ shn_undef
      → st_bind esym.st_info ≡ stb_global
      → esym.st_shndx ≢ shn_common
      → (new.st_value ≡ esym.st_value) × (new.st_shndx ≡ esym.st_shndx)
  unfolding merged acted choose
  merged_strong d s c = (ground arith, ground arith)

  merged_weak :
      esym.st_shndx ≢ shn_undef
      → st_bind esym.st_info ≡ stb_weak
      → st_bind info ≡ stb_global
      → sh_num ≢ shn_undef
      → (new.st_value ≡ value) × (new.st_shndx ≡ sh_num)
  unfolding merged acted choose patched
  merged_weak d w s n = (ground arith, ground arith)

-- add_elf_sym, with a C string for a name, keeps a valid table valid. Afterwards the index that it
-- returned is found under the name, if the symbol is not local; every other name is found where it
-- was before.
pub find_elf_sym-add_elf_sym :
    (k : Linker) (is_dynsym : Bool) (value size info other sh_num : ℕ) (name : List ℕ)
    → IsValid k.table
    → IsText name
    → let r = add_elf_sym k is_dynsym value size info other sh_num name in
      IsValid r.0.table
      × ((q : List ℕ)
          → find_elf_sym r.0.table q ≡ (
              if not (st_bind info == stb_local) && same_name q name
              then r.1
              else find_elf_sym k.table q))
find_elf_sym-add_elf_sym k is_dynsym value size info other sh_num name v text =
    finds_all k is_dynsym value size info other sh_num name v text

-- The symbol that the table has for a name, `null_sym` at index 0 if it has none.
abbrev pub sym_of : Symtab → List ℕ → ElfSym
sym_of s name = get_or s.syms (find_elf_sym s name) null_sym

abbrev pub IsDefined : Symtab → List ℕ → Type 0
IsDefined s name = (0 < find_elf_sym s name) × ((sym_of s name).st_shndx ≢ shn_undef)

-- In a valid table, a strong definition that is not common is final: whatever symbol that is not
-- local is added under its name, its address stays the same.
pub strong_kept :
    (k : Linker) (is_dynsym err : Bool) (value size info other sh_num : ℕ) (name : List ℕ)
    → IsValid k.table
    → IsText name
    → IsDefined k.table name
    → st_bind (sym_of k.table name).st_info ≡ stb_global
    → (sym_of k.table name).st_shndx ≢ shn_common
    → st_bind info ≢ stb_local
    → get_elf_sym_addr (add_elf_sym k is_dynsym value size info other sh_num name).0.table name err
      ≡ get_elf_sym_addr k.table name err
unfolding get_elf_sym_addr
strong_kept k is_dynsym err value size info other sh_num name v text (pos, d) strong common
      nonlocal =
    let (a, b) =
      merged_strong is_dynsym (sym_of k.table name) value size info other sh_num d strong common in
    addr_merge k is_dynsym value size info other sh_num name v text err (ground arith) pos (rw b d)
    ∙ (rw a (ground arith))

-- In a valid table, a definition, not local, of a name that the table does not know, or only as
-- undefined, gives the name its value.
pub undefined_resolved :
    (k : Linker) (is_dynsym err : Bool) (value size info other sh_num : ℕ) (name : List ℕ)
    → IsValid k.table
    → IsText name
    → get_elf_sym_addr k.table name true ≡ none
    → st_bind info ≢ stb_local
    → sh_num ≢ shn_undef
    → get_elf_sym_addr (add_elf_sym k is_dynsym value size info other sh_num name).0.table name err
      ≡ some value
unfolding get_elf_sym_addr
undefined_resolved k is_dynsym err value size info other sh_num name v text undef nonlocal def =
    let e : (st_bind info == stb_local) ≡ false = ground arith in
    elim (Bool-cases (find_elf_sym k.table name == 0)) [
      | inl z ↦
          addr_def k is_dynsym value size info other sh_num name v text err e (ground arith) def
      | inr z ↦
          let u : (sym_of k.table name).st_shndx ≡ shn_undef = ground arith in
          let (a, b) =
            merged_undef is_dynsym (sym_of k.table name) value size info other sh_num u in
          addr_merge k is_dynsym value size info other sh_num name v text err e (ground arith)
            (rw b def)
          ∙ ap some a
    ]

-- In a valid table, a strong definition of a name that has a weak definition gives the name its
-- value.
pub strong-replaces-weak :
    (k : Linker) (is_dynsym err : Bool) (value size info other sh_num : ℕ) (name : List ℕ)
    → IsValid k.table
    → IsText name
    → IsDefined k.table name
    → st_bind (sym_of k.table name).st_info ≡ stb_weak
    → st_bind info ≡ stb_global
    → sh_num ≢ shn_undef
    → get_elf_sym_addr (add_elf_sym k is_dynsym value size info other sh_num name).0.table name err
      ≡ some value
strong-replaces-weak k is_dynsym err value size info other sh_num name v text (pos, d) weak strong
      def =
    let (a, b) =
      merged_weak is_dynsym (sym_of k.table name) value size info other sh_num d weak strong def in
    addr_merge k is_dynsym value size info other sh_num name v text err (ground arith) pos
      (rw b def)
    ∙ ap some a
