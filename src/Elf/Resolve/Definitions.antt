-- ===== src/Elf/Resolve/Definitions.antt =====
-- What add_elf_sym does to the table, and which definition of a name is kept.
use inherpreter.Prelude.{
  ℕ, ◌+◌, ◌*◌, ◌/◌, ◌≡◌, refl, inl, inr, Bool, false, List, arith, ◌==◌, if◌then◌else◌, Bool-cases,
  get_or,
}
use inherpreter.Elf.Symtab.{ElfSym, st_bind, st_type, pack_info, stb_local, null_sym}
use inherpreter.Elf.Resolve.{
  shn_undef, st_visibility, Linker, new_visibility, Action, keep, patch, report, choose, set_sym,
  do_patch, act, merge_sym,
}
use inherpreter.Elf.Resolve.Patch.{set-set, Replaces}

-- The symbol that stands at the index after do_patch, and after each action.
unfoldable pub patched : (esym : ElfSym) (value size info other sh_num : ℕ) → ElfSym
patched esym value size info other sh_num = record {
  st_name = esym.st_name;
  st_value = value;
  st_size = size;
  st_info = pack_info (st_bind info) (st_type info);
  st_other = other;
  st_shndx = sh_num;
}

unfoldable pub acted : Action → (esym : ElfSym) (value size info other sh_num : ℕ) → ElfSym
acted patch esym value size info other sh_num = patched esym value size info other sh_num
acted _ esym value size info other sh_num = record esym { st_other = other }

unfoldable pub merged_other : ElfSym → ℕ → ℕ
merged_other esym other =
    esym.st_other / 4 * 4 + new_visibility (st_visibility esym.st_other) (st_visibility other)

unfoldable pub merged :
    (is_dynsym : Bool) (esym : ElfSym) (value size info other sh_num : ℕ) → ElfSym
merged is_dynsym esym value size info other sh_num =
    if esym.st_shndx == shn_undef
    then patched esym value size info other sh_num
    else acted (choose is_dynsym esym (st_bind info) (st_visibility other) sh_num) esym value size
        info (merged_other esym other) sh_num

module _ (k : Linker) (i value size info sh_num : ℕ) (name : List ℕ) where
  abbrev old : ElfSym
  old = get_or k.table.syms i null_sym

  act-acted :
      (a : Action) (other : ℕ)
      → (act a
          (record k { table = set_sym k.table i (record old { st_other = other }) })
          i
          (record old { st_other = other })
          value
          size
          info
          other
          sh_num
          name).table
        ≡ set_sym k.table i (acted a old value size info other sh_num)
  unfolding act do_patch acted patched
  act-acted keep other = refl
  act-acted patch other = rw set-set
  act-acted report other = refl

module _ (k : Linker) (is_dynsym : Bool) (i value size info other sh_num : ℕ) (name : List ℕ) where
  abbrev pub esym_at : ElfSym
  esym_at = get_or k.table.syms i null_sym

  -- A merge changes the table at that index only.
  pub merge_sym-merged :
      (merge_sym k is_dynsym i value size info other sh_num name).table
      ≡ set_sym k.table i (merged is_dynsym esym_at value size info other sh_num)
  unfolding merge_sym merged do_patch patched choose merged_other
  merge_sym-merged = elim (Bool-cases (esym_at.st_shndx == shn_undef)) [
    | inl e ↦ rw e
    | inr e ↦ rw e (act-acted k i value size info sh_num name _ (merged_other esym_at other))
  ]

  acted-Replaces :
      (a : Action) (o : ℕ)
      → (st_bind info == stb_local) ≡ false
      → (st_bind esym_at.st_info == stb_local) ≡ false
      → Replaces (acted a esym_at value size info o sh_num) esym_at
  unfolding acted patched
  acted-Replaces patch o e f = (refl, ground arith)
  acted-Replaces _ o e f = (refl, refl)

  pub merged-Replaces :
      (st_bind info == stb_local) ≡ false
      → (st_bind esym_at.st_info == stb_local) ≡ false
      → Replaces (merged is_dynsym esym_at value size info other sh_num) esym_at
  unfolding merged
  merged-Replaces e f = elim (Bool-cases (esym_at.st_shndx == shn_undef)) [
    | inl u ↦ rw u (unfold acted in acted-Replaces patch other e f)
    | inr u ↦ rw u (acted-Replaces _ (merged_other esym_at other) e f)
  ]
