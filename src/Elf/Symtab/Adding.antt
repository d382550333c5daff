-- ===== src/Elf/Symtab/Adding.antt =====
-- Adding a symbol to a valid table, with the rebuilding of the hash.
use inherpreter.Prelude.{
  ℕ, ◌+◌, ◌*◌, ◌<◌, ◌≡◌, refl, sym, ap, ◌∙◌, ◌⊎◌, inl, inr, not, ◌&&◌, none, some, List, [], ◌∷◌,
  ◌++◌, append_assoc, append-nil, arith, ltb, ◌==◌, if◌then◌else◌, Bool-cases, length, replicate,
  length-append, length-replicate, get_or-replicate,
}
use inherpreter.Elf.Section.{
  Section, realloc_size, section_realloc, section_ptr_add, memcpy, put_elf_str, contents,
}
use inherpreter.Elf.Section.Text.{c_string, IsText, put_elf_str_lem, c_string-put_elf_str}
use inherpreter.Elf.Name.{same_name}
use inherpreter.Elf.Symtab.{
  ElfSym, HashTable, Symtab, st_bind, stb_local, null_sym, name_of, hash_sym, hash_syms,
  rebuild_hash, put_elf_sym, find_elf_sym, new_symtab,
}
use inherpreter.Elf.Symtab.Chains.{
  Entry, matches, in_bucket, latest, members, latest-append, Holds, add_entry, Holds-add_entry,
}
use inherpreter.Elf.Symtab.Lookup.{
  entry_of, entries_of, length-entries_of, entries_of-append, HasName, Named, IsValid, lookup,
  Named-name_of, find_elf_sym-lookup,
}

hash_sym-add_entry :
    (l : Section) (i : ℕ) (sym : ElfSym) (t : HashTable)
    → hash_sym l i sym t ≡ add_entry i (entry_of l sym) t
unfolding hash_sym add_entry entry_of
hash_sym-add_entry l i sym t = elim (Bool-cases (st_bind sym.st_info == stb_local)) [
  | inl e ↦ rw e
  | inr e ↦ rw e
]

Holds-hash_syms :
    (l : Section) (syms : List ElfSym) (i : ℕ) (es : List Entry) (t : HashTable)
    → i ≡ length es
    → 0 < length es
    → Holds t es
    → Holds (hash_syms l i syms t) (es ++ entries_of l syms)
unfolding hash_syms entries_of
Holds-hash_syms l [] i es t e pos v = rw append-nil v
Holds-hash_syms l (sym ∷ syms) i es t e pos v =
    let next = Holds-add_entry t es (entry_of l sym) pos v in
    let more = length-append es (entry_of l sym ∷ []) in
    rw
      (hash_sym-add_entry l i sym t, e, ← append_assoc es (entry_of l sym ∷ []) (entries_of l syms))
      (Holds-hash_syms l syms (length es + 1) (es ++ entry_of l sym ∷ []) _ (omega (arith, more))
        (omega (arith, more)) next)

Holds-empty :
    (nb n : ℕ)
    → 0 < nb
    → Holds
        (record { nbuckets = nb; buckets = replicate nb 0; chain = 0 ∷ []; nb_hashed_syms = n })
        (none ∷ [])
unfolding members in_bucket
Holds-empty nb n pos = record {
  some_bucket = pos;
  width = length-replicate nb 0;
  words = refl;
  linked = λ h. get_or-replicate nb h 0;
}

-- Rebuilding the hash of a table that begins with the null symbol, with any positive number of
-- buckets, holds the entries of its symbols.
pub Holds-rebuild_hash :
    (s : Symtab) (nb : ℕ) (rest : List ElfSym)
    → s.syms ≡ null_sym ∷ rest
    → 0 < nb
    → Holds (rebuild_hash s nb).hash (entries_of s.link s.syms)
unfolding rebuild_hash
Holds-rebuild_hash s nb rest first pos = rw first (
    unfold entries_of entry_of in
    Holds-hash_syms s.link rest 1 (none ∷ []) _ refl (omega arith) (Holds-empty nb _ pos))

-- Every symbol that had a name keeps it when the string table grows.
entries_of-grown :
    (l l' : Section) (more : List ℕ) (syms : List ElfSym)
    → contents l' ≡ contents l ++ more
    → Named l syms
    → Named l' syms × (entries_of l' syms ≡ entries_of l syms)
unfolding entries_of entry_of
entries_of-grown l l' more [] grown n = (tt, refl)
entries_of-grown l l' more (sym ∷ syms) grown (h, n) =
    let (h', e) = Named-name_of l sym more l' grown h in
    let (n', es) = entries_of-grown l l' more syms grown n in ((h', n'), rw (e, es))

Named-append :
    (l : Section) (xs : List ElfSym) (y : ElfSym)
    → Named l xs
    → HasName l y
    → Named l (xs ++ y ∷ [])
Named-append l [] y n h = (h, tt)
Named-append l (x ∷ xs) y (h', n) h = (h', Named-append l xs y n h)

-- The symbol that put_elf_sym adds.
unfoldable pub added : Symtab → (value size info other shndx : ℕ) → List ℕ → ElfSym
added s value size info other shndx name = record {
  st_name = (put_elf_str s.link name).1;
  st_value = value;
  st_size = size;
  st_info = info;
  st_other = other;
  st_shndx = shndx;
}

new_entry : ℕ → List ℕ → Entry
new_entry info name = if st_bind info == stb_local then none else some name

module _ (s : Symtab) (value size info other shndx : ℕ) (name : List ℕ) (v : IsValid s)
    (text : IsText name) where
  abbrev pub result : Symtab
  result = (put_elf_sym s value size info other shndx name).0

  abbrev pub link' : Section
  link' = (put_elf_str s.link name).0

  abbrev pub syms' : List ElfSym
  syms' = s.syms ++ added s value size info other shndx name ∷ []

  -- The symbols and the string table of the result, whichever branch is taken.
  pub result_parts : (result.syms ≡ syms') × (result.link ≡ link')
  unfolding put_elf_sym added rebuild_hash
  result_parts = (ground arith, ground arith)

  new_HasName : c_string (contents link') (put_elf_str s.link name).1 ≡ some name
  new_HasName = c_string-put_elf_str s.link name v.link_fits text

  -- The names of the result are the old ones and the new one.
  result-entries :
      Named link' syms'
      × (entries_of link' syms' ≡ entries_of s.link s.syms ++ new_entry info name ∷ [])
  unfolding new_entry added entries_of entry_of name_of
  result-entries =
      let grown = (put_elf_str_lem s.link name v.link_fits).0 in
      let (n, e) = entries_of-grown s.link link' (name ++ 0 ∷ []) s.syms grown v.named in
      (Named-append link' s.syms _ n (name, new_HasName), rw (entries_of-append, e, new_HasName))

  Holds-count :
      (t : HashTable) (es : List Entry) (n : ℕ)
      → Holds t es
      → Holds (record t { nb_hashed_syms = n }) es
  Holds-count t es n h = record {
    some_bucket = h.some_bucket;
    width = h.width;
    words = h.words;
    linked = h.linked;
  }

  result_first : (rest : List ElfSym) × (syms' ≡ null_sym ∷ rest)
  result_first =
      let (rest, e) = v.first in (rest ++ added s value size info other shndx name ∷ [], rw e)

  -- The hash before a rebuild.
  abbrev hashed : HashTable
  hashed = add_entry (length s.syms) (new_entry info name) s.hash

  abbrev counted : Symtab
  counted = record {
    syms = syms';
    link = link';
    hash = record hashed { nb_hashed_syms = s.hash.nb_hashed_syms + 1 };
  }

  result_hash :
      (result.hash ≡ hashed)
      ⊎ (result.hash ≡ counted.hash)
      ⊎ (result.hash ≡ (rebuild_hash counted (2 * s.hash.nbuckets)).hash)
  unfolding put_elf_sym new_entry added add_entry
  result_hash = elim (Bool-cases (st_bind info == stb_local)) [
    | inl e ↦ inl (ground arith)
    | inr e ↦ elim (Bool-cases (ltb (2 * s.hash.nbuckets) (s.hash.nb_hashed_syms + 1))) [
      | inl f ↦ inr (inr (ground arith))
      | inr f ↦ inr (inl (ground arith))
    ]
  ]

  -- The hash of the result holds the old entries and the new one.
  result-Holds : Holds result.hash (entries_of link' syms')
  result-Holds =
      let es = entries_of s.link s.syms in
      let pos : 0 < length es = rw (length-entries_of s.link s.syms, v.first.1) (omega arith) in
      let next =
        rw (length-entries_of s.link s.syms) at
          (Holds-add_entry s.hash es (new_entry info name) pos v.holds) in
      let next' = rw (← result-entries.1) at next in
      elim result_hash [
        | inl e ↦ rw e next'
        | inr (inl e) ↦ rw e (Holds-count _ _ (s.hash.nb_hashed_syms + 1) next')
        | inr (inr e) ↦ rw e (
            Holds-rebuild_hash counted (2 * s.hash.nbuckets) result_first.0 result_first.1
              (omega (arith, v.holds.some_bucket)))
      ]

  result-IsValid : IsValid result
  result-IsValid =
      let (syms_eq, link_eq) = result_parts in
      record {
        link_fits = rw link_eq ((put_elf_str_lem s.link name v.link_fits).2);
        named = rw (link_eq, syms_eq) result-entries.0;
        first = (result_first.0, syms_eq ∙ result_first.1);
        holds = rw (link_eq, syms_eq) result-Holds;
      }

  result-lookup :
      (q : List ℕ)
      → lookup result q ≡ (
          if not (st_bind info == stb_local) && same_name q name then length s.syms else lookup s q)
  unfolding lookup new_entry matches
  result-lookup q =
      let (syms_eq, link_eq) = result_parts in
      let es = entries_of s.link s.syms in
      rw
        (
          syms_eq,
          link_eq,
          result-entries.1,
          latest-append q 0 es (new_entry info name) 0,
          length-entries_of s.link s.syms,
        )
        (elim (Bool-cases (st_bind info == stb_local)) [
          | inl e ↦ rw e
          | inr e ↦ rw e (ap (λ n. if same_name q name then n else latest q 0 es 0) (omega arith))
        ])

-- Adding a symbol with a C string for a name to a valid table gives a valid table, also where the
-- hash is rebuilt.
pub put_elf_sym-IsValid :
    (s : Symtab) (value size info other shndx : ℕ) (name : List ℕ)
    → IsValid s
    → IsText name
    → IsValid (put_elf_sym s value size info other shndx name).0
put_elf_sym-IsValid s value size info other shndx name v text =
    result-IsValid s value size info other shndx name v text

-- After put_elf_sym on a valid table, with a C string for a name, a search for a name finds the new
-- symbol if it is not local and has that name, and finds what it found before otherwise.
pub find_elf_sym-put_elf_sym :
    (s : Symtab) (value size info other shndx : ℕ) (name q : List ℕ)
    → IsValid s
    → IsText name
    → find_elf_sym (put_elf_sym s value size info other shndx name).0 q ≡ (
        if not (st_bind info == stb_local) && same_name q name
        then length s.syms
        else find_elf_sym s q)
find_elf_sym-put_elf_sym s value size info other shndx name q v text =
    rw
      (
        find_elf_sym-lookup _ q (result-IsValid s value size info other shndx name v text),
        find_elf_sym-lookup s q v,
      )
      (result-lookup s value size info other shndx name v text q)

-- The table that new_symtab makes is valid, and no name is found in it.
pub new_symtab-IsValid : IsValid new_symtab × ((q : List ℕ) → find_elf_sym new_symtab q ≡ 0)
unfolding new_symtab members in_bucket entries_of entry_of put_elf_str section_ptr_add
    section_realloc memcpy realloc_size c_string matches latest lookup
new_symtab-IsValid =
    let v : IsValid new_symtab = record {
      link_fits = omega arith;
      named = (([], refl), tt);
      first = ([], refl);
      holds = record {
        some_bucket = omega arith;
        width = refl;
        words = refl;
        linked = λ h. get_or-replicate 1 h 0;
      };
    } in
    (v, λ q. find_elf_sym-lookup new_symtab q v ∙ refl)
