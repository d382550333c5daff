-- ===== src/Elf/Symtab/Lookup.antt =====
-- Looking a name up, and adding a symbol, against the list of entries.
use inherpreter.Prelude.{
  ℕ, zero, suc, ◌+◌, ◌%◌, ◌≤◌, ◌≡◌, refl, sym, ap, ◌∙◌, inl, inr, true, none, some, List, [], ◌∷◌,
  ◌++◌, append_assoc, arith, ◌==◌, if◌then◌else◌, ==_iff, Bool-cases, length, get_or, length-append,
  get_or-append_right,
}
use inherpreter.Elf.Name.{elf_hash, same_name, same_name-eq}
use inherpreter.Elf.Section.{Section, contents, Fits}
use inherpreter.Elf.Section.Text.{c_string, c_string-append}
use inherpreter.Elf.Symtab.{
  ElfSym, Symtab, st_bind, stb_local, null_sym, name_of, find_in_chain, find_elf_sym,
}
use inherpreter.Elf.Symtab.Chains.{
  Entry, matches, in_bucket, latest, members, length-members-le, Linked, Holds,
}

unfoldable pub entry_of : Section → ElfSym → Entry
entry_of strtab sym = if st_bind sym.st_info == stb_local then none else some (name_of strtab sym)

unfoldable pub entries_of : Section → List ElfSym → List Entry
entries_of strtab [] = []
entries_of strtab (sym ∷ syms) = entry_of strtab sym ∷ entries_of strtab syms

pub length-entries_of :
    (l : Section) (syms : List ElfSym) → length (entries_of l syms) ≡ length syms
unfolding entries_of
length-entries_of l [] = refl
length-entries_of l (s ∷ syms) = ap suc (length-entries_of l syms)

pub entries_of-append :
    (l : Section) (xs ys : List ElfSym)
    → entries_of l (xs ++ ys) ≡ entries_of l xs ++ entries_of l ys
unfolding entries_of
entries_of-append l [] ys = refl
entries_of-append l (x ∷ xs) ys = ap (◌∷◌ (entry_of l x)) (entries_of-append l xs ys)

abbrev pub HasName : Section → ElfSym → Type 0
HasName l sym = (t : List ℕ) × (c_string (contents l) sym.st_name ≡ some t)

abbrev pub Named : Section → List ElfSym → Type 0
Named l [] = Unit {0}
Named l (sym ∷ syms) = HasName l sym × Named l syms

-- The first symbol is the null symbol, every name lies in the string table, and the hash table
-- holds the names of the symbols that are not local.
pub record IsValid (s : Symtab) : Type 0 where
  pub link_fits : Fits s.link
  pub named : Named s.link s.syms
  pub first : (rest : List ElfSym) × (s.syms ≡ null_sym ∷ rest)
  pub holds : Holds s.hash (entries_of s.link s.syms)

-- What a table maps a name to: the index of the last symbol of that name that is not local, or 0.
unfoldable pub lookup : Symtab → List ℕ → ℕ
lookup s name = latest name 0 (entries_of s.link s.syms) 0

-- The first of the indices at which the name stands.
first_match : Symtab → List ℕ → List ℕ → ℕ
first_match s name [] = 0
first_match s name (j ∷ js) =
    if same_name name (name_of s.link (get_or s.syms j null_sym)) then j else first_match s name js

find_in_chain-first_match :
    (s : Symtab) (name : List ℕ) (fuel i : ℕ) (js : List ℕ)
    → length js ≤ fuel
    → Linked s.hash.chain i js
    → find_in_chain s name fuel i ≡ first_match s name js
unfolding find_in_chain first_match
find_in_chain-first_match s name zero i [] h l = refl
find_in_chain-first_match s name zero i (j ∷ js) h l = absurd (omega arith)
find_in_chain-first_match s name (suc fuel) i [] h l = ground arith
find_in_chain-first_match s name (suc fuel) i (j ∷ js) h (e, pos, small, rest) = rw e (
    ground (
      arith,
      find_in_chain-first_match s name fuel (get_or s.hash.chain j 0) js (omega arith) rest,
    ))

-- `es` are the entries of the symbols from index `i` on.
abbrev Keys : Symtab → ℕ → List Entry → Type 0
Keys s i [] = Unit {0}
Keys s i (e ∷ es) =
    ((n : List ℕ) → e ≡ some n → name_of s.link (get_or s.syms i null_sym) ≡ n) × Keys s (i + 1) es

same_bucket :
    (name n : List ℕ) (nb : ℕ)
    → same_name name n ≡ true
    → in_bucket nb (elf_hash name % nb) (some n) ≡ true
unfolding in_bucket
same_bucket name n nb e =
    (==_iff (elf_hash n % nb) (elf_hash name % nb)).1
      (ap (λ t. elf_hash t % nb) (sym (same_name-eq name n e)))

first_match-members :
    (s : Symtab) (name : List ℕ) (nb i : ℕ) (es : List Entry) (js : List ℕ)
    → Keys s i es
    → first_match s name (members nb (elf_hash name % nb) i es js)
      ≡ latest name i es (first_match s name js)
unfolding members latest first_match matches in_bucket
first_match-members s name nb i [] js k = refl
first_match-members s name nb i (none ∷ es) js (k, ks) =
    first_match-members s name nb (i + 1) es js ks
first_match-members s name nb i (some n ∷ es) js (k, ks) =
    let here : name_of s.link (get_or s.syms i null_sym) ≡ n = k n refl in
    let ih = λ (js' : List ℕ). first_match-members s name nb (i + 1) es js' ks in
    let b = in_bucket nb (elf_hash name % nb) (some n) in
    elim (Bool-cases (same_name name n)) [
      | inl e ↦ rw (same_bucket name n nb e) (ih (i ∷ js) ∙ rw (here, e))
      | inr e ↦ elim (Bool-cases b) [
        | inl f ↦ rw f (ih (i ∷ js) ∙ rw (here, e))
        | inr f ↦ rw f (ih js ∙ rw e)
      ]
    ]

pub Named-name_of :
    (l : Section) (sym : ElfSym) (more : List ℕ) (l' : Section)
    → contents l' ≡ contents l ++ more
    → HasName l sym
    → HasName l' sym × (name_of l' sym ≡ name_of l sym)
unfolding name_of
Named-name_of l sym more l' grown (t, e) =
    let e' : c_string (contents l') sym.st_name ≡ some t =
      rw grown (c_string-append (contents l) more sym.st_name e) in
    ((t, e'), rw (e, e'))

append-cons :
    (xs : List ElfSym) (y : ElfSym) (ys : List ElfSym) → xs ++ y ∷ ys ≡ (xs ++ y ∷ []) ++ ys
append-cons xs y ys = sym (append_assoc xs (y ∷ []) ys)

Keys-entries_of :
    (s : Symtab) (i : ℕ) (before after : List ElfSym)
    → s.syms ≡ before ++ after
    → i ≡ length before
    → Keys s i (entries_of s.link after)
unfolding entries_of entry_of
Keys-entries_of s i before [] e h = tt
Keys-entries_of s i before (sym ∷ after) e h =
    let at_i : get_or s.syms i null_sym ≡ sym =
      rw e (get_or-append_right before (sym ∷ after) 0 i null_sym (omega arith)) in
    (
      λ n q. rw at_i (ground arith),
      Keys-entries_of s (i + 1) (before ++ sym ∷ []) after (e ∙ append-cons before sym after)
          (omega (arith, length-append before (sym ∷ []))),
    )

-- On a valid table the hashed search returns what a scan of all the symbols would return.
pub find_elf_sym-lookup :
    (s : Symtab) (name : List ℕ) → IsValid s → find_elf_sym s name ≡ lookup s name
unfolding find_elf_sym lookup first_match
find_elf_sym-lookup s name v =
    let es = entries_of s.link s.syms in
    let h = elf_hash name % s.hash.nbuckets in
    find_in_chain-first_match s name (length s.syms) _ (members s.hash.nbuckets h 0 es [])
      (omega (arith, length-members-le s.hash.nbuckets h 0 es [], length-entries_of s.link s.syms))
      (v.holds.linked h)
    ∙ first_match-members s name s.hash.nbuckets 0 es [] (Keys-entries_of s 0 [] s.syms refl refl)
