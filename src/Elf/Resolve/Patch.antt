-- ===== src/Elf/Resolve/Patch.antt =====
-- Changing a symbol in place.
use inherpreter.Prelude.{
  ℕ, zero, suc, ◌+◌, ◌<◌, ◌≡◌, refl, sym, ap, ◌∙◌, subst, ◌⊎◌, inl, inr, true, false, List, [], ◌∷◌,
  arith, ◌==◌, if◌then◌else◌, Bool-cases, length, get_or, set,
}
use inherpreter.Elf.Name.{same_name}
use inherpreter.Elf.Section.{Section}
use inherpreter.Elf.Symtab.{ElfSym, Symtab, st_bind, stb_local, null_sym, name_of, find_elf_sym}
use inherpreter.Elf.Symtab.Chains.{matches, latest}
use inherpreter.Elf.Symtab.Lookup.{
  entry_of, entries_of, Named, IsValid, lookup, find_elf_sym-lookup,
}
use inherpreter.Elf.Resolve.{set_sym}

pub set-set : (xs : List ElfSym) (i : ℕ) (a b : ElfSym) → set (set xs i a) i b ≡ set xs i b
set-set [] i a b = refl
set-set (x ∷ xs) zero a b = refl
set-set (x ∷ xs) (suc i) a b = ap (◌∷◌ x) (set-set xs i a b)

-- The replacement has the name of the symbol, and is local if and only if the symbol is.
abbrev pub Replaces : ElfSym → ElfSym → Type 0
Replaces sym' sym =
    (sym'.st_name ≡ sym.st_name)
    × ((st_bind sym'.st_info == stb_local) ≡ (st_bind sym.st_info == stb_local))

entry_of-Replaces :
    (l : Section) (sym' sym : ElfSym) → Replaces sym' sym → entry_of l sym' ≡ entry_of l sym
unfolding entry_of name_of
entry_of-Replaces l sym' sym (e, f) = rw (e, f)

entries_of-set :
    (l : Section) (syms : List ElfSym) (i : ℕ) (sym' : ElfSym)
    → Replaces sym' (get_or syms i null_sym)
    → entries_of l (set syms i sym') ≡ entries_of l syms
unfolding entries_of
entries_of-set l [] i sym' r = refl
entries_of-set l (x ∷ syms) zero sym' r = rw (entry_of-Replaces l sym' x r)
entries_of-set l (x ∷ syms) (suc i) sym' r =
    ap (◌∷◌ (entry_of l x)) (entries_of-set l syms i sym' r)

Named-set :
    (l : Section) (syms : List ElfSym) (i : ℕ) (sym' : ElfSym)
    → Replaces sym' (get_or syms i null_sym)
    → Named l syms
    → Named l (set syms i sym')
Named-set l [] i sym' r n = tt
Named-set l (x ∷ syms) zero sym' (e, f) (h, n) = (rw e h, n)
Named-set l (x ∷ syms) (suc i) sym' r (h, n) = (h, Named-set l syms i sym' r n)

-- Such a change keeps the table valid and the index of every name.
pub set_sym_lem :
    (s : Symtab) (i : ℕ) (sym' : ElfSym)
    → IsValid s
    → 0 < i
    → Replaces sym' (get_or s.syms i null_sym)
    → IsValid (set_sym s i sym')
      × ((q : List ℕ) → find_elf_sym (set_sym s i sym') q ≡ find_elf_sym s q)
unfolding lookup
set_sym_lem s zero sym' v pos r = absurd (omega arith)
set_sym_lem s (suc i) sym' v pos r =
    let same = entries_of-set s.link s.syms (suc i) sym' r in
    let (rest, e) = v.first in
    let v' : IsValid (set_sym s (suc i) sym') = record {
      link_fits = v.link_fits;
      named = Named-set s.link s.syms (suc i) sym' r v.named;
      first = (set rest i sym', rw e);
      holds = rw same v.holds;
    } in
    let same_lookup : (q : List ℕ) → lookup (set_sym s (suc i) sym') q ≡ lookup s q =
      λ q. ap (λ es. latest q 0 es 0) same in
    (
      v',
      λ q.
          find_elf_sym-lookup (set_sym s (suc i) sym') q v'
          ∙ same_lookup q
          ∙ sym (find_elf_sym-lookup s q v),
    )

-- A symbol that a scan finds is in the table, is not local, and has the name.
abbrev pub IsFound : Section → List ElfSym → List ℕ → ℕ → Type 0
IsFound l syms name k =
    (k < length syms)
    × ((st_bind (get_or syms k null_sym).st_info == stb_local) ≡ false)
    × (same_name name (name_of l (get_or syms k null_sym)) ≡ true)

matched :
    (l : Section) (s : ElfSym) (name : List ℕ)
    → matches name (entry_of l s) ≡ true
    → ((st_bind s.st_info == stb_local) ≡ false) × (same_name name (name_of l s) ≡ true)
unfolding matches entry_of
matched l s name e = (ground arith, ground arith)

latest-IsFound :
    (l : Section) (syms : List ElfSym) (name : List ℕ) (i found : ℕ)
    → (latest name i (entries_of l syms) found ≡ found)
      ⊎ ((k : ℕ) × (latest name i (entries_of l syms) found ≡ i + k) × IsFound l syms name k)
unfolding latest entries_of
latest-IsFound l [] name i found = inl refl
latest-IsFound l (s ∷ syms) name i found =
    let next =
      latest-IsFound l syms name (i + 1) (if matches name (entry_of l s) then i else found) in
    elim next [
      | inr (k, e, (lt, loc, same)) ↦ inr (suc k, e ∙ omega arith, (omega arith, loc, same))
      | inl e ↦ elim (Bool-cases (matches name (entry_of l s))) [
        | inl m ↦ inr (
          0,
          e ∙ (rw m (omega arith)),
          (omega arith, (matched l s name m).0, (matched l s name m).1),
        )
        | inr m ↦ inl (e ∙ (rw m))
      ]
    ]

-- What the hashed search finds on a valid table.
pub find_elf_sym-IsFound :
    (s : Symtab) (name : List ℕ)
    → IsValid s
    → 0 < find_elf_sym s name
    → IsFound s.link s.syms name (find_elf_sym s name)
unfolding lookup
find_elf_sym-IsFound s name v pos =
    let e = find_elf_sym-lookup s name v in
    elim (latest-IsFound s.link s.syms name 0 0) [
      | inl z ↦ absurd (omega (arith, e, z))
      | inr (k, z, f) ↦ subst (IsFound s.link s.syms name) (omega (arith, e, z)) f
    ]
