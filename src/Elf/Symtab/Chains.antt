-- ===== src/Elf/Symtab/Chains.antt =====
-- The chains of a symbol hash table against the list of the names that it holds.
use inherpreter.Prelude.{
  ℕ, ◌+◌, ◌%◌, ◌≤◌, ◌<◌, ◌≡◌, sym, ◌∙◌, subst, inl, inr, Bool, false, Option, none, some, List, [],
  ◌∷◌, ◌++◌, arith, ◌==◌, if◌then◌else◌, ==_iff, Bool-cases, length, get_or, set, length-append,
  length-set, get_or-append_left, get_or-append_right, get_or-set,
}
use inherpreter.Elf.Name.{elf_hash, same_name}
use inherpreter.Elf.Symtab.{HashTable}

-- What a symbol is to the hash table: its name, if it is not local.
abbrev pub Entry : Type 0
Entry = Option (List ℕ)

unfoldable pub matches : List ℕ → Entry → Bool
matches name none = false
matches name (some n) = same_name name n

unfoldable pub in_bucket : (nb h : ℕ) → Entry → Bool
in_bucket nb h none = false
in_bucket nb h (some n) = elf_hash n % nb == h

-- The index of the last entry of that name, counted from `i`; `found` if there is none.
unfoldable pub latest : List ℕ → ℕ → List Entry → ℕ → ℕ
latest name i [] found = found
latest name i (e ∷ es) found = latest name (i + 1) es (if matches name e then i else found)

-- The indices of the entries of one bucket, the last one first.
unfoldable pub members : (nb h : ℕ) → ℕ → List Entry → List ℕ → List ℕ
members nb h i [] js = js
members nb h i (e ∷ es) js = members nb h (i + 1) es (if in_bucket nb h e then i ∷ js else js)

pub latest-append :
    (name : List ℕ) (i : ℕ) (es : List Entry) (e : Entry) (found : ℕ)
    → latest name i (es ++ e ∷ []) found
      ≡ (if matches name e then i + length es else latest name i es found)
unfolding latest
latest-append name i [] e found = ground arith
latest-append name i (d ∷ es) e found =
    ground (arith, latest-append name (i + 1) es e (if matches name d then i else found))

pub members-append :
    (nb h i : ℕ) (es : List Entry) (e : Entry) (js : List ℕ)
    → members nb h i (es ++ e ∷ []) js
      ≡ (if in_bucket nb h e then (i + length es) ∷ members nb h i es js else members nb h i es js)
unfolding members
members-append nb h i [] e js = ground arith
members-append nb h i (d ∷ es) e js =
    ground (arith, members-append nb h (i + 1) es e (if in_bucket nb h d then i ∷ js else js))

pub length-members-le :
    (nb h i : ℕ) (es : List Entry) (js : List ℕ)
    → length (members nb h i es js) ≤ length es + length js
unfolding members
length-members-le nb h i [] js = omega arith
length-members-le nb h i (d ∷ es) js =
    ground (arith, length-members-le nb h (i + 1) es (if in_bucket nb h d then i ∷ js else js))

-- From word `i` the chain goes through exactly the indices `js`, and ends in 0.
abbrev pub Linked : List ℕ → ℕ → List ℕ → Type 0
Linked chain i [] = i ≡ 0
Linked chain i (j ∷ js) =
    (i ≡ j) × (0 < j) × (j < length chain) × Linked chain (get_or chain j 0) js

pub Linked-append :
    (chain : List ℕ) (w i : ℕ) (js : List ℕ) → Linked chain i js → Linked (chain ++ w ∷ []) i js
Linked-append chain w i [] l = l
Linked-append chain w i (j ∷ js) (e, pos, small, rest) = (
  e,
  pos,
  omega (arith, length-append chain (w ∷ [])),
  rw (get_or-append_left chain (w ∷ []) j 0 small) (Linked-append chain w _ js rest),
)

-- The table holds the entries: each bucket's chain goes through the indices of its entries.
pub record Holds (t : HashTable) (es : List Entry) : Type 0 where
  pub some_bucket : 0 < t.nbuckets
  pub width : length t.buckets ≡ t.nbuckets
  pub words : length t.chain ≡ length es
  pub linked : (h : ℕ) → Linked t.chain (get_or t.buckets h 0) (members t.nbuckets h 0 es [])

-- The effect on the hash table of one more symbol.
unfoldable pub add_entry : ℕ → Entry → HashTable → HashTable
add_entry sym_index none t = record t { chain = t.chain ++ 0 ∷ [] }
add_entry sym_index (some name) t =
    let h = elf_hash name % t.nbuckets in
    record t { chain = t.chain ++ get_or t.buckets h 0 ∷ []; buckets = set t.buckets h sym_index }

-- One bucket after a name is put into it or into another.
Linked-add_entry :
    (t : HashTable) (es : List Entry) (name : List ℕ) (h : ℕ)
    → 0 < length es
    → Holds t es
    → Linked
        (add_entry (length es) (some name) t).chain
        (get_or (add_entry (length es) (some name) t).buckets h 0)
        (members t.nbuckets h 0 (es ++ some name ∷ []) [])
unfolding add_entry in_bucket
Linked-add_entry t es name h pos v =
    let k : ℕ = elf_hash name % t.nbuckets in
    let w = get_or t.buckets k 0 in
    let inside : k < length t.buckets = omega (arith, v.width, v.some_bucket) in
    let old = Linked-append t.chain w _ _ (v.linked h) in
    rw
      (
        members-append t.nbuckets h 0 es (some name) [],
        get_or-set t.buckets k h (length es) 0 inside,
      )
      (elim (Bool-cases (k == h)) [
        | inr e ↦ rw e old
        | inl e ↦
            let same : k ≡ h = (==_iff k h).0 e in
            let last : get_or (t.chain ++ w ∷ []) (0 + length es) 0 ≡ w =
              get_or-append_right t.chain (w ∷ []) 0 (0 + length es) 0 (omega (arith, v.words)) in
            rw e (
              omega arith,
              omega arith,
              omega (arith, length-append t.chain (w ∷ []), v.words),
              rw last (
                  subst
                    (λ n.
                      Linked (t.chain ++ w ∷ []) (get_or t.buckets n 0)
                        (members t.nbuckets h 0 es []))
                    (sym same) old),
            )
      ])

-- A symbol that is added at the end keeps the table in step with the entries.
pub Holds-add_entry :
    (t : HashTable) (es : List Entry) (e : Entry)
    → 0 < length es
    → Holds t es
    → Holds (add_entry (length es) e t) (es ++ e ∷ [])
unfolding add_entry
Holds-add_entry t es none pos v = record {
  some_bucket = v.some_bucket;
  width = v.width;
  words =
      omega
        (arith, length-append t.chain (0 ∷ []), length-append {A = Entry} es (none ∷ []), v.words);
  linked = λ h.
      rw (members-append t.nbuckets h 0 es none [])
        (unfold in_bucket in Linked-append t.chain 0 _ _ (v.linked h));
}
Holds-add_entry t es (some name) pos v = record {
  some_bucket = v.some_bucket;
  width = length-set t.buckets _ _ ∙ v.width;
  words = omega (
    arith,
    length-append t.chain (get_or t.buckets (elf_hash name % t.nbuckets) 0 ∷ []),
    length-append {A = Entry} es (some name ∷ []),
    v.words,
  );
  linked = λ h. Linked-add_entry t es name h pos v;
}
