-- ===== src/Elf/Section/Text.antt =====
-- String tables: a section whose contents are NUL-terminated names.
use inherpreter.Prelude.{
  ℕ, zero, suc, ◌+◌, ◌≤◌, ◌<◌, ◌≡◌, refl, sym, ap, subst, inl, inr, Option, none, some, List, [],
  ◌∷◌, ◌++◌, arith, ◌==◌, if◌then◌else◌, Option-cases, length, drop, take, length-append,
  take-append_left,
}
use inherpreter.Elf.Section.{Section, section_ptr_add, overlay, memcpy, put_elf_str, contents, Fits}
use inherpreter.Elf.Section.Growth.{section_ptr_add_lem}

-- The C string at an offset, `none` where the bytes end before a 0 is met.
abbrev before : ℕ → Option (List ℕ) → Option (List ℕ)
before b none = none
before b (some rest) = some (b ∷ rest)

c_string_from : List ℕ → Option (List ℕ)
c_string_from [] = none
c_string_from (b ∷ bs) = if b == 0 then some [] else before b (c_string_from bs)

unfoldable pub c_string : List ℕ → ℕ → Option (List ℕ)
unfolding c_string_from
c_string bytes offset = c_string_from (drop offset bytes)

-- A C string's bytes before its terminator.
abbrev pub IsText : List ℕ → Type 0
IsText [] = Unit {0}
IsText (b ∷ bs) = (0 < b) × IsText bs

overlay-take : (xs bs : List ℕ) → length bs ≤ length xs → take (length bs) (overlay xs bs) ≡ bs
unfolding overlay
overlay-take xs [] h = refl
overlay-take [] (b ∷ bs) h = absurd (omega arith)
overlay-take (x ∷ xs) (b ∷ bs) h = ap (◌∷◌ b) (overlay-take xs bs (omega arith))

take-memcpy :
    (xs : List ℕ) (o n : ℕ) (bs : List ℕ)
    → n ≡ o + length bs
    → n ≤ length xs
    → take n (memcpy xs o bs) ≡ take o xs ++ bs
unfolding memcpy
take-memcpy xs zero n bs e h =
    subst (λ m. take m (overlay xs bs) ≡ bs) (omega arith) (overlay-take xs bs (omega arith))
take-memcpy [] (suc o) n bs e h = absurd (omega arith)
take-memcpy (x ∷ xs) (suc o) zero bs e h = absurd (omega arith)
take-memcpy (x ∷ xs) (suc o) (suc n) bs e h =
    ap (◌∷◌ x) (take-memcpy xs o n bs (omega arith) (omega arith))

length-overlay : (xs bs : List ℕ) → length (overlay xs bs) ≡ length xs
unfolding overlay
length-overlay xs [] = refl
length-overlay [] (b ∷ bs) = refl
length-overlay (x ∷ xs) (b ∷ bs) = ap suc (length-overlay xs bs)

length-memcpy : (xs : List ℕ) (o : ℕ) (bs : List ℕ) → length (memcpy xs o bs) ≡ length xs
unfolding memcpy
length-memcpy xs zero bs = length-overlay xs bs
length-memcpy [] (suc o) bs = refl
length-memcpy (x ∷ xs) (suc o) bs = ap suc (length-memcpy xs o bs)

-- A name is appended, with its terminator, to the contents of the table; its offset is returned.
pub put_elf_str_lem :
    (s : Section) (name : List ℕ)
    → Fits s
    → (contents (put_elf_str s name).0 ≡ contents s ++ (name ++ 0 ∷ []))
      × ((put_elf_str s name).1 ≡ s.data_offset)
      × Fits (put_elf_str s name).0
unfolding put_elf_str section_ptr_add
put_elf_str_lem s name fits =
    let (rest, b, o, at_old, room) = section_ptr_add_lem s (length name + 1) fits in
    let long : s.data_offset + (length name + 1) ≤ length (s.bytes ++ rest) = rw (← b, ← o) room in
    let size = length-append name (0 ∷ []) in
    (
      rw
          (
            b,
            at_old,
            take-memcpy (s.bytes ++ rest) s.data_offset _ (name ++ 0 ∷ []) (omega arith) long,
          )
          (ap (λ t. t ++ (name ++ 0 ∷ [])) (take-append_left s.bytes rest s.data_offset fits)),
      at_old,
      rw (length-memcpy) room,
    )

c_string_from-append :
    (xs ys : List ℕ) {t : List ℕ} → c_string_from xs ≡ some t → c_string_from (xs ++ ys) ≡ some t
unfolding c_string_from
c_string_from-append [] ys h = cc
c_string_from-append (x ∷ xs) ys h = elim (Option-cases (c_string_from xs)) [
  | inl e ↦ ground arith
  | inr (r, e) ↦ ground (arith, c_string_from-append xs ys e)
]

c_string_from-text : (name : List ℕ) → IsText name → c_string_from (name ++ 0 ∷ []) ≡ some name
unfolding c_string_from
c_string_from-text [] h = refl
c_string_from-text (b ∷ bs) h = rw (c_string_from-text bs h.1) (ground arith)

-- Adding to a table keeps the strings that are in it.
pub c_string-append :
    (xs ys : List ℕ) (o : ℕ) {t : List ℕ} → c_string xs o ≡ some t → c_string (xs ++ ys) o ≡ some t
unfolding c_string
c_string-append xs ys zero h = c_string_from-append xs ys h
c_string-append [] ys (suc o) h = cc
c_string-append (x ∷ xs) ys (suc o) h = c_string-append xs ys o h

-- The string that was appended stands at the old end of the table.
pub c_string-append_end :
    (xs name : List ℕ) (o : ℕ)
    → IsText name
    → o ≡ length xs
    → c_string (xs ++ (name ++ 0 ∷ [])) o ≡ some name
unfolding c_string
c_string-append_end [] name zero h e = c_string_from-text name h
c_string-append_end [] name (suc o) h e = absurd (omega arith)
c_string-append_end (x ∷ xs) name zero h e = absurd (omega arith)
c_string-append_end (x ∷ xs) name (suc o) h e = c_string-append_end xs name o h (omega arith)

length-take : (n : ℕ) (xs : List ℕ) → n ≤ length xs → length (take n xs) ≡ n
length-take zero xs h = refl
length-take (suc n) [] h = absurd (omega arith)
length-take (suc n) (x ∷ xs) h = ap suc (length-take n xs (omega arith))

-- A C string that was put into a table whose contents lie in its buffer is read back at the offset
-- that was returned.
pub c_string-put_elf_str :
    (s : Section) (name : List ℕ)
    → Fits s
    → IsText name
    → c_string (contents (put_elf_str s name).0) (put_elf_str s name).1 ≡ some name
c_string-put_elf_str s name fits text =
    let (e, o, room) = put_elf_str_lem s name fits in
    rw (e, o)
      (c_string-append_end (contents s) name s.data_offset text
        (sym (length-take s.data_offset s.bytes fits)))

-- A name that was in a table before, whose contents lie in its buffer, is read as before after
-- another one was put there.
pub c_string-put_elf_str_old :
    (s : Section) (name : List ℕ) (o : ℕ) {t : List ℕ}
    → Fits s
    → c_string (contents s) o ≡ some t
    → c_string (contents (put_elf_str s name).0) o ≡ some t
c_string-put_elf_str_old s name o fits h =
    rw (put_elf_str_lem s name fits).0 (c_string-append (contents s) (name ++ 0 ∷ []) o h)
