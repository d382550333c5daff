-- ===== src/Elf/Section/Growth.antt =====
-- The growth of a section's buffer.
use inherpreter.Prelude.{
  ℕ, ◌+◌, ◌-◌, ◌≤◌, ◌≡◌, refl, sym, ap, inl, inr, List, [], ◌∷◌, ◌++◌, append-nil, arith, ltb,
  Bool-cases, length, take, replicate, length-append, length-replicate,
}
use inherpreter.Prelude.Doubling.{double_until_bounds}
use inherpreter.Elf.Section.{
  Section, data_allocated, realloc_size, section_realloc, section_ptr_add, Fits,
}

-- The doubling loop ends with room for the request, and never shrinks the buffer.
pub realloc_size_bounds :
    (allocated new_size : ℕ)
    → (new_size ≤ realloc_size allocated new_size) × (allocated ≤ realloc_size allocated new_size)
unfolding realloc_size
realloc_size_bounds allocated new_size = ground (
  arith,
  double_until_bounds new_size 1 new_size,
  double_until_bounds new_size allocated new_size,
)

take-all : (xs : List ℕ) → take (length xs) xs ≡ xs
take-all [] = refl
take-all (x ∷ xs) = ap (◌∷◌ x) (take-all xs)

-- Growing keeps the old bytes, sets the new ones to zero, and makes room for the request.
pub section_realloc_lem :
    (sec : Section) (new_size : ℕ)
    → (k : ℕ) × ((section_realloc sec new_size).bytes ≡ sec.bytes ++ replicate k 0)
      × ((section_realloc sec new_size).data_offset ≡ sec.data_offset)
      × (new_size ≤ data_allocated (section_realloc sec new_size))
unfolding section_realloc
section_realloc_lem sec new_size =
    let k = realloc_size (data_allocated sec) new_size - data_allocated sec in
    (
      k,
      refl,
      refl,
      omega (
        arith,
        length-append sec.bytes (replicate k 0),
        length-replicate {A = ℕ} k 0,
        realloc_size_bounds (data_allocated sec) new_size,
      ),
    )

-- What reserving gives, in a section whose contents lie in its buffer: the old bytes with others
-- behind them, and the old offset; the new offset lies in the buffer.
pub section_ptr_add_lem :
    (sec : Section) (size : ℕ)
    → Fits sec
    → (rest : List ℕ) × ((section_ptr_add sec size).0.bytes ≡ sec.bytes ++ rest)
      × ((section_ptr_add sec size).0.data_offset ≡ sec.data_offset + size)
      × ((section_ptr_add sec size).1 ≡ sec.data_offset)
      × Fits (section_ptr_add sec size).0
unfolding section_ptr_add
section_ptr_add_lem sec size fits =
    elim (Bool-cases (ltb (data_allocated sec) (sec.data_offset + size))) [
      | inl e ↦
          let (k, b, o, room) = section_realloc_lem sec (sec.data_offset + size) in
          (replicate k 0, rw e b, refl, refl, rw e room)
      | inr e ↦ ([], rw e (sym (append-nil sec.bytes)), refl, refl, rw e (ground arith))
    ]
