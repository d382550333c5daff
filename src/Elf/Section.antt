-- ===== src/Elf/Section.antt =====
-- A section's buffer (libtcc.c: section_realloc, section_ptr_add, section_reserve; tccelf.c:
-- put_elf_str). The buffer is the list of its allocated bytes; `data_allocated` is its length.
pub mod Growth
pub mod Text
use inherpreter.Prelude.{
  ℕ, zero, suc, ◌+◌, ◌-◌, ◌≤◌, sym, List, [], ◌∷◌, ◌++◌, ltb, ◌==◌, if◌then◌else◌, length, take,
  replicate,
}
use inherpreter.Prelude.Doubling.{double_until}

pub record Section : Type 0 where
  pub bytes : List ℕ
  pub data_offset : ℕ

abbrev pub data_allocated : Section → ℕ
data_allocated s = length s.bytes

-- The first size is at least 1 and it doubles, so `new_size` rounds are enough.
unfoldable pub realloc_size : ℕ → ℕ → ℕ
unfolding double_until
realloc_size allocated new_size =
    double_until new_size (if allocated == 0 then 1 else allocated) new_size

unfoldable pub section_realloc : Section → ℕ → Section
section_realloc sec new_size =
    let size = realloc_size (data_allocated sec) new_size in
    record sec { bytes = sec.bytes ++ replicate (size - data_allocated sec) 0 }

-- The section with its new offset, and the old offset, where the reserved bytes begin.
unfoldable pub section_ptr_add : Section → ℕ → Section × ℕ
section_ptr_add sec size =
    let offset = sec.data_offset in
    let offset1 = offset + size in
    let grown = if ltb (data_allocated sec) offset1 then section_realloc sec offset1 else sec in
    (record { bytes = grown.bytes; data_offset = offset1 }, offset)

unfoldable pub section_reserve : Section → ℕ → Section
section_reserve sec size =
    let grown = if ltb (data_allocated sec) size then section_realloc sec size else sec in
    record {
      bytes = grown.bytes;
      data_offset = if ltb grown.data_offset size then size else grown.data_offset;
    }

overlay : List ℕ → List ℕ → List ℕ
overlay xs [] = xs
overlay [] (b ∷ bs) = []
overlay (x ∷ xs) (b ∷ bs) = b ∷ overlay xs bs

-- `memcpy(data + offset, bs, len)`; bytes past the buffer's end are not written.
unfoldable pub memcpy : List ℕ → ℕ → List ℕ → List ℕ
unfolding overlay
memcpy xs zero bs = overlay xs bs
memcpy [] (suc o) bs = []
memcpy (x ∷ xs) (suc o) bs = x ∷ memcpy xs o bs

-- `sym` without its terminating 0; the offset of the copy is returned.
unfoldable pub put_elf_str : Section → List ℕ → Section × ℕ
put_elf_str s sym =
    let (grown, offset) = section_ptr_add s (length sym + 1) in
    (record grown { bytes = memcpy grown.bytes offset (sym ++ 0 ∷ []) }, offset)

-- The bytes in use.
abbrev pub contents : Section → List ℕ
contents s = take s.data_offset s.bytes

abbrev pub Fits : Section → Type 0
Fits s = s.data_offset ≤ data_allocated s
