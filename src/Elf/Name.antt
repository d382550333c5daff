-- ===== src/Elf/Name.antt =====
-- The hash of a symbol's name (tccelf.c: elf_hash), with `unsigned long` of 64 bits.
use inherpreter.Prelude.{
  ℕ, ◌+◌, ◌-◌, ◌*◌, ◌/◌, ◌%◌, ◌^◌, bit_and, bit_xor, ◌≡◌, refl, Bool, true, false, ◌&&◌, List, [],
  ◌∷◌, arith, ◌==◌, if◌then◌else◌,
}

-- One round of the loop: `h = (h << 4) + c`, then the top nibble of the low 32 bits is folded in.
unfoldable pub elf_hash_step : ℕ → ℕ → ℕ
elf_hash_step h c =
    let h1 = (h * 16 + c) % 2 ^ 64 in
    let g = bit_and h1 0xf000_0000 in
    let h2 = if g == 0 then h1 else bit_xor h1 (g / 2 ^ 24) in bit_and h2 (2 ^ 64 - 1 - g)

unfoldable pub elf_hash_from : ℕ → List ℕ → ℕ
unfolding elf_hash_step
elf_hash_from h [] = h
elf_hash_from h (c ∷ name) = elf_hash_from (elf_hash_step h c) name

unfoldable pub elf_hash : List ℕ → ℕ
unfolding elf_hash_from
elf_hash name = elf_hash_from 0 name

-- `strcmp(a, b) == 0`
unfoldable pub same_name : List ℕ → List ℕ → Bool
same_name [] [] = true
same_name [] (b ∷ bs) = false
same_name (a ∷ as_) [] = false
same_name (a ∷ as_) (b ∷ bs) = a == b && same_name as_ bs

pub same_name-eq : (a b : List ℕ) → same_name a b ≡ true → a ≡ b
unfolding same_name
same_name-eq [] [] h = refl
same_name-eq [] (b ∷ bs) h = cc
same_name-eq (a ∷ xs) [] h = cc
same_name-eq (a ∷ xs) (b ∷ bs) h = ground (arith, same_name-eq xs bs)

pub same_name_refl : (a : List ℕ) → same_name a a ≡ true
unfolding same_name
same_name_refl [] = refl
same_name_refl (a ∷ xs) = ground (arith, same_name_refl xs)
