-- ===== src/Gen/Jumps.antt =====
-- Code and the chains of its jumps (x86_64-gen.c: g, o, oad, gjmp, gjmp_addr, gsym_addr, gsym, gtst).
-- The bytes of the text section are a function of the address; that the section grows in time is
-- the matter of Elf.Section.
pub mod Bytes
pub mod Chains
pub mod Words
pub mod Merging
use inherpreter.Prelude.{
  ℕ, zero, suc, ◌+◌, ◌-◌, ◌*◌, ◌/◌, ◌%◌, ◌^◌, Bool, ◌==◌, if◌then◌else◌, update,
}

pub record Code : Type 0 where
  pub bytes : ℕ → ℕ
  pub ind : ℕ

-- The byte `i` of a 32-bit number.
abbrev pub byte_of : (v i : ℕ) → ℕ
byte_of v i = v / 256 ^ i % 256

-- `*(int *)(cur_text_section->data + t)`, without its sign.
unfoldable pub read32 : (ℕ → ℕ) → (t : ℕ) → ℕ
read32 bytes t = bytes t + bytes (t + 1) * 256 + bytes (t + 2) * 256 ^ 2 + bytes (t + 3) * 256 ^ 3

unfoldable pub write32 : (ℕ → ℕ) → (t v : ℕ) → ℕ → ℕ
write32 bytes t v =
    update
      (update (update (update bytes t (v % 256)) (t + 1) (v / 256 % 256)) (t + 2)
        (v / 256 ^ 2 % 256))
      (t + 3) (v / 256 ^ 3 % 256)

unfoldable pub g : Code → (c : ℕ) → Code
g s c = record { bytes = update s.bytes s.ind (c % 256); ind = s.ind + 1 }

-- The bytes of `c` up to the highest one that is not 0, on fuel.
unfoldable pub o_bytes : ℕ → Code → (c : ℕ) → Code
unfolding g
o_bytes zero s c = s
o_bytes (suc fuel) s c = let rest = o_bytes fuel (g s c) (c / 256) in if c == 0 then s else rest

-- An unsigned int has four bytes.
unfoldable pub o : Code → (c : ℕ) → Code
unfolding o_bytes
o s c = o_bytes 4 s c

-- An instruction with 4 bytes of data, and their address.
unfoldable pub oad : Code → (c s : ℕ) → Code × ℕ
unfolding o write32
oad code c s =
    let code1 = o code c in
    (record { bytes = write32 code1.bytes code1.ind s; ind = code1.ind + 4 }, code1.ind)

-- A jump to a label whose other jumps are the chain `t`.
unfoldable pub gjmp : Code → (t : ℕ) → Code × ℕ
unfolding oad
gjmp s t = oad s 0xe9 t

-- All jumps of the chain `t` go to `a`. A chain has fewer jumps than there are bytes.
unfoldable pub patch : (fuel : ℕ) → (ℕ → ℕ) → (t a : ℕ) → ℕ → ℕ
unfolding read32 write32
patch zero bytes t a = bytes
patch (suc fuel) bytes t a =
    let rest = patch fuel (write32 bytes t ((a + 2 ^ 32 - t - 4) % 2 ^ 32)) (read32 bytes t) a in
    if t == 0 then bytes else rest

unfoldable pub gsym_addr : Code → (t a : ℕ) → Code
unfolding patch
gsym_addr s t a = record s { bytes = patch (s.ind + 1) s.bytes t a }

unfoldable pub gsym : Code → (t : ℕ) → Code
unfolding gsym_addr
gsym s t = gsym_addr s t s.ind

-- The last jump of a chain that is not empty (gtst: `while (*p != 0)`).
unfoldable pub last_jump : (fuel : ℕ) → (ℕ → ℕ) → (t : ℕ) → ℕ
unfolding read32
last_jump zero bytes t = t
last_jump (suc fuel) bytes t =
    let rest = last_jump fuel bytes (read32 bytes t) in if read32 bytes t == 0 then t else rest

-- gtst, for a value that is the chain `c` of jumps already (VT_JMP or VT_JMPI): `same` where
-- `(v & 1) == inv`. The result is the chain of jumps of the label.
unfoldable pub gtst_jumps : Code → (same : Bool) → (c t : ℕ) → Code × ℕ
unfolding write32 last_jump gjmp gsym
gtst_jumps s same c t =
    if same
    then if c == 0
      then (s, t)
      else (record s { bytes = write32 s.bytes (last_jump (s.ind + 1) s.bytes c) t }, c)
    else let jumped = gjmp s t in (gsym jumped.0 c, jumped.1)
