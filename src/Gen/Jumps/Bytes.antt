-- ===== src/Gen/Jumps/Bytes.antt =====
-- Writing a number of 32 bits and reading it.
use inherpreter.Prelude.{ℕ, ◌+◌, ◌/◌, ◌%◌, ◌^◌, ◌≤◌, ◌<◌, ◌≡◌, ◌⊎◌, inl, inr, arith}
use inherpreter.Gen.Jumps.{read32, write32}

pub read32-write32 : (bytes : ℕ → ℕ) (t v : ℕ) → v < 2 ^ 32 → read32 (write32 bytes t v) t ≡ v
unfolding read32 write32
read32-write32 bytes t v h =
    let b0 : write32 bytes t v t ≡ v % 256 = ground arith in
    let b1 : write32 bytes t v (t + 1) ≡ v / 256 % 256 = ground arith in
    let b2 : write32 bytes t v (t + 2) ≡ v / 256 ^ 2 % 256 = ground arith in
    let b3 : write32 bytes t v (t + 3) ≡ v / 256 ^ 3 % 256 = ground arith in
    omega (arith, b0, b1, b2, b3)

-- A byte that is not one of the four.
pub write32_other :
    (bytes : ℕ → ℕ) (t v j : ℕ) → (j < t) ⊎ (t + 4 ≤ j) → write32 bytes t v j ≡ bytes j
unfolding write32
write32_other bytes t v j (inl h) = ground arith
write32_other bytes t v j (inr h) = ground arith

-- The bytes below an address are the same.
abbrev pub Agrees : ℕ → (b b' : ℕ → ℕ) → Type 0
Agrees e b b' = (j : ℕ) → j < e → b' j ≡ b j

pub read32-Agrees :
    (e : ℕ) (b b' : ℕ → ℕ) (s : ℕ) → Agrees e b b' → s + 4 ≤ e → read32 b' s ≡ read32 b s
unfolding read32
read32-Agrees e b b' s same h = omega (
  arith,
  same s (omega arith),
  same (s + 1) (omega arith),
  same (s + 2) (omega arith),
  same (s + 3) (omega arith),
)

pub Agrees-write32 : (b : ℕ → ℕ) (t v : ℕ) → Agrees t b (write32 b t v)
Agrees-write32 b t v j h = write32_other b t v j (inl h)

pub read32_from : (b b' : ℕ → ℕ) (s : ℕ) → ((j : ℕ) → s ≤ j → b' j ≡ b j) → read32 b' s ≡ read32 b s
unfolding read32
read32_from b b' s same = omega (
  arith,
  same s (omega arith),
  same (s + 1) (omega arith),
  same (s + 2) (omega arith),
  same (s + 3) (omega arith),
)
