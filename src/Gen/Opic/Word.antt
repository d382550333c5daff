-- ===== src/Gen/Opic/Word.antt =====
-- Signed arithmetic on 64-bit patterns, as the host's C does it on `long long`.
use inherpreter.Prelude.{
  ℕ, ◌+◌, ◌-◌, ◌/◌, ◌%◌, ◌^◌, Bool, true, false, not, ltb, leb, if◌then◌else◌,
}

abbrev pub negative : ℕ → Bool
negative l = leb (2 ^ 63) l

abbrev pub magnitude : ℕ → ℕ
magnitude l = if negative l then 2 ^ 64 - l else l

abbrev pub opposite : Bool → Bool → Bool
opposite true b = not b
opposite false b = b

abbrev pub negate : ℕ → ℕ
negate l = (2 ^ 64 - l) % 2 ^ 64

-- An int as a long long.
unfoldable pub sign_extend : ℕ → ℕ
sign_extend w = if ltb w (2 ^ 31) then w else w + (2 ^ 64 - 2 ^ 32)

-- Rounded towards 0.
unfoldable pub signed_quotient : ℕ → ℕ → ℕ
signed_quotient l1 l2 =
    let q = magnitude l1 / magnitude l2 in
    if opposite (negative l1) (negative l2) then negate q else q

-- With the sign of the dividend.
unfoldable pub signed_remainder : ℕ → ℕ → ℕ
signed_remainder l1 l2 = let r = magnitude l1 % magnitude l2 in if negative l1 then negate r else r

-- The bits that come in are copies of the sign: the complement is shifted.
unfoldable pub shift_right : ℕ → ℕ → ℕ
shift_right l1 n = if negative l1 then 2 ^ 64 - 1 - (2 ^ 64 - 1 - l1) / 2 ^ n else l1 / 2 ^ n

unfoldable pub signed_less : ℕ → ℕ → Bool
signed_less l1 l2 = ltb ((l1 + 2 ^ 63) % 2 ^ 64) ((l2 + 2 ^ 63) % 2 ^ 64)
