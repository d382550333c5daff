-- ===== src/Runtime/Shifts.antt =====
-- The shifts of 64-bit numbers by their two words (lib/libtcc1.c: __lshrdi3, __ashldi3, __ashrdi3, as
-- the compiler itself compiles them). Numbers and words are bit patterns; the amount `b` is not
-- negative, and shifts of words are by less than 32 bits.
pub mod Logical
pub mod Words
pub mod Folding
use inherpreter.Prelude.{
  ℕ, ◌+◌, ◌-◌, ◌*◌, ◌/◌, ◌%◌, ◌^◌, bit_or, not, ltb, leb, ◌==◌, if◌then◌else◌,
}

-- DWunion: the words of `ll`.
pub record DWunion : Type 0 where
  pub low : ℕ
  pub high : ℕ

unfoldable pub set_ll : ℕ → DWunion
set_ll a = record { low = a % 2 ^ 32; high = a / 2 ^ 32 }

unfoldable pub ll : DWunion → ℕ
ll u = u.low + u.high * 2 ^ 32

-- `<<` and `>>` on an unsigned int.
abbrev pub shl32 : ℕ → ℕ → ℕ
shl32 w n = w * 2 ^ n % 2 ^ 32

abbrev pub shr32 : ℕ → ℕ → ℕ
shr32 w n = w / 2 ^ n

-- `>>` on an int: the bits that come in are copies of the sign.
abbrev pub sar32 : ℕ → ℕ → ℕ
sar32 w n = if ltb w (2 ^ 31) then w / 2 ^ n else 2 ^ 32 - 1 - (2 ^ 32 - 1 - w) / 2 ^ n

abbrev pub low_shifted : DWunion → ℕ → ℕ
low_shifted u b = bit_or (shr32 u.low b) (shl32 u.high (32 - b))

unfoldable pub lshr_words : DWunion → (b : ℕ) → DWunion
lshr_words u b =
    if leb 32 b
    then record { low = shr32 u.high (b - 32); high = 0 }
    else if not (b == 0)
    then record { low = low_shifted u b; high = shr32 u.high b }
    else u

unfoldable pub lshrdi3 : (a b : ℕ) → ℕ
unfolding lshr_words set_ll ll
lshrdi3 a b = ll (lshr_words (set_ll a) b)

unfoldable pub ashl_words : DWunion → (b : ℕ) → DWunion
ashl_words u b =
    if leb 32 b
    then record { low = 0; high = shl32 u.low (b - 32) }
    else if not (b == 0)
    then record { low = shl32 u.low b; high = bit_or (shl32 u.high b) (shr32 u.low (32 - b)) }
    else u

unfoldable pub ashldi3 : (a b : ℕ) → ℕ
unfolding ashl_words set_ll ll
ashldi3 a b = ll (ashl_words (set_ll a) b)

unfoldable pub ashr_words : DWunion → (b : ℕ) → DWunion
ashr_words u b =
    if leb 32 b
    then record { low = sar32 u.high (b - 32); high = sar32 u.high 31 }
    else if not (b == 0)
    then record { low = low_shifted u b; high = sar32 u.high b }
    else u

unfoldable pub ashrdi3 : (a b : ℕ) → ℕ
unfolding ashr_words set_ll ll
ashrdi3 a b = ll (ashr_words (set_ll a) b)
