-- ===== src/Prelude/Doubling.antt =====
-- The loop by which buffers grow (libtcc.c: section_realloc; tccpp.c: cstr_realloc).
use Prim.Native.Nat.{ℕ, zero, suc, ◌+◌, ◌*◌, ◌≤◌, ◌<◌}
use native.Mathlib.Omega.{arith}
use inherpreter.Prelude.Tests.{ltb, if◌then◌else◌}

-- `while (size < new_size) size = size * 2;`, on fuel.
unfoldable pub double_until : ℕ → ℕ → ℕ → ℕ
double_until zero size new_size = size
double_until (suc fuel) size new_size =
    let rest = double_until fuel (size * 2) new_size in if ltb size new_size then rest else size

-- From a positive size, as many rounds as the size asked for are enough.
pub double_until_bounds :
    (fuel size new_size : ℕ)
    → 0 < size
    → new_size ≤ size + fuel
    → (new_size ≤ double_until fuel size new_size) × (size ≤ double_until fuel size new_size)
unfolding double_until
double_until_bounds zero size new_size pos h = omega arith
double_until_bounds (suc fuel) size new_size pos h =
    ground (arith, double_until_bounds fuel (size * 2) new_size (omega arith))
