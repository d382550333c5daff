-- ===== src/Prelude/Maps.antt =====
-- Updates of a memory that is a function of the address.
use Prim.Native.Nat.{ℕ}
use inherpreter.Prelude.Tests.{◌==◌, if◌then◌else◌}

module _ {ℓ} {A : Type ℓ} where
  abbrev pub update : (ℕ → A) → ℕ → A → ℕ → A
  update f i v j = if i == j then v else f j
