-- ===== src/Gen.antt =====
-- The values and names of the C parser, and its jumps (tccgen.c, x86_64-gen.c, arm-gen.c).
pub mod Opic
pub mod Scope
pub mod Jumps
pub mod Branch
pub mod Types
