-- ===== src/Asm.antt =====
-- The assembler (tccasm.c).
pub mod Expr
pub mod Label
