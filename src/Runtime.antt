-- ===== src/Runtime.antt =====
-- The run-time support that compiled programs call (lib/libtcc1.c).
pub mod Shifts
