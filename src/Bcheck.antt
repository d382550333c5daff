-- ===== src/Bcheck.antt =====
-- The run-time bounds checker (lib/bcheck.c).
pub mod Slot
pub mod Table
pub mod Checked
