-- ===== src/Elf.antt =====
-- The sections and the symbol tables of tccelf.c and libtcc.c.
pub mod Section
pub mod Name
pub mod Symtab
pub mod Resolve
pub mod Sorting
pub mod Relocating
