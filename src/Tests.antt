-- ===== src/Tests.antt =====
-- The theorems at concrete inputs.
mod Objects
mod Bounds
mod Tokens
mod Folding
mod Names
mod Scopes
mod Sorting
mod Numerals
mod Assembly
mod Inclusion
mod Branches
mod Typing
mod Macros
mod Defines
mod Shifts
mod Packing
