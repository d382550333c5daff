-- ===== src/Cpp.antt =====
-- The preprocessor's strings and tokens (tccpp.c).
pub mod Strings
pub mod Tokens
pub mod Idents
pub mod Labels
pub mod Numbers
pub mod Conditionals
pub mod Macros
pub mod Defines
pub mod Pack
