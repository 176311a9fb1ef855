-- ===== src/Mapper.antt =====
-- lib/mapper: the patch against the bitcode.
pub mod Matcher
pub mod Instructions
pub mod Scopes
pub mod Target
