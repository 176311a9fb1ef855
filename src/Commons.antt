-- ===== src/Commons.antt =====
-- The shared utilities of lib/commons: source scopes, C strings and file names.
pub mod Scope
pub mod Text
pub mod Canon
pub mod Strips
