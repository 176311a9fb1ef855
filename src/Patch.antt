-- ===== src/Patch.antt =====
-- The decoder of the patch format, lib/parser/PatchIRDecoder.
pub mod Hunk
pub mod Number
pub mod Stream
pub mod Decoder
