-- ===== src/Tools.antt =====
-- The programs of tools/, which put the parts together.
pub mod Analyze
pub mod Run
pub mod Profiler
