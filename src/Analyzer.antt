-- ===== src/Analyzer.antt =====
-- The performance risk analysis of lib/analyzer, with the profile of lib/commons that it reads.
pub mod Profile
pub mod Risk
pub mod Callers
pub mod Dag
pub mod Cost
pub mod Longest
