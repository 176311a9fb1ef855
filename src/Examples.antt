-- ===== src/Examples.antt =====
-- The theorems at concrete inputs, and runs of the definitions.
mod Hunks
mod Names
mod Profiles
mod Risks
mod Callers
mod Matches
mod Numbers
mod Streams
mod Lines
mod Analysis
mod Runs
mod Slices
mod Graphs
mod Profiler
mod Strips
