-- ===== src/Examples.antt =====
-- The theorems at concrete inputs.
mod Fixtures
mod Indices
mod Tables
mod Calls
mod Insertion
mod Delayed
mod Interleaved
mod Queued
mod Boxes
