-- ===== src/Concurrent/LockFree.antt =====
-- src/table.rs: of the moves of all threads together, only so many are made before some call returns.
pub mod Flags
pub mod Moves
pub mod Watch
pub mod Potential
pub mod Targets
pub mod Steps
pub mod Draws
pub mod Bound
pub mod Returns
