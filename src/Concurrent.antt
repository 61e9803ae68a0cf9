-- ===== src/Concurrent.antt =====
-- src/table.rs: calls of several threads, as sequences of their atomic steps.
pub mod Permits
pub mod System
pub mod Effect
pub mod Ownership
pub mod Invariant
pub mod Moved
pub mod Calm
pub mod Counters
pub mod Start
pub mod Lookups
pub mod Ring
pub mod Swap
pub mod Exchange
pub mod Cells
pub mod Fill
pub mod Evict
pub mod Safety
pub mod Alone
pub mod Loops
pub mod Progress
pub mod Sequential
pub mod Calls
pub mod Removes
pub mod Equivalence
pub mod Iteration
pub mod LockFree
pub mod Delayed
