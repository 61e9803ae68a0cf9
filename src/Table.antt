-- ===== src/Table.antt =====
-- src/table.rs: the table.
pub mod State
pub mod Slots
pub mod Ops
pub mod Keys
pub mod Probe
pub mod View
pub mod Acquire
pub mod Release
pub mod Queue
pub mod Dequeue
pub mod Enqueue
pub mod Fresh
pub mod Insertion
pub mod Removal
pub mod Reserve
pub mod Generations
pub mod Period
pub mod Create
pub mod Insert
pub mod Remove
pub mod Lookup
pub mod Teardown
pub mod Iteration
pub mod Weak
pub mod Walk
pub mod Stale
