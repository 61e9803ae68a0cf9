-- ===== src/Params.antt =====
-- src/params.rs and padded.rs: cache lines, capacities and the constants derived from them.
pub mod Enum
pub mod Capacity
pub mod Rounding
pub mod Target
pub mod Derived
pub mod Geometry
pub mod Strict
pub mod Valid
