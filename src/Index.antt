-- ===== src/Index.antt =====
-- src/index.rs: the three forms of an index and the conversions between them.
pub mod Defs
pub mod Fields
pub mod RoundTrip
pub mod Places
pub mod Bounds
pub mod Order
