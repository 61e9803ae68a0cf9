-- ===== src/Reclaim.antt =====
-- src/reclaim/: the atomic pointers that hold the entries, over two ways to reclaim memory.
pub mod Owned
pub mod Sdd
pub mod Leak
