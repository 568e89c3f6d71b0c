-- ===== src/Protocol/Invariant.antt =====
-- The life of a version, true at the start and kept by every step.
pub mod Defs
pub mod Count
pub mod Reads
pub mod Writes
pub mod Ends
pub mod Moves
