-- ===== src/Protocol.antt =====
-- The reference-count protocol of atomsnap.c under any interleaving of its atomic operations.
pub mod Machine
pub mod Invariant
pub mod Safety
pub mod Client
pub mod Objects
pub mod Progress
mod Tests
