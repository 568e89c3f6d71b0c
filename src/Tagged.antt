-- ===== src/Tagged.antt =====
-- The free list of the second benchmark.
pub mod Blocks
pub mod Order
mod Tests
