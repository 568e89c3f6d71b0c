-- ===== src/Pool/History.antt =====
-- Histories of allocations and frees.
pub mod Defs
pub mod Given
pub mod Freed
pub mod Safety
pub mod Tests
