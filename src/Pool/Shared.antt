-- ===== src/Pool/Shared.antt =====
-- The shared stack of one arena under concurrent pushes and steals.
pub mod Machine
pub mod Invariant
pub mod Frame
pub mod Pushes
pub mod Owner
pub mod Safety
pub mod Tests
