-- ===== src/Pool/Stack.antt =====
-- The free lists of an arena as lists of slot indices.
pub mod Defs
pub mod Bound
pub mod Setup
pub mod Pop
pub mod Push
