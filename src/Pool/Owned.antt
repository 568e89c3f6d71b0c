-- ===== src/Pool/Owned.antt =====
-- The slots that one thread's context owns, each of them used or in one free list, through every step
-- of `alloc_slot` and `free_slot`.
pub mod Defs
pub mod Frame
pub mod Pop
pub mod Take
pub mod Steal
pub mod Reclaim
pub mod Start
pub mod Fresh
pub mod Enlist
pub mod Init
pub mod Alloc
pub mod Free
