-- ===== src/Pool.antt =====
-- The allocator of atomsnap.c: arenas of version slots, and the lists that a thread takes them from.
pub mod Memory
pub mod Slots
pub mod Arenas
pub mod Alloc
pub mod Stack
pub mod Reclaim
pub mod Shared
pub mod Owned
pub mod History
mod Tests
