-- ===== src/Bench.antt =====
-- The first benchmark: readers and writers under a spin lock, and the allocator of its shared pointers.
pub mod Spin
pub mod Blocks
pub mod Places
pub mod Given
pub mod Duel
pub mod Mutex
pub mod Sharing
pub mod Snap
pub mod Renew
pub mod Counted
mod Rounds
mod Tests
