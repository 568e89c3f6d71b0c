-- ===== src/Api.antt =====
-- The public functions of atomsnap.c, each call running alone.
pub mod World
pub mod Threads
pub mod Gates
pub mod Versions
pub mod Swaps
mod Ids
mod Compare
pub mod Published
mod Tests
mod Cases
