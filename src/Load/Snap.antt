-- ===== src/Load/Snap.antt =====
-- `AtomSnapBackend` of microbench/bench2/bench_all.cpp over the machine of `Protocol`.
pub mod Code
pub mod Machine
pub mod Invariant
pub mod Calls
pub mod Versions
pub mod Blocks
pub mod Objects
pub mod Steps
pub mod Safety
mod Tests
