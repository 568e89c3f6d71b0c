-- ===== src/Bench/Snap.antt =====
-- The benchmark over the library, of microbench/bench1/cmp_exchange/atomsnap_example.cpp.
pub mod Machine
pub mod Invariant
pub mod Frame
pub mod Calls
pub mod Swap
pub mod Versions
pub mod Objects
pub mod Accesses
pub mod Steps
pub mod Safety
mod Tests
