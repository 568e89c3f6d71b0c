-- ===== src/Bench/Counted.antt =====
-- The readers and writers of microbench/bench1/cmp_exchange/shared_ptr_example.cpp.
pub mod Machine
pub mod Invariant
pub mod Publish
pub mod Accesses
pub mod Steps
pub mod Safety
mod Tests
