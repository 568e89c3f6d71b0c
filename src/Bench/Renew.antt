-- ===== src/Bench/Renew.antt =====
-- The benchmark over the library whose writers exchange without a comparison, of
-- microbench/bench1/exchange/atomsnap_example.cpp.
pub mod Code
pub mod Machine
pub mod Invariant
pub mod Calls
pub mod Versions
pub mod Kept
pub mod Safety
pub mod Deleted
mod Tests
