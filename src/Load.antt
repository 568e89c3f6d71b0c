-- ===== src/Load.antt =====
-- microbench/bench2: a load of readers and writers on either backend.
pub mod Options
pub mod Parsed
pub mod Burn
pub mod Writer
pub mod Grace
pub mod Latency
pub mod Peak
pub mod Race
pub mod Snap
pub mod Tests
