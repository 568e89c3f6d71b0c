-- ===== src/Api/Published.antt =====
-- One version in one slot of a gate, through acquires, releases and the exchange that takes it out.
pub mod Defs
pub mod Counts
pub mod Used
pub mod Finalize
pub mod Ends
pub mod Exchange
mod Release
pub mod Cycle
