-- ===== src/Word.antt =====
-- The fixed-width words of atomsnap.c: handles, control blocks, inner states and stack tops.
pub mod Handle
pub mod Pair
