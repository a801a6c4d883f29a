-- ===== src/Bulkdata.antt =====
-- Data blocks and fragments (src/bulkdata.h, src/bulkdata.c).
pub mod Defs
pub mod Work
pub mod Blocks
pub mod System
pub mod Fragments
pub mod Run
pub mod Process
pub mod Order
