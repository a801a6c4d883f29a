-- ===== src/Bulkdata/Fragments.antt =====
-- The fragment table (src/bulkdata.c), and what a reader finds in it.
pub mod Table
pub mod Stored
