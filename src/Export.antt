-- ===== src/Export.antt =====
-- The export table, from the numbers of inodes to their places (src/export.c).
pub mod Defs
pub mod Stored
