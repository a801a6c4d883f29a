-- ===== src/Superblock.antt =====
-- The superblock (src/superblock.c).
pub mod Defs
pub mod Reads
