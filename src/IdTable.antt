-- ===== src/IdTable.antt =====
-- The table of user and group ids (src/idtable.c).
pub mod Defs
pub mod Mapping
pub mod Stable
pub mod Stored
