-- ===== src/Xattrs.antt =====
-- Extended attributes (src/xattrs.h, src/xattrs.c).
pub mod Defs
pub mod Table
pub mod Decode
pub mod Stored
pub mod Sets
pub mod Written
