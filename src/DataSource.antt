-- ===== src/DataSource.antt =====
-- Where the data of files come from (src/datasource.c): files, blocks of memory, and compounds of these.
pub mod Defs
pub mod Slices
pub mod Compound
pub mod Reads
