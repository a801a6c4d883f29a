-- ===== src/Directory.antt =====
-- Directories (src/directory.c): the sorted list of entries, and its encoding in the directory table.
pub mod Entries
pub mod Sorted
pub mod Encode
pub mod Groups
pub mod Limits
pub mod Decode
pub mod Roundtrip
pub mod Listing
pub mod Table
pub mod Size
pub mod Stored
pub mod Readback
pub mod Index
