-- ===== src/Metatable.antt =====
-- Metadata tables (src/metatable.h, src/metatable.c): the functions, and what is proved of them.
pub mod Defs
pub mod Invariant
pub mod Rounds
pub mod Stream
pub mod Append
pub mod Write
pub mod OnDisk
pub mod Reader
pub mod Index
pub mod Array
