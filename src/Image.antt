-- ===== src/Image.antt =====
-- Images and their options (src/internal.h, src/image.c).
pub mod Options
pub mod BlockSize
pub mod Defs
pub mod Nodes
pub mod Serialize
pub mod Finalize
pub mod Finished
pub mod Returns
pub mod Types
pub mod Visits
pub mod Recursion
pub mod Reached
