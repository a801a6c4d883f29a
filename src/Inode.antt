-- ===== src/Inode.antt =====
-- Inodes and their structures in the inode table (src/inodes.c, src/special.c, src/regular.c and the
-- inode of src/directory.c).
pub mod Defs
pub mod Attr
pub mod Special
pub mod Folder
pub mod Regular
pub mod Pieces
pub mod Covers
pub mod Reader
pub mod DeviceNumber
pub mod SpecialStore
pub mod SpecialReads
pub mod FileStore
pub mod FileReads
pub mod IndexReads
pub mod FolderStore
pub mod FolderReads
