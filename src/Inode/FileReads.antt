-- ===== src/Inode/FileReads.antt =====
-- What a reader finds of regular files (src/regular.c).
use libsqfs.Memory.{Memory}
use libsqfs.Metatable.Defs.{Metatable}
use libsqfs.Inode.Defs.{Inode}
