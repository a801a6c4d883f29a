-- ===== src/Inode/SpecialReads.antt =====
-- What a reader finds of symbolic links, devices and fifos (src/special.c).
use libsqfs.Memory.{Memory}
use libsqfs.Metatable.Defs.{Metatable}
use libsqfs.Inode.Defs.{Inode}
