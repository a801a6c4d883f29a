-- ===== src/Bulkdata/Fragments/Stored.antt =====
-- What `libsqfs_bulkdata_write_fragment_table` (src/bulkdata.c) leaves in the file.
use libsqfs.Memory.{Memory}
use libsqfs.Compressor.{Compressor}
use libsqfs.Output.{Output}
use libsqfs.Metatable.Defs as Metatable
use libsqfs.Bulkdata.Defs.{Bulkdata}
