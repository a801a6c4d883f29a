-- ===== src/Tests/SuperblockRuns.antt =====
-- A superblock (src/superblock.c).
use libsqfs.Prelude.{◌^◌, true, false, none}
use libsqfs.Superblock.Defs.{Fragments, Options, Summary}
use libsqfs.Tests.Storage.{Storage}
use libsqfs.Tests.InodeRuns.{node}

abbrev usual : Options
usual = record {
  inode_compression = true;
  data_compression = true;
  fragment_compression = false;
  fragments = Fragments.small;
  exportable = true;
  has_compressor_options = false;
}

abbrev image : Summary
image = record {
  inodes = 2;
  creation_time = 1000;
  block_size = 131072;
  block_size_log = 17;
  fragment_blocks = 0;
  compressor_id = 1;
  options = usual;
  nids = 1;
  root = node none;
  size = 300;
  idtable = 200;
  xattr_table = 2 ^ 60;
  inode_table = 96;
  dir_table = 128;
  frag_table = 160;
  export_table = 180;
}

abbrev zeros : Storage
zeros i = 0
