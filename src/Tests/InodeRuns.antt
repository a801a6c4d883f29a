-- ===== src/Tests/InodeRuns.antt =====
-- Inodes in an inode table (src/special.c, src/regular.c, src/directory.c).
use libsqfs.Prelude.{
  ℕ, ◌-◌, ◌≡◌, ◌<◌, ◌^◌, refl, true, false, Option, none, some, List, [], ◌∷◌, length,
}
use libsqfs.Prelude.Bytes.{le_bytes}
use libsqfs.Prelude.Fields.{encode_fields}
use libsqfs.Memory.{unlimited}
use libsqfs.Metatable.Defs.{Metatable, init}
use libsqfs.Metatable.Invariant.{IsValid}
use libsqfs.Inode.Defs.{Inode, store_header}
use libsqfs.Inode.Special.{Device, rdev, device_serialize, fifo_serialize, symlink_serialize}
use libsqfs.Inode.Folder.{directory_inode_encode, directory_type, chain}
use libsqfs.Inode.Regular.{RegularFile, regular_serialize, regular_type}
use libsqfs.Tests.MetatableRuns.{runs}

-- Readable and writable by root, with a set of attributes or without.
abbrev pub node : Option ℕ → Inode
node xattrset = record {
  attr = record {
    uid = 0;
    gid = 0;
    mode = 420;
    ctime = 1000;
    mapped_uid = 0;
    mapped_gid = 0;
    xattrset = xattrset;
  };
  nlink = 1;
  inode_table_entry = record { block = 0; offset = 0 };
  inode_number = 1;
  encoded_type = 0;
  encoded_base_type = 0;
}

abbrev pub start : Metatable
start = init none

-- All that a run computes with.
unfoldable pub node_runs : ℕ
unfolding runs store_header encode_fields le_bytes fifo_serialize device_serialize symlink_serialize
    rdev regular_serialize regular_type directory_inode_encode directory_type chain
node_runs = 0

-- A table whose first block is being filled with `bytes`.
abbrev pub filled : List ℕ → ℕ → Metatable
filled bytes fill = record {
  blocks = [];
  nmetablocks = 0;
  opened_block = some (record { size = 8192; offset = 0; compressed = false; contents = bytes });
  opened_block_fill = fill;
  compressor = none;
  size = 0;
  offset = 2 ^ 64 - 1;
}

pub filled-IsValid :
    (bytes : List ℕ) (fill : ℕ)
    → length bytes ≡ fill
    → 0 < fill
    → fill < 8192
    → IsValid (filled bytes fill)
filled-IsValid bytes fill e some_bytes h = record {
  chain = tt;
  counted = refl;
  sized = refl;
  opened = (e, refl, refl, some_bytes);
  has_room = h;
}

abbrev fifo_table : Metatable
fifo_table = (fifo_serialize unlimited start (node (some 5))).2

-- /dev/sda1
abbrev disk : Device
disk = record { type = 98; major = 8; minor = 1 }

abbrev disk_table : Metatable
disk_table = (device_serialize unlimited start (node none) disk).2

abbrev link_table : Metatable
link_table = (symlink_serialize unlimited start (node none) (47 ∷ 97 ∷ [])).2

-- One compressed block behind the superblock.
abbrev text_file : RegularFile
text_file = record {
  file_size = 300;
  sparse_size = 0;
  blocks = record { offset = 96; size = 200; compressed = true } ∷ [];
  tail_piece = none;
}

abbrev text_table : Metatable
text_table = (regular_serialize unlimited start (node none) text_file).2
