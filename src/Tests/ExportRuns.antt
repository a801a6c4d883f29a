-- ===== src/Tests/ExportRuns.antt =====
-- An export table of two inodes (src/export.c).
use libsqfs.Prelude.{
  ◌+◌, ◌*◌, ◌/◌, ◌%◌, ◌^◌, ◌≡◌, refl, none, List, [], ◌∷◌, All, length, map, take, drop, arith,
}
use libsqfs.Prelude.Bytes.{read_le, le_bytes}
use libsqfs.Prelude.Words.{words}
use libsqfs.Memory.{unlimited}
use libsqfs.Metatable.Defs as Metatable
use libsqfs.Metatable.Defs.{append, flush, position}
use libsqfs.Metatable.Invariant.{stored_size}
use libsqfs.Metatable.OnDisk.{encode}
use libsqfs.Metatable.Reader.{resolve}
use libsqfs.Inode.Defs.{Inode}
use libsqfs.Export.Defs.{encoded_inode, export_table_write}
use libsqfs.Export.Stored.{IsPlaced, export_table_write-reads}
use libsqfs.Tests.Storage.{storage, read, blank, storage-IsFile}
use libsqfs.Tests.MetatableRuns.{no_codec, runs}
use libsqfs.Tests.InodeRuns.{node}

abbrev second : Inode
second = record (node none) {
  inode_number = 2;
  inode_table_entry = record { block = 1; offset = 32 };
}

abbrev two_inodes : List Inode
two_inodes = node none ∷ second ∷ []

two_inodes-IsPlaced : All IsPlaced two_inodes
two_inodes-IsPlaced = ((omega arith, omega arith), ((omega arith, omega arith), tt))

export_table_write-reads_example :
    let (done, _, offset, out') =
      export_table_write storage unlimited (7 ∷ 7 ∷ []) two_inodes blank in
    let blocks =
      (flush
        (append unlimited
          (Metatable.init none)
          (words 8 (map encoded_inode two_inodes))).2).blocks in
    let size = length (encode blocks) in
    let seen =
      read_le 8 (
        drop
          (8 * 1)
          (resolve no_codec (read out'.disk 96 size) (position (Metatable.init none)))) in
    (seen % 2 ^ 16 ≡ 32)
    × (seen / 2 ^ 16 ≡ 1)
    × (offset ≡ 96 + size)
    × (read_le 8 (drop (8 * 0) (read out'.disk offset (8 * length blocks)))
        ≡ 96 + stored_size (take 0 blocks))
unfolding runs export_table_write storage le_bytes encoded_inode
export_table_write-reads_example =
    export_table_write-reads storage read storage-IsFile unlimited (7 ∷ 7 ∷ []) two_inodes blank 1 0
      second no_codec (refl, (refl, tt)) two_inodes-IsPlaced refl refl (omega arith) (omega arith)
      refl (omega arith)
