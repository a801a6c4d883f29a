-- ===== src/Tests/FolderRuns.antt =====
-- The inodes of two directories (src/directory.c).
use libsqfs.Prelude.{ℕ, ◌≡◌, ◌<◌, ◌^◌, ◌⊎◌, refl, true, Option, none, [], ◌∷◌, ◌++◌, All, arith}
use libsqfs.Prelude.Fields.{values}
use libsqfs.Memory.{unlimited}
use libsqfs.Metatable.Defs.{Metatable, flush}
use libsqfs.Metatable.Invariant.{IsValid, init-IsValid}
use libsqfs.Metatable.Stream.{Extends-refl}
use libsqfs.Metatable.OnDisk.{encode}
use libsqfs.Metatable.Reader.{resolve}
use libsqfs.Directory.Entries.{DirEntry}
use libsqfs.Directory.Table.{Directory}
use libsqfs.Inode.Defs.{Inode}
use libsqfs.Inode.Folder.{directory_inode_encode, chain}
use libsqfs.Inode.Reader.{read_inode, IsSmall, common_values}
use libsqfs.Inode.IndexReads.{IndexFits}
use libsqfs.Inode.FolderStore.{dir_own, ldir_own, FolderFits}
use libsqfs.Inode.FolderReads.{directory_inode_encode-reads}
use libsqfs.Tests.MetatableRuns.{no_codec, no_compressor}
use libsqfs.Tests.InodeRuns.{node, start, filled-IsValid, node_runs}

abbrev entry : ℕ → DirEntry
entry letter = record {
  name = letter ∷ [];
  inode = 0;
  serialno = 0;
  offset = 0;
  directory_table_entry = record { block = 0; offset = 0 };
  encoded_data = [];
  encoded_size = 0;
}

-- A directory whose second entry is indexed, and one without an index.
abbrev indexed_dir : Directory
indexed_dir = record {
  entries = entry 97 ∷ entry 98 ∷ [];
  first_indexed = 1 ∷ [];
  indexed_count = 1;
  encoded_entries_size = 40;
  dir_table_entry = record { block = 0; offset = 12 };
}

abbrev plain_dir : Directory
plain_dir = record indexed_dir { first_indexed = []; indexed_count = 0 }

abbrev long_node : Inode
long_node = record (node none) { encoded_type = 8; encoded_base_type = 1 }

abbrev short_node : Inode
short_node = record (node none) { encoded_type = 1; encoded_base_type = 1 }

folder_node-IsSmall :
    (type : ℕ) → IsSmall (record (node none) { encoded_type = type; encoded_base_type = 1 })
folder_node-IsSmall type = record {
  mode_fits = omega arith;
  uid_fits = omega arith;
  gid_fits = omega arith;
  ctime_fits = omega arith;
  number_fits = omega arith;
  nlink_fits = omega arith;
}

plain_dir-FolderFits : FolderFits plain_dir 2
plain_dir-FolderFits = record {
  block_fits = omega arith;
  offset_fits = omega arith;
  size_fits = omega arith;
  count_fits = omega arith;
  parent_fits = omega arith;
}

no_index : All IndexFits (chain plain_dir.entries plain_dir.first_indexed)
unfolding chain
no_index = tt

abbrev long_table : Metatable
long_table = (directory_inode_encode unlimited start long_node indexed_dir 2).2

abbrev short_table : Metatable
short_table = (directory_inode_encode unlimited start short_node plain_dir 2).2

short_stored :
    ((directory_inode_encode unlimited start short_node plain_dir 2).0 ≡ true) × IsValid short_table
unfolding node_runs
short_stored = (refl, filled-IsValid _ 32 refl (omega arith) (omega arith))

directory_inode_encode-reads_example :
    let seen = read_inode (
      resolve no_codec
        (encode (flush short_table).blocks)
        (directory_inode_encode unlimited start short_node plain_dir 2).3.inode_table_entry) in
    let count : ℕ = 0 in
    let set : Option ℕ = none in
    ((seen ≡ common_values short_node ++ values (dir_own short_node plain_dir 2))
      × (43 < 2 ^ 16)
      × (count ≡ 0)
      × (set ≡ none))
    ⊎ (seen ≡ common_values short_node ++ values (ldir_own short_node plain_dir 2))
unfolding node_runs
directory_inode_encode-reads_example =
    directory_inode_encode-reads no_codec unlimited start short_table short_node plain_dir 2 []
      no_compressor (init-IsValid none) short_stored.1 (omega arith) (folder_node-IsSmall 1) tt
      plain_dir-FolderFits refl no_index refl (Extends-refl no_codec short_table)
