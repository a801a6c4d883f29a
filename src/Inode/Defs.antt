-- ===== src/Inode/Defs.antt =====
-- What inodes of all types have (src/inodes.h, src/inodes.c), and the store of their structure.
use libsqfs.Prelude.{ℕ, ◌+◌, ◌-◌, ◌^◌, Bool, true, false, Option, none, some, [], ◌∷◌}
use libsqfs.Prelude.Fields.{Fields, encode_fields}
use libsqfs.Memory.{Memory}
use libsqfs.Metatable.Defs.{Metatable, Entry, position, append}

-- The numbers of the inode types, and those of the extended types.
abbrev pub dir_type : ℕ
dir_type = 1

abbrev pub file_type : ℕ
file_type = 2

abbrev pub symlink_type : ℕ
symlink_type = 3

abbrev pub blkdev_type : ℕ
blkdev_type = 4

abbrev pub chrdev_type : ℕ
chrdev_type = 5

abbrev pub fifo_type : ℕ
fifo_type = 6

abbrev pub ldir_type : ℕ
ldir_type = 8

abbrev pub lreg_type : ℕ
lreg_type = 9

abbrev pub lblkdev_type : ℕ
lblkdev_type = 11

abbrev pub lchrdev_type : ℕ
lchrdev_type = 12

abbrev pub lfifo_type : ℕ
lfifo_type = 13

-- `xattrset` is the id of the attribute's set, if it has one.
pub record InodeAttr : Type 0 where
  pub uid : ℕ
  pub gid : ℕ
  pub mode : ℕ
  pub ctime : ℕ
  pub mapped_uid : ℕ
  pub mapped_gid : ℕ
  pub xattrset : Option ℕ

pub record Inode : Type 0 where
  pub attr : InodeAttr
  pub nlink : ℕ
  pub inode_table_entry : Entry
  pub inode_number : ℕ
  pub encoded_type : ℕ
  pub encoded_base_type : ℕ

-- libsqfs_inode_init, in an image that has `count` inodes. The members of the reference are `unsigned`.
unfoldable pub inode_init : ℕ → InodeAttr → Inode
inode_init count attr = record {
  attr = attr;
  nlink = 0;
  inode_table_entry = record { block = 2 ^ 32 - 1; offset = 2 ^ 32 - 1 };
  inode_number = count + 1;
  encoded_type = 0;
  encoded_base_type = 0;
}

-- The fields that the structures of all types begin with.
abbrev pub common_fields : Inode → Fields
common_fields inode =
    (2, inode.encoded_type)
    ∷ (2, inode.attr.mode)
    ∷ (2, inode.attr.mapped_uid)
    ∷ (2, inode.attr.mapped_gid)
    ∷ (4, inode.attr.ctime)
    ∷ (4, inode.inode_number)
    ∷ []

-- The field `xattr`; -1 where there is no set.
abbrev pub xattr_field : Option ℕ → ℕ
xattr_field none = 2 ^ 32 - 1
xattr_field (some id) = id

abbrev pub has_xattrs : Option ℕ → Bool
has_xattrs none = false
has_xattrs (some id) = true

-- `libsqfs_metatable_append` of a structure, which notes its place in the inode.
unfoldable pub store_header :
    Memory → Metatable → Inode → Fields → Bool × Memory × Metatable × Inode
unfolding append position encode_fields
store_header mem tab inode fields =
    let (ok, mem', tab') = append mem tab (encode_fields fields) in
    (ok, mem', tab', record inode { inode_table_entry = position tab })
