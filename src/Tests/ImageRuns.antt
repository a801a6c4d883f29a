-- ===== src/Tests/ImageRuns.antt =====
-- Options, a file cut into pieces, and a small tree of inodes (src/image.c, src/regular.c, src/inodes.c).
use libsqfs.Prelude.{
  ℕ, ◌-◌, ◌^◌, ◌<◌, ◌≡◌, ◌≢◌, refl, subst, ap, ==_iff, Bool, true, false, Option, none, some, List,
  [], ◌∷◌, ◌++◌, All, ◌==◌, inl, inr, Bool-cases, arith,
}
use libsqfs.Prelude.Bytes.{le_bytes}
use libsqfs.Memory.{Memory, unlimited}
use libsqfs.DataSource.Defs.{Data, memory_data}
use libsqfs.Superblock.Defs.{Fragments}
use libsqfs.Inode.Pieces.{cut, block_pieces, tail_pieces}
use libsqfs.Inode.Covers.{Covers, cut-Covers}
use libsqfs.Inode.Defs.{InodeAttr}
use libsqfs.Metatable.Defs as Metatable
use libsqfs.IdTable.Defs as IdTable
use libsqfs.Xattrs.Defs as Xattrs
use libsqfs.Directory.Entries.{DirEntry}
use libsqfs.Bulkdata.Run.{start}
use libsqfs.Image.Options.{
  ImageOptions, Setting, set_block_size, set_option, set_options, options_defaults,
}
use libsqfs.Image.BlockSize.{IsValid, set_options-IsValid, set_block_size-takes}
use libsqfs.Image.Defs.{Image, ImageState, Content, add_inode}
use libsqfs.Image.Nodes.{create, directory_create, fifo_create, add_entry, adopt, insert_in}
use libsqfs.Image.Serialize.{inode_serialize}
use libsqfs.Image.Recursion.{IsRanked, entries_of}
use libsqfs.Image.Reached.{Leads, inode_serialize-reaches}
use libsqfs.Tests.Storage.{Storage, blank}

-- A compressor that is a number, and a copy of which is the number again.
abbrev copy_number : ℕ → Memory → Option ℕ × Memory
copy_number c mem = (some c, mem)

abbrev defaults : ImageOptions ℕ
defaults = options_defaults copy_number 1

abbrev settings : List (Setting ℕ)
settings = Setting.block_size 5000 ∷ Setting.block_size 8192 ∷ Setting.padding false ∷ []

set_options-IsValid_example : IsValid (set_options copy_number defaults settings unlimited).0
set_options-IsValid_example = set_options-IsValid copy_number 1 settings unlimited

-- The size that is no power of two is not taken.
second_size : (set_options copy_number defaults settings unlimited).0.block_size ≡ 8192
unfolding set_options set_option set_block_size
second_size = refl

set_block_size-takes_example :
    set_block_size defaults (2 ^ 20) ≡ record defaults { block_size = 2 ^ 20; block_size_log = 20 }
set_block_size-takes_example = set_block_size-takes defaults 20 (omega arith) (omega arith)

abbrev source : Data
source = memory_data (1 ∷ 2 ∷ 3 ∷ 4 ∷ 5 ∷ [])

cut-Covers_example :
    let (nblocks, tail_size) = cut Fragments.always 2 5 in
    Covers 2 0 5 (block_pieces source 2 5 0 nblocks ++ tail_pieces source 5 tail_size)
cut-Covers_example = cut-Covers source 2 5 Fragments.always (omega arith)

abbrev attr : InodeAttr
attr = record {
  uid = 0;
  gid = 0;
  mode = 493;
  ctime = 0;
  mapped_uid = 0;
  mapped_gid = 0;
  xattrset = none;
}

abbrev empty_image : Image Storage ℕ
empty_image = record {
  options = defaults;
  state = ImageState.building;
  base = λ i. record {
    attr = attr;
    nlink = 0;
    inode_table_entry = record { block = 0; offset = 0 };
    inode_number = 0;
    encoded_type = 0;
    encoded_base_type = 0;
  };
  content = λ i. Content.fifo;
  count = 0;
  system = start true true blank unlimited;
  idtable = IdTable.init;
  inode_table = Metatable.init none;
  dir_table = Metatable.init none;
  root = none;
  export_table = 0;
  xattr_table = Xattrs.init 0;
  compressor = record { compress = λ src n. none; compress_meta = λ src n. none };
  compressor_id = 1;
  compressor_option_data = none;
  compressor_option_data_loc = 0;
  creation_time = 0;
}

-- A directory with a directory `d`, and a fifo `f` in that.
abbrev pub tree : Image Storage ℕ
tree =
    let root = (directory_create empty_image attr).1 in
    let folder = (directory_create root attr).1 in
    let fifo = (fifo_create folder attr).1 in
    let named = (add_entry fifo 0 (100 ∷ []) 1).1 in (add_entry named 1 (102 ∷ []) 2).1

abbrev pub height : ℕ → ℕ
height i = 2 - i

abbrev Low : ℕ → Type 0
Low j = All (λ (e : DirEntry). height e.inode < height j) (entries_of (tree.content j))

tree-Low : (j : ℕ) → Low j
unfolding directory_create fifo_create add_entry adopt insert_in create add_inode
tree-Low j = elim (Bool-cases (0 == j)) [
  | inl first ↦ subst Low ((==_iff 0 j).0 first) (omega arith, tt)
  | inr a ↦ elim (Bool-cases (1 == j)) [
    | inl second ↦ subst Low ((==_iff 1 j).0 second) (omega arith, tt)
    | inr b ↦ elim (Bool-cases (2 == j)) [
      | inl third ↦ rw (a, b, third) tt
      | inr c ↦ rw (a, b, c) tt
    ]
  ]
]

pub tree_ranked : IsRanked height tree
tree_ranked j dir parent e =
    subst (λ es. All (λ (e : DirEntry). height e.inode < height j) es) (ap entries_of e)
      (tree-Low j)

tree_fresh : (j : ℕ) → (tree.base j).encoded_type ≡ 0
unfolding directory_create fifo_create add_entry adopt insert_in create add_inode
    libsqfs.Inode.Defs.inode_init
tree_fresh j = ground arith

inode_serialize-reaches_example :
    (r : Bool × Image Storage ℕ) × (inode_serialize 3 tree 0 ≡ some r)
    × (r.0 ≡ true → (j : ℕ) → Leads tree 0 j → (r.1.base j).encoded_type ≢ 0)
inode_serialize-reaches_example =
    inode_serialize-reaches height tree 3 0 tree_ranked tree_fresh (omega arith)

abbrev succeeds : Option (Bool × Image Storage ℕ) → Bool
succeeds none = false
succeeds (some r) = r.0

-- The tree is serialized.
tree_serialized : succeeds (inode_serialize 3 tree 0) ≡ true
unfolding directory_create fifo_create add_entry adopt insert_in create add_inode
    libsqfs.Inode.Defs.inode_init inode_serialize le_bytes Metatable.init
tree_serialized = refl
