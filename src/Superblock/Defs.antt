-- ===== src/Superblock/Defs.antt =====
-- The superblock and its flags (`libsqfs_write_superblock`, src/superblock.c).
use Prim.Native.Nat.{bit_or}
use libsqfs.Prelude.{ℕ, ◌^◌, Bool, [], ◌∷◌, if◌then◌else◌}
use libsqfs.Prelude.Fields.{Fields, encode_fields}
use libsqfs.Output.{Destination, Output, is_count, reserve}
use libsqfs.Inode.Defs.{Inode}
use libsqfs.Export.Defs.{encoded_inode}

-- libsqfs_fragments_option
pub data Fragments : Type 0 where
  never : Fragments
  small : Fragments
  always : Fragments

-- The options that the flags tell of; `has_compressor_options` is whether the image has such data.
pub record Options : Type 0 where
  pub inode_compression : Bool
  pub data_compression : Bool
  pub fragment_compression : Bool
  pub fragments : Fragments
  pub exportable : Bool
  pub has_compressor_options : Bool

abbrev fragments_option_to_flag : Fragments → ℕ
fragments_option_to_flag Fragments.never = 2 ^ 4
fragments_option_to_flag Fragments.small = 0
fragments_option_to_flag Fragments.always = 2 ^ 5

unfoldable pub flags : Options → ℕ
flags o =
    let first = bit_or 0 (if o.inode_compression then 0 else 2 ^ 0) in
    let second = bit_or first (if o.data_compression then 0 else 2 ^ 1) in
    let third = bit_or second (if o.fragment_compression then 0 else 2 ^ 3) in
    let fourth = bit_or third (fragments_option_to_flag o.fragments) in
    let fifth = bit_or fourth (if o.exportable then 2 ^ 7 else 0) in
    bit_or (bit_or fifth (2 ^ 6)) (if o.has_compressor_options then 2 ^ 10 else 0)

-- SQUASHFS_MAGIC
abbrev magic : ℕ
magic = 1936814952

-- sizeof(struct squashfs_super_block)
abbrev pub superblock_size : ℕ
superblock_size = 96

-- What of the image stands in the superblock.
pub record Summary : Type 0 where
  pub inodes : ℕ
  pub creation_time : ℕ
  pub block_size : ℕ
  pub block_size_log : ℕ
  pub fragment_blocks : ℕ
  pub compressor_id : ℕ
  pub options : Options
  pub nids : ℕ
  pub root : Inode
  pub size : ℕ
  pub idtable : ℕ
  pub xattr_table : ℕ
  pub inode_table : ℕ
  pub dir_table : ℕ
  pub frag_table : ℕ
  pub export_table : ℕ

-- The `squashfs_super_block` of an image.
unfoldable pub superblock : Summary → Fields
unfolding flags encoded_inode
superblock s =
    (4, magic)
    ∷ (4, s.inodes)
    ∷ (4, s.creation_time)
    ∷ (4, s.block_size)
    ∷ (4, s.fragment_blocks)
    ∷ (2, s.compressor_id)
    ∷ (2, s.block_size_log)
    ∷ (2, flags s.options)
    ∷ (2, s.nids)
    ∷ (2, 4)
    ∷ (2, 0)
    ∷ (8, encoded_inode s.root)
    ∷ (8, s.size)
    ∷ (8, s.idtable)
    ∷ (8, s.xattr_table)
    ∷ (8, s.inode_table)
    ∷ (8, s.dir_table)
    ∷ (8, s.frag_table)
    ∷ (8, s.export_table)
    ∷ []

-- libsqfs_write_superblock
unfoldable pub write_superblock : {Disk : Type 0} → Destination Disk → Summary → Disk → Bool × Disk
unfolding encode_fields superblock
write_superblock dst s disk =
    let (written, disk') = dst.pwrite disk (encode_fields (superblock s)) 0 in
    (is_count written superblock_size, disk')

-- libsqfs_reserve_superblock
unfoldable reserve_superblock : {Disk : Type 0} → Output Disk → Output Disk
unfolding reserve
reserve_superblock out = (reserve out superblock_size).1
