-- ===== src/Inode/Regular.antt =====
-- Regular files (src/regular.c).
use Prim.Native.Nat.{bit_or}
use libsqfs.Prelude.{
  ℕ, ◌-◌, ◌^◌, Bool, true, false, Option, none, some, List, [], ◌∷◌, ◌++◌, ◌==◌, ◌||◌, not, ltb,
  if◌then◌else◌,
}
use libsqfs.Prelude.Fields.{Fields, encode_fields}
use libsqfs.Memory.{Memory}
use libsqfs.Metatable.Defs.{Metatable, append}
use libsqfs.Inode.Defs.{
  Inode, common_fields, xattr_field, has_xattrs, store_header, file_type, lreg_type,
}

-- Where a full block stands in the image.
pub record StoredBlock : Type 0 where
  pub offset : ℕ
  pub size : ℕ
  pub compressed : Bool

-- The tail of a file: the index of its fragment block, and the place in it.
pub record TailPiece : Type 0 where
  pub index : ℕ
  pub offset : ℕ

-- `blocks` has `nblocks` elements.
pub record RegularFile : Type 0 where
  pub file_size : ℕ
  pub sparse_size : ℕ
  pub blocks : List StoredBlock
  pub tail_piece : Option TailPiece

abbrev pub start_block : List StoredBlock → ℕ
start_block [] = 0
start_block (b ∷ bs) = b.offset

abbrev pub fragment_index : Option TailPiece → ℕ
fragment_index none = 2 ^ 32 - 1
fragment_index (some t) = t.index

abbrev pub fragment_offset : Option TailPiece → ℕ
fragment_offset none = 0
fragment_offset (some t) = t.offset

-- The extended structure is for files that have holes, several links, attributes, or numbers that do
-- not fit in 32 bits.
unfoldable pub regular_type : Inode → RegularFile → ℕ
regular_type inode file =
    if not (file.sparse_size == 0)
      || (not (inode.nlink == 1)
          || (ltb (2 ^ 32 - 1) file.file_size
              || (has_xattrs inode.attr.xattrset || ltb (2 ^ 32 - 1) (start_block file.blocks))))
    then lreg_type
    else file_type

-- `squashfs_reg_inode_header` and `squashfs_lreg_inode_header`
abbrev pub reg_fields : Inode → RegularFile → Fields
reg_fields inode file =
    common_fields inode
    ++ ((4, start_block file.blocks)
        ∷ (4, fragment_index file.tail_piece)
        ∷ (4, fragment_offset file.tail_piece)
        ∷ (4, file.file_size)
        ∷ [])

abbrev pub lreg_fields : Inode → RegularFile → Fields
lreg_fields inode file =
    common_fields inode
    ++ ((8, start_block file.blocks)
        ∷ (8, file.file_size)
        ∷ (8, file.sparse_size)
        ∷ (4, inode.nlink)
        ∷ (4, fragment_index file.tail_piece)
        ∷ (4, fragment_offset file.tail_piece)
        ∷ (4, xattr_field inode.attr.xattrset)
        ∷ [])

-- SQUASHFS_COMPRESSED_BIT_BLOCK, which is set where a block is not compressed.
abbrev pub compressed_bit_block : ℕ
compressed_bit_block = 2 ^ 24

unfoldable pub block_info : StoredBlock → ℕ
block_info b = if b.compressed then b.size else bit_or b.size compressed_bit_block

abbrev pub block_fields : List StoredBlock → Fields
block_fields [] = []
block_fields (b ∷ bs) = (4, block_info b) ∷ block_fields bs

-- The sizes of the blocks; a file that is stored entirely in a fragment has none.
unfoldable pub append_infos : Memory → Metatable → List StoredBlock → Bool × Memory × Metatable
unfolding append encode_fields block_info
append_infos mem tab [] = (true, mem, tab)
append_infos mem tab (b ∷ bs) = append mem tab (encode_fields (block_fields (b ∷ bs)))

-- libsqfs_regular_inode_serialize
unfoldable pub regular_serialize :
    Memory → Metatable → Inode → RegularFile → Bool × Memory × Metatable × Inode
unfolding store_header append_infos regular_type
regular_serialize mem tab inode file =
    let typed = record inode {
      encoded_type = regular_type inode file;
      encoded_base_type = file_type;
    } in
    let short = typed.encoded_type == file_type in
    let fields = if short then reg_fields typed file else lreg_fields typed file in
    let (ok, mem', tab', stored) = store_header mem tab typed fields in
    let (ok', mem'', tab'') = append_infos mem' tab' file.blocks in
    if ok then (ok', mem'', tab'', stored) else (false, mem', tab', stored)
