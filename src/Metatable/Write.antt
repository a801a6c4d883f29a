-- ===== src/Metatable/Write.antt =====
-- Writing a finished table out: `libsqfs_metatable_write` and `libsqfs_metatable_write_with_index`
-- (src/metatable.c).
use Prim.Native.Nat.{bit_or}
use libsqfs.Prelude.{ℕ, ◌+◌, ◌*◌, ◌%◌, ◌^◌, Bool, true, false, List, [], ◌∷◌, ◌++◌, if◌then◌else◌}
use libsqfs.Prelude.Bytes.{le16, le64}
use libsqfs.Output.{Destination, Output, reserve, is_count, off_mod}
use libsqfs.Metatable.Defs.{Metablock, Metatable, flush}

-- SQUASHFS_COMPRESSED_BIT, which is set where a block is not compressed
abbrev pub compressed_bit : ℕ
compressed_bit = 2 ^ 15

unfoldable pub block_header : Metablock → ℕ
block_header block = bit_or block.size (if block.compressed then 0 else compressed_bit) % 2 ^ 16

-- The on-disk places of the blocks, eight bytes each.
unfoldable pub index_table : ℕ → List Metablock → List ℕ
index_table base [] = []
index_table base (block ∷ blocks) =
    le64 ((base + block.offset) % off_mod) ++ index_table base blocks

module _ {Disk : Type 0} (dst : Destination Disk) where
  -- `while (block)`: the header, then the contents.
  unfoldable pub write_blocks : List Metablock → ℕ → Disk → Bool × Disk
  write_blocks [] offset disk = (true, disk)
  write_blocks (block ∷ blocks) offset disk =
      let (written, disk') = dst.pwrite disk (le16 (block_header block)) offset in
      let (written', disk'') = dst.pwrite disk' block.contents ((offset + 2) % off_mod) in
      let rest = write_blocks blocks ((offset + (block.size + 2)) % off_mod) disk'' in
      if is_count written 2
      then (if is_count written' block.size then rest else (false, disk''))
      else (false, disk')

  unfoldable pub write : Metatable → Output Disk → Bool × Metatable × Output Disk
  unfolding reserve
  write tab out =
      let flushed = flush tab in
      let (start, out') = reserve out flushed.size in
      let (done, disk) = write_blocks flushed.blocks start out'.disk in
      (
        done,
        (if done then record flushed { offset = start } else flushed),
        record out' { disk = disk },
      )

  unfoldable pub write_index : Metatable → Output Disk → Bool × Metatable × Output Disk
  unfolding reserve
  write_index tab out =
      let table = index_table tab.offset tab.blocks in
      let (index_base, out') = reserve out (8 * tab.nmetablocks) in
      let (written, disk) = dst.pwrite out'.disk table index_base in
      if is_count written (8 * tab.nmetablocks)
      then (true, record tab { offset = index_base }, record out' { disk = disk })
      else (false, tab, record out' { disk = disk })

  unfoldable pub write_with_index : Metatable → Output Disk → Bool × Metatable × Output Disk
  write_with_index tab out =
      let (done, tab', out') = write tab out in
      if done then write_index tab' out' else (false, tab', out')
