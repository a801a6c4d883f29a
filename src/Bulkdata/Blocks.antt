-- ===== src/Bulkdata/Blocks.antt =====
-- Blocks as they stand in the image: compressing and writing them (src/bulkdata.c).
use libsqfs.Prelude.{
  ℕ, Bool, true, false, Option, none, some, List, [], ◌∷◌, ◌++◌, ◌==◌, length, if◌then◌else◌,
}
use libsqfs.Compressor.{Compressor, instance_compress}
use libsqfs.Bulkdata.Defs.{ChunkState, Kind, ImageBlock, FragmentBlock, Bulkdata, update}
use libsqfs.Bulkdata.Work.{try_writeout, previous_block}

-- libsqfs_image_block_compress; `none` is the result `false`. The code writes to what `malloc` returns
-- without a test, and the model takes storage to be there.
unfoldable image_block_compress : Compressor → ImageBlock → List ℕ → ℕ → Option ImageBlock
unfolding instance_compress
image_block_compress ci dst src size =
    let packed : ImageBlock = elim (instance_compress ci src size) [
      | some bytes ↦ record dst { contents = some bytes; compressed = true; size = length bytes }
      | none ↦ record dst { contents = some src; compressed = false; size = size }
    ] in
    if size == 0 then none else some packed

-- libsqfs_image_block_uncompressed
unfoldable image_block_uncompressed : ImageBlock → List ℕ → ℕ → Option ImageBlock
image_block_uncompressed dst src size =
    if size == 0
    then none
    else some (record dst { contents = some src; compressed = false; size = size })

unfoldable pub make_block : Bool → Compressor → ImageBlock → List ℕ → ℕ → Option ImageBlock
unfolding image_block_compress image_block_uncompressed
make_block compress ci dst src size =
    if compress then image_block_compress ci dst src size else image_block_uncompressed dst src size

abbrev pub bytes_of : Option (List ℕ) → List ℕ
bytes_of none = []
bytes_of (some bytes) = bytes

-- The pieces of a block, copied one behind the other.
unfoldable pub gather : (ℕ → Option (List ℕ)) → List ℕ → List ℕ
gather cached [] = []
gather cached (p ∷ ps) = bytes_of (cached p) ++ gather cached ps

-- Their cached data are freed.
unfoldable pub drop_cached : (ℕ → Option (List ℕ)) → List ℕ → ℕ → Option (List ℕ)
drop_cached cached [] = cached
drop_cached cached (p ∷ ps) = drop_cached (update cached p none) ps

-- The fragment block that is written in the place of a piece; C would follow NULL where there is none.
abbrev pub index_or_zero : Option ℕ → ℕ
index_or_zero none = 0
index_or_zero (some b) = b

abbrev pub flushed_block : Bulkdata → ℕ → ℕ
flushed_block bd i = index_or_zero (previous_block bd i)

abbrev pub set_dst : FragmentBlock → ImageBlock → FragmentBlock
set_dst block dst = record block { dst = dst }

-- The end of both functions that compress.
unfoldable pub become_writable : Bulkdata → ℕ → Bulkdata
unfolding try_writeout
become_writable bd i = try_writeout (record bd { state = update bd.state i ChunkState.writable }) i

-- libsqfs_full_block_compress; `none` is a failure.
unfoldable pub compress_block : Compressor → Bulkdata → ℕ → Option Bulkdata
unfolding make_block become_writable
compress_block ci bd i =
    elim (make_block bd.compress_blocks ci (bd.dst i) (bytes_of (bd.cached_data i))
      (bd.piece i).size) [
        | none ↦ none
        | some dst ↦ some (
            become_writable
              (record bd { dst = update bd.dst i dst; cached_data = update bd.cached_data i none })
              i)
      ]

-- libsqfs_fragment_piece_compress
unfoldable pub compress_piece : Compressor → Bulkdata → ℕ → Option Bulkdata
unfolding make_block become_writable gather drop_cached
compress_piece ci bd i =
    let b = flushed_block bd i in
    let block = bd.fragment_blocks b in
    elim (make_block bd.compress_fragments ci block.dst (gather bd.cached_data block.pieces)
      block.size) [
        | none ↦ none
        | some dst ↦ some (
            become_writable
              (record bd {
                fragment_blocks = update bd.fragment_blocks b (set_dst block dst);
                cached_data = drop_cached bd.cached_data block.pieces;
              })
              i)
      ]

unfoldable pub compress : Compressor → Bulkdata → ℕ → Option Bulkdata
unfolding compress_block compress_piece
compress ci bd i = elim (bd.kind i) [
  | Kind.full_block ↦ compress_block ci bd i
  | Kind.fragment_piece ↦ compress_piece ci bd i
  | Kind.closing_piece ↦ compress_piece ci bd i
]

-- The block that is written in the place of chunk `i`, and the members with that block changed.
unfoldable pub written_block : Bulkdata → ℕ → ImageBlock
written_block bd i = elim (bd.kind i) [
  | Kind.full_block ↦ bd.dst i
  | Kind.fragment_piece ↦ (bd.fragment_blocks (flushed_block bd i)).dst
  | Kind.closing_piece ↦ (bd.fragment_blocks (flushed_block bd i)).dst
]

abbrev pub set_fragment_dst : Bulkdata → ℕ → ImageBlock → Bulkdata
set_fragment_dst bd b dst = record bd {
  fragment_blocks = update bd.fragment_blocks b (set_dst (bd.fragment_blocks b) dst);
}

unfoldable pub set_written_block : Bulkdata → ℕ → ImageBlock → Bulkdata
set_written_block bd i block = elim (bd.kind i) [
  | Kind.full_block ↦ record bd { dst = update bd.dst i block }
  | Kind.fragment_piece ↦ set_fragment_dst bd (flushed_block bd i) block
  | Kind.closing_piece ↦ set_fragment_dst bd (flushed_block bd i) block
]

-- Whether a block is written in the place of a chunk.
abbrev pub writes_block : Kind → Bool → Bool
writes_block Kind.full_block flush = true
writes_block Kind.fragment_piece flush = flush
writes_block Kind.closing_piece flush = flush
