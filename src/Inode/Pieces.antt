-- ===== src/Inode/Pieces.antt =====
-- How a file is cut into blocks and a tail (`libsqfs_regular_inode_create`, src/regular.c).
use libsqfs.Prelude.{
  ℕ, zero, suc, ◌+◌, ◌-◌, ◌*◌, ◌/◌, ◌%◌, Bool, true, false, Option, none, some, List, [], ◌∷◌, ltb,
  ◌==◌, if◌then◌else◌,
}
use libsqfs.Memory.{malloc}
use libsqfs.DataSource.Defs.{Data, Piece}
use libsqfs.Superblock.Defs.{Fragments}
use libsqfs.Bulkdata.System.{System, submit, submit_fragment}

-- `switch(image->options->fragments)`: the number of blocks, and the size of the tail.
abbrev pub block_count : ℕ → ℕ → ℕ
block_count block_size file_size = (file_size + block_size - 1) / block_size

unfoldable pub cut : Fragments → ℕ → ℕ → ℕ × ℕ
cut Fragments.never block_size file_size = (block_count block_size file_size, 0)
cut Fragments.small block_size file_size =
    if ltb file_size block_size then (0, file_size) else (block_count block_size file_size, 0)
cut Fragments.always block_size file_size = (file_size / block_size, file_size % block_size)

-- The piece for block `n`.
abbrev block_piece : Data → ℕ → ℕ → ℕ → Piece
block_piece source block_size file_size n =
    let offset = n * block_size in
    record {
      data_source = source;
      offset = offset;
      size = if ltb (file_size - offset) block_size then file_size - offset else block_size;
    }

abbrev pub tail_piece : Data → ℕ → ℕ → Piece
tail_piece source file_size tail_size = record {
  data_source = source;
  offset = file_size - tail_size;
  size = tail_size;
}

-- The blocks from number `n` on that are left to submit.
unfoldable pub block_pieces : Data → (block_size file_size n left : ℕ) → List Piece
block_pieces source block_size file_size n zero = []
block_pieces source block_size file_size n (suc left) =
    block_piece source block_size file_size n
    ∷ block_pieces source block_size file_size (n + 1) left

-- The tail is submitted where it has a size.
abbrev pub tail_pieces : Data → ℕ → ℕ → List Piece
tail_pieces source file_size tail_size =
    if tail_size == 0 then [] else tail_piece source file_size tail_size ∷ []

-- `for(n=0; n<nblocks; n++)`: whether all blocks were submitted, and the numbers of their chunks.
unfoldable pub submit_blocks :
    {Disk : Type 0} → System Disk → List Piece → Bool × System Disk × List ℕ
unfolding submit
submit_blocks s [] = (true, s, [])
submit_blocks s (p ∷ ps) =
    let (ok, s', chunks) = submit_blocks (submit s p) ps in
    if (malloc s.mem).0 then (ok, s', s.bd.count ∷ chunks) else (false, submit s p, [])

-- The submission of the tail, and its chunk.
unfoldable pub submit_tail :
    {Disk : Type 0} → System Disk → List Piece → Bool × System Disk × Option ℕ
unfolding submit_fragment
submit_tail s [] = (true, s, none)
submit_tail s (p ∷ ps) =
    if (malloc s.mem).0
    then (true, submit_fragment s p, some s.bd.count)
    else (false, submit_fragment s p, none)
