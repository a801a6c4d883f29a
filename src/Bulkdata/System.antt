-- ===== src/Bulkdata/System.antt =====
-- Workers that share a `libsqfs_bulkdata` (src/bulkdata.c): what they do under the lock, one at a time, and
-- what they have begun and not yet ended.
use libsqfs.Prelude.{
  ℕ, Bool, true, false, not, none, some, List, [], ◌∷◌, ◌==◌, ◌&&◌, ◌||◌, length, if◌then◌else◌,
}
use libsqfs.Memory.{Memory, malloc}
use libsqfs.Compressor.{Compressor}
use libsqfs.DataSource.Defs.{Piece}
use libsqfs.Output.{Destination, Output, reserve, is_count}
use libsqfs.Bulkdata.Defs.{
  ChunkState, Kind, ImageBlock, Bulkdata, update, enqueue_chunk, enqueue_piece, empty_piece,
  bulkdata_abort,
}
use libsqfs.Bulkdata.Work.{mark_finished, deduplicate, assign}
use libsqfs.Bulkdata.Blocks.{compress, written_block, set_written_block, writes_block, bytes_of}

-- The chunks that workers have taken from a queue and are reading, compressing or writing, the lock given up.
pub record System (Disk : Type 0) : Type 0 where
  pub bd : Bulkdata
  pub out : Output Disk
  pub mem : Memory
  pub reading : List ℕ
  pub compressing : List ℕ
  pub writing : List ℕ

-- One occurrence is taken out.
unfoldable pub remove : ℕ → List ℕ → List ℕ
remove i [] = []
remove i (j ∷ js) = if j == i then js else j ∷ remove i js

abbrev pub with_bd : {Disk : Type 0} → System Disk → Bulkdata → System Disk
with_bd s bd = record s { bd = bd }

-- A fatal error, flagged with the lock given up (`libsqfs_image_out_of_memory`, `libsqfs_image_flag_error`
-- of src/image.c): all work is aborted.
abbrev pub fail : {Disk : Type 0} → System Disk → System Disk
fail s = record s { bd = bulkdata_abort s.bd }

abbrev pub set_offset : ImageBlock → ℕ → ImageBlock
set_offset block offset = record block { offset = offset }

abbrev pub written : ImageBlock → ImageBlock
written block = record block { contents = none }

-- The tests of `libsqfs_bulkdata_process` behind a call that had no result: whether the worker ends.
unfoldable pub is_over : Bulkdata → Bool
is_over bd = (bd.finished == bd.count && not bd.may_add_chunks) || bd.aborted

module _ {Disk : Type 0} where
  -- The beginning of `libsqfs_chunk_do_read`, and `libsqfs_closing_piece_read`.
  unfoldable pub begin_read : System Disk → ℕ → System Disk
  begin_read s i =
      let reading = record s { reading = i ∷ s.reading } in
      let was_read = record s {
        bd = record s.bd {
          state = update s.bd.state i ChunkState.was_read;
          dedupq = i ∷ s.bd.dedupq;
        };
      } in
      elim (s.bd.kind i) [
        | Kind.full_block ↦ reading
        | Kind.fragment_piece ↦ reading
        | Kind.closing_piece ↦ was_read
      ]

  -- The beginning of both functions that compress.
  unfoldable pub begin_compress : System Disk → ℕ → System Disk
  begin_compress s i = record s { compressing = i ∷ s.compressing }

  -- The beginning of `libsqfs_image_block_write` in `libsqfs_full_block_write` and
  -- `libsqfs_fragment_piece_write`.
  unfoldable pub begin_write : System Disk → ℕ → System Disk
  unfolding written_block set_written_block mark_finished reserve
  begin_write s i =
      let block = written_block s.bd i in
      let (offset, out) = reserve s.out block.size in
      if writes_block (s.bd.kind i) (s.bd.flush_previous_block i)
      then record s {
        bd = set_written_block s.bd i (set_offset block offset);
        out = out;
        writing = i ∷ s.writing;
      }
      else with_bd s (mark_finished s.bd i)

  -- The end of `libsqfs_chunk_do_read`.
  unfoldable pub end_read : System Disk → ℕ → System Disk
  unfolding bulkdata_abort
  end_read s i =
      let (got, mem) = malloc s.mem in
      let s' = record s { mem = mem; reading = remove i s.reading } in
      let piece = s.bd.piece i in
      if got
      then elim (piece.data_source.pread piece.size piece.offset) [
        | none ↦ fail s'
        | some bytes ↦
            if length bytes == piece.size
            then with_bd s' (record s.bd {
              cached_data = update s.bd.cached_data i (some bytes);
              state = update s.bd.state i ChunkState.was_read;
              dedupq = i ∷ s.bd.dedupq;
            })
            else fail s'
      ]
      else fail s'

  -- The steps of `libsqfs_bulkdata_process_single_locked`: the first queue that has a chunk gives it away. The
  -- Boolean is the result.
  unfoldable pub pop_read : System Disk → List ℕ → Bool × System Disk
  unfolding begin_read
  pop_read s [] = (false, s)
  pop_read s (i ∷ q) = (true, begin_read (with_bd s (record s.bd { readq = q })) i)

  unfoldable pub pop_dedup : System Disk → List ℕ → Bool × System Disk
  unfolding pop_read deduplicate
  pop_dedup s [] = pop_read s s.bd.readq
  pop_dedup s (i ∷ q) = (true, with_bd s (deduplicate (record s.bd { dedupq = q }) i))

  unfoldable pub pop_assign : ℕ → System Disk → List ℕ → Bool × System Disk
  unfolding pop_dedup assign
  pop_assign block_size s [] = pop_dedup s s.bd.dedupq
  pop_assign block_size s (i ∷ q) =
      let (ok, mem, bd) = assign block_size s.mem (record s.bd { assignq = q }) i in
      (ok, record s { bd = bd; mem = mem })

  unfoldable pub pop_compress : ℕ → System Disk → List ℕ → Bool × System Disk
  unfolding pop_assign begin_compress
  pop_compress block_size s [] = pop_assign block_size s s.bd.assignq
  pop_compress block_size s (i ∷ q) =
      (true, begin_compress (with_bd s (record s.bd { compressq = q })) i)

  unfoldable pub pop_write : ℕ → System Disk → List ℕ → Bool × System Disk
  unfolding pop_compress begin_write
  pop_write block_size s [] = pop_compress block_size s s.bd.compressq
  pop_write block_size s (i ∷ q) = (true, begin_write (with_bd s (record s.bd { writeq = q })) i)

  unfoldable pub process_single : ℕ → System Disk → Bool × System Disk
  unfolding pop_write
  process_single block_size s = pop_write block_size s s.bd.writeq

  -- The end of both functions that compress.
  unfoldable pub end_compress : Compressor → System Disk → ℕ → System Disk
  unfolding compress bulkdata_abort
  end_compress ci s i =
      let s' = record s { compressing = remove i s.compressing } in
      elim (compress ci s.bd i) [ none ↦ fail s' | some bd ↦ with_bd s' bd ]

  -- The end of `libsqfs_image_block_write`, and that of the functions that call it.
  unfoldable pub end_write : Destination Disk → System Disk → ℕ → System Disk
  unfolding written_block set_written_block mark_finished bulkdata_abort
  end_write dst s i =
      let block = written_block s.bd i in
      let (count, disk) = dst.pwrite s.out.disk (bytes_of block.contents) block.offset in
      let s' = record s { out = record s.out { disk = disk }; writing = remove i s.writing } in
      if is_count count block.size
      then with_bd s' (mark_finished (set_written_block s.bd i (written block)) i)
      else fail s'

  -- libsqfs_bulkdata_sumbit
  unfoldable pub submit : System Disk → Piece → System Disk
  unfolding enqueue_chunk
  submit s piece =
      let (got, mem) = malloc s.mem in
      record s { mem = mem; bd = if got then enqueue_chunk s.bd Kind.full_block piece else s.bd }

  -- libsqfs_bulkdata_submit_fragment
  unfoldable pub submit_fragment : System Disk → Piece → System Disk
  unfolding enqueue_piece
  submit_fragment s piece =
      let (got, mem) = malloc s.mem in
      record s {
        mem = mem;
        bd = if got then enqueue_piece s.bd Kind.fragment_piece piece else s.bd;
      }

  -- libsqfs_bulkdata_seal
  unfoldable pub seal : System Disk → Bool × System Disk
  unfolding enqueue_piece
  seal s =
      let (got, mem) = malloc s.mem in
      let closed = record (enqueue_piece s.bd Kind.closing_piece empty_piece) {
        may_add_chunks = false;
      } in
      if s.bd.may_add_chunks
      then (if got
          then (true, record s { mem = mem; bd = closed })
          else (false, record s { mem = mem }))
      else (true, s)
