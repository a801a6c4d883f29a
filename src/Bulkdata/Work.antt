-- ===== src/Bulkdata/Work.antt =====
-- The steps that workers take on chunks (the functions behind the three `libsqfs_chunk_vmt` of
-- src/bulkdata.c). A function that gives up the lock is two definitions: what it does before, and what it does
-- from there to the end. What it does without the lock touches only its own chunk.
use libsqfs.Prelude.{
  ℕ, zero, suc, ◌+◌, Bool, true, false, Option, none, some, List, [], ◌∷◌, ◌++◌, ◌&&◌, ◌||◌, ltb,
  if◌then◌else◌,
}
use libsqfs.Memory.{Memory, malloc}
use libsqfs.Bulkdata.Defs.{
  ChunkState, before_assigned, is_deduplicated, is_writable, is_finished, Kind, FragmentBlock,
  Bulkdata, update, image_block_init, bulkdata_abort,
}

-- !chunk->prev || chunk->prev->state == libsqfs_chunk_finished
abbrev pub prev_finished : (ℕ → ChunkState) → ℕ → Bool
prev_finished state zero = true
prev_finished state (suc i) = is_finished (state i)

-- libsqfs_chunk_try_writeout
unfoldable pub try_writeout : Bulkdata → ℕ → Bulkdata
try_writeout bd i = record bd {
  writeq =
      if is_writable (bd.state i) && prev_finished bd.state i then i ∷ bd.writeq else bd.writeq;
}

-- libsqfs_chunk_mark_finished; `next` is there where its number is below `count`.
unfoldable pub mark_finished : Bulkdata → ℕ → Bulkdata
mark_finished bd i =
    let state = update bd.state i ChunkState.finished in
    record bd {
      state = state;
      writeq =
          if ltb (suc i) bd.count && is_writable (state (suc i))
          then suc i ∷ bd.writeq
          else bd.writeq;
      finished = bd.finished + 1;
    }

-- piece->prev_piece && piece->prev_piece->state < libsqfs_chunk_assigned
abbrev pub waits_for : (ℕ → ChunkState) → Option ℕ → Bool
waits_for state none = false
waits_for state (some p) = before_assigned (state p)

-- libsqfs_chunk_do_deduplicate
unfoldable pub deduplicate_block : Bulkdata → ℕ → Bulkdata
deduplicate_block bd i = record bd {
  state = update bd.state i ChunkState.deduplicated;
  assignq = i ∷ bd.assignq;
}

-- libsqfs_fragment_piece_deduplicate and libsqfs_closing_piece_deduplicate
unfoldable pub deduplicate_piece : Bulkdata → ℕ → Bulkdata
deduplicate_piece bd i =
    let state = update bd.state i ChunkState.deduplicated in
    record bd {
      state = state;
      assignq = if waits_for state (bd.prev_piece i) then bd.assignq else i ∷ bd.assignq;
    }

unfoldable pub deduplicate : Bulkdata → ℕ → Bulkdata
unfolding deduplicate_block deduplicate_piece
deduplicate bd i = elim (bd.kind i) [
  | Kind.full_block ↦ deduplicate_block bd i
  | Kind.fragment_piece ↦ deduplicate_piece bd i
  | Kind.closing_piece ↦ deduplicate_piece bd i
]

-- libsqfs_chunk_do_assign
unfoldable pub assign_block : Bulkdata → ℕ → Bulkdata
assign_block bd i = record bd {
  state = update bd.state i ChunkState.assigned;
  compressq = i ∷ bd.compressq;
}

-- The block that piece `i` is tried in: that of the previous piece.
abbrev pub previous_block : Bulkdata → ℕ → Option ℕ
previous_block bd i = elim (bd.prev_piece i) [ none ↦ none | some p ↦ bd.fragment_block p ]

-- Whether the piece makes the block too large, so that the block is to be flushed.
abbrev pub overflows : ℕ → Bulkdata → ℕ → Option ℕ → Bool
overflows block_size bd i none = false
overflows block_size bd i (some b) =
    ltb block_size ((bd.fragment_blocks b).size + (bd.piece i).size)

-- The block to which the piece is added; that with the number `nblocks` is a new one.
abbrev target_block : Bool → Option ℕ → ℕ → ℕ
target_block flush none new = new
target_block flush (some b) new = if flush then new else b

-- Whether the block has to be created.
abbrev pub needs_block : Bool → Option ℕ → Bool
needs_block flush none = true
needs_block flush (some b) = flush

-- libsqfs_fragment_block_create, where the block is needed and storage is there.
unfoldable fragment_block_create : Bool → Bulkdata → Bulkdata
unfolding image_block_init
fragment_block_create needed bd =
    let created : FragmentBlock = record { size = 0; pieces = []; dst = image_block_init } in
    record bd {
      fragment_blocks =
          if needed then update bd.fragment_blocks bd.nblocks created else bd.fragment_blocks;
      nblocks = if needed then bd.nblocks + 1 else bd.nblocks;
    }

abbrev grow_block : FragmentBlock → ℕ → ℕ → FragmentBlock
grow_block block i size = record block {
  pieces = block.pieces ++ (i ∷ []);
  size = block.size + size;
}

-- libsqfs_fragment_block_add_piece
unfoldable add_piece : Bulkdata → ℕ → ℕ → Bulkdata
add_piece bd b i = record bd {
  fragment_block = update bd.fragment_block i (some b);
  offset = update bd.offset i (bd.fragment_blocks b).size;
  fragment_blocks =
      update bd.fragment_blocks b (grow_block (bd.fragment_blocks b) i (bd.piece i).size);
}

-- What both functions that assign a piece do with its state.
unfoldable pub settle : Bulkdata → ℕ → Bulkdata
unfolding try_writeout
settle bd i =
    if bd.flush_previous_block i
    then record bd { state = update bd.state i ChunkState.assigned; compressq = i ∷ bd.compressq }
    else try_writeout (record bd { state = update bd.state i ChunkState.writable }) i

-- The next piece, where it has been waiting for this one.
abbrev push_next : (ℕ → ChunkState) → Option ℕ → List ℕ → List ℕ
push_next state none q = q
push_next state (some n) q = if is_deduplicated (state n) then n ∷ q else q

unfoldable pub wake_next : Bulkdata → ℕ → Bulkdata
wake_next bd i = record bd { assignq = push_next bd.state (bd.next_piece i) bd.assignq }

-- What is done with the fragment blocks for a piece.
unfoldable pub place_piece : Bulkdata → ℕ → Bool → Option ℕ → Bulkdata
unfolding add_piece fragment_block_create
place_piece bd i flush block =
    let flagged = record bd {
      flush_previous_block = update bd.flush_previous_block i (flush || bd.flush_previous_block i);
    } in
    add_piece (fragment_block_create (needs_block flush block) flagged)
      (target_block flush block bd.nblocks) i

-- libsqfs_fragment_piece_assign. A call that gets no storage ends in an abort of all work, by
-- `libsqfs_image_out_of_memory`.
unfoldable pub assign_piece : ℕ → Memory → Bulkdata → ℕ → Bool × Memory × Bulkdata
unfolding place_piece settle wake_next bulkdata_abort
assign_piece block_size mem bd i =
    let block = previous_block bd i in
    let flush = overflows block_size bd i block in
    let (got, mem') = malloc mem in
    let placed = wake_next (settle (place_piece bd i flush block) i) i in
    if needs_block flush block
    then (if got then (true, mem', placed) else (false, mem', bulkdata_abort bd))
    else (true, mem, placed)

abbrev pub is_some : Option ℕ → Bool
is_some none = false
is_some (some n) = true

-- libsqfs_closing_piece_assign
unfoldable pub assign_closing : Bulkdata → ℕ → Bulkdata
unfolding settle
assign_closing bd i =
    settle
      (record bd {
        flush_previous_block =
            update bd.flush_previous_block i
              (is_some (bd.prev_piece i) || bd.flush_previous_block i);
      })
      i

unfoldable pub assign : ℕ → Memory → Bulkdata → ℕ → Bool × Memory × Bulkdata
unfolding assign_block assign_piece assign_closing
assign block_size mem bd i = elim (bd.kind i) [
  | Kind.full_block ↦ (true, mem, assign_block bd i)
  | Kind.fragment_piece ↦ assign_piece block_size mem bd i
  | Kind.closing_piece ↦ (true, mem, assign_closing bd i)
]
