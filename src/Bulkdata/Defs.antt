-- ===== src/Bulkdata/Defs.antt =====
-- Chunks of file contents, fragment blocks, and the queues of work on them (src/bulkdata.h, and
-- the constructors of src/bulkdata.c).
use libsqfs.Prelude.{
  ℕ, ◌+◌, ◌-◌, Bool, true, false, Option, none, some, List, [], ◌∷◌, ◌++◌, ◌==◌, if◌then◌else◌,
}
use libsqfs.DataSource.Defs.{Piece}
use libsqfs.Output.{off_mod}

-- libsqfs_chunk_state_t
pub data ChunkState : Type 0 where
  unread : ChunkState
  was_read : ChunkState
  deduplicated : ChunkState
  assigned : ChunkState
  writable : ChunkState
  finished : ChunkState

-- state < libsqfs_chunk_assigned
abbrev pub before_assigned : ChunkState → Bool
before_assigned ChunkState.unread = true
before_assigned ChunkState.was_read = true
before_assigned ChunkState.deduplicated = true
before_assigned ChunkState.assigned = false
before_assigned ChunkState.writable = false
before_assigned ChunkState.finished = false

abbrev pub is_deduplicated : ChunkState → Bool
is_deduplicated ChunkState.deduplicated = true
is_deduplicated ChunkState.unread = false
is_deduplicated ChunkState.was_read = false
is_deduplicated ChunkState.assigned = false
is_deduplicated ChunkState.writable = false
is_deduplicated ChunkState.finished = false

abbrev pub is_writable : ChunkState → Bool
is_writable ChunkState.writable = true
is_writable ChunkState.unread = false
is_writable ChunkState.was_read = false
is_writable ChunkState.deduplicated = false
is_writable ChunkState.assigned = false
is_writable ChunkState.finished = false

abbrev pub is_finished : ChunkState → Bool
is_finished ChunkState.finished = true
is_finished ChunkState.unread = false
is_finished ChunkState.was_read = false
is_finished ChunkState.deduplicated = false
is_finished ChunkState.assigned = false
is_finished ChunkState.writable = false

-- Which of the three `libsqfs_chunk_vmt` a chunk has.
pub data Kind : Type 0 where
  full_block : Kind
  fragment_piece : Kind
  closing_piece : Kind

-- `contents` is the array `data`, which is NULL where there is none.
pub record ImageBlock : Type 0 where
  pub offset : ℕ
  pub size : ℕ
  pub contents : Option (List ℕ)
  pub compressed : Bool

-- libsqfs_image_block_init
unfoldable pub image_block_init : ImageBlock
image_block_init = record { offset = off_mod - 1; size = 0; contents = none; compressed = false }

-- `pieces` is the list from `first` to `last`; `size` and `dst` are the members.
pub record FragmentBlock : Type 0 where
  pub size : ℕ
  pub pieces : List ℕ
  pub dst : ImageBlock

-- A member of the chunks is a function from the chunk's `index`, and a pointer to a chunk is that index, so
-- that `prev` and `next` of a chunk are the numbers beside its own. `count` chunks exist. Fragment
-- blocks are numbered likewise, `nblocks` of them. A queue is the list from `first` to `last`.
pub record Bulkdata : Type 0 where
  pub kind : ℕ → Kind
  pub state : ℕ → ChunkState
  pub piece : ℕ → Piece
  pub cached_data : ℕ → Option (List ℕ)
  pub dst : ℕ → ImageBlock
  pub prev_piece : ℕ → Option ℕ
  pub next_piece : ℕ → Option ℕ
  pub offset : ℕ → ℕ
  pub fragment_block : ℕ → Option ℕ
  pub flush_previous_block : ℕ → Bool
  pub count : ℕ
  pub finished : ℕ
  pub fragment_blocks : ℕ → FragmentBlock
  pub nblocks : ℕ
  pub last_piece : Option ℕ
  pub readq : List ℕ
  pub dedupq : List ℕ
  pub assignq : List ℕ
  pub compressq : List ℕ
  pub writeq : List ℕ
  pub may_add_chunks : Bool
  pub aborted : Bool
  pub compress_blocks : Bool
  pub compress_fragments : Bool
  pub frag_table_loc : ℕ

abbrev pub update {ℓ} : {A : Type ℓ} → (ℕ → A) → ℕ → A → ℕ → A
update f i a j = if i == j then a else f j

-- The piece of a closing piece is zeroed.
abbrev pub empty_piece : Piece
empty_piece = record {
  data_source = record { get_size = none; pread = λ size offset. none };
  offset = 0;
  size = 0;
}

abbrev empty_fragment_block : FragmentBlock
unfolding image_block_init
empty_fragment_block = record { size = 0; pieces = []; dst = image_block_init }

-- libsqfs_bulkdata_init. What the functions give for chunks that do not exist is never read.
unfoldable pub bulkdata_init : Bool → Bool → Bulkdata
unfolding image_block_init
bulkdata_init may_compress_blocks may_compress_fragments = record {
  kind = λ i. full_block;
  state = λ i. unread;
  piece = λ i. empty_piece;
  cached_data = λ i. none;
  dst = λ i. image_block_init;
  prev_piece = λ i. none;
  next_piece = λ i. none;
  offset = λ i. 0;
  fragment_block = λ i. none;
  flush_previous_block = λ i. false;
  count = 0;
  finished = 0;
  fragment_blocks = λ i. empty_fragment_block;
  nblocks = 0;
  last_piece = none;
  readq = [];
  dedupq = [];
  assignq = [];
  compressq = [];
  writeq = [];
  may_add_chunks = true;
  aborted = false;
  compress_blocks = may_compress_blocks;
  compress_fragments = may_compress_fragments;
  frag_table_loc = off_mod - 1;
}

-- `libsqfs_chunk_init` and libsqfs_bulkdata_enqueue_chunk_locked: the chunk goes to the end of the chain and of the
-- first queue.
unfoldable pub enqueue_chunk : Bulkdata → Kind → Piece → Bulkdata
unfolding image_block_init
enqueue_chunk bd kind piece = record bd {
  kind = update bd.kind bd.count kind;
  state = update bd.state bd.count unread;
  piece = update bd.piece bd.count piece;
  cached_data = update bd.cached_data bd.count none;
  dst = update bd.dst bd.count image_block_init;
  prev_piece = update bd.prev_piece bd.count none;
  next_piece = update bd.next_piece bd.count none;
  offset = update bd.offset bd.count (off_mod - 1);
  fragment_block = update bd.fragment_block bd.count none;
  flush_previous_block = update bd.flush_previous_block bd.count false;
  count = bd.count + 1;
  readq = bd.readq ++ (bd.count ∷ []);
}

abbrev link_next : (ℕ → Option ℕ) → Option ℕ → ℕ → ℕ → Option ℕ
link_next next none i = next
link_next next (some p) i = update next p (some i)

-- libsqfs_bulkdata_enqueue_piece_locked
unfoldable pub enqueue_piece : Bulkdata → Kind → Piece → Bulkdata
unfolding enqueue_chunk
enqueue_piece bd kind piece =
    let bd' = enqueue_chunk bd kind piece in
    record bd' {
      prev_piece = update bd'.prev_piece bd.count bd.last_piece;
      next_piece = link_next bd'.next_piece bd.last_piece bd.count;
      last_piece = some bd.count;
    }

-- libsqfs_bulkdata_abort
unfoldable pub bulkdata_abort : Bulkdata → Bulkdata
bulkdata_abort bd = record bd {
  may_add_chunks = false;
  aborted = true;
  readq = [];
  dedupq = [];
  assignq = [];
  compressq = [];
  writeq = [];
}
