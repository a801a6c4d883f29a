-- ===== src/Metatable/Defs.antt =====
-- Metadata tables (src/metatable.h, src/metatable.c): a stream of bytes cut into blocks of 8192,
-- each stored with a two-byte header, compressed where that makes it smaller.
use libsqfs.Prelude.{
  ℕ, zero, suc, ◌+◌, ◌-◌, ◌%◌, ◌^◌, min, Bool, true, false, Option, none, some, List, [], ◌∷◌, ◌++◌,
  length, take, drop, ltb, ◌==◌, if◌then◌else◌,
}
use libsqfs.Memory.{Memory, malloc}
use libsqfs.Compressor.{Compressor, instance_compress_meta}
use libsqfs.Output.{off_mod}

-- SQUASHFS_METADATA_SIZE
abbrev pub metadata_size : ℕ
metadata_size = 8192

-- `unsigned int` arithmetic
abbrev pub u32_mod : ℕ
u32_mod = 2 ^ 32

-- `contents` holds the bytes of `data` that are in use; what lies behind is the zeros of `memset`,
-- which nothing reads.
pub record Metablock : Type 0 where
  pub size : ℕ
  pub offset : ℕ
  pub compressed : Bool
  pub contents : List ℕ

-- `blocks` is the list from `first` to `last`.
pub record Metatable : Type 0 where
  pub blocks : List Metablock
  pub nmetablocks : ℕ
  pub opened_block : Option Metablock
  pub opened_block_fill : ℕ
  pub compressor : Option Compressor
  pub size : ℕ
  pub offset : ℕ

-- A reference into a table: where the block begins, and the place in its uncompressed bytes.
pub record Entry : Type 0 where
  pub block : ℕ
  pub offset : ℕ

unfoldable pub init : Option Compressor → Metatable
init compressor = record {
  blocks = [];
  nmetablocks = 0;
  opened_block = none;
  opened_block_fill = 0;
  compressor = compressor;
  size = 0;
  offset = off_mod - 1;
}

-- The result of the compressor call of `flush`; no compressor leaves the size at -1.
unfoldable pub try_compress : Option Compressor → List ℕ → Option (List ℕ)
unfolding instance_compress_meta
try_compress none bytes = none
try_compress (some c) bytes = instance_compress_meta c bytes metadata_size

-- The compressed bytes are kept only where they are fewer.
unfoldable pub store_compressed : Metablock → Option (List ℕ) → Metablock
store_compressed block none = block
store_compressed block (some buffer) =
    if ltb (length buffer) block.size
    then record block { contents = buffer; size = length buffer; compressed = true }
    else block

-- The end of `flush`: the finished block goes to the end of the list.
unfoldable pub add_block : Metatable → Metablock → Metatable
add_block tab block = record tab {
  size = (tab.size + (block.size + 2)) % u32_mod;
  blocks = tab.blocks ++ (block ∷ []);
  nmetablocks = tab.nmetablocks + 1;
}

unfoldable pub flush_block : Metatable → Metablock → Metatable
unfolding try_compress store_compressed add_block
flush_block tab opened =
    let block = record opened { size = tab.opened_block_fill } in
    add_block (record tab { opened_block = none; opened_block_fill = 0 })
      (store_compressed block (try_compress tab.compressor block.contents))

unfoldable pub flush : Metatable → Metatable
unfolding flush_block
flush tab = elim tab.opened_block [ none ↦ tab | some block ↦ flush_block tab block ]

unfoldable pub new_block : Metatable → Metablock
new_block tab = record {
  size = metadata_size;
  offset = tab.size;
  compressed = false;
  contents = [];
}

-- The block that `getblock` returns stands in `opened_block` afterwards; `false` is NULL.
unfoldable pub getblock : Memory → Metatable → Bool × Memory × Metatable
unfolding new_block
getblock mem tab = elim tab.opened_block [
  | some block ↦ (true, mem, tab)
  | none ↦
      let (got, mem') = malloc mem in
      if got
      then (true, mem', record tab { opened_block = some (new_block tab); opened_block_fill = 0 })
      else (false, mem', tab)
]

-- The place that `append` reports for the data that it is about to store.
unfoldable pub position : Metatable → Entry
position tab = record { block = tab.size; offset = tab.opened_block_fill }

-- `memcpy` behind what is filled, and the new fill.
unfoldable pub fill_block : Metatable → Metablock → List ℕ → Metatable
fill_block tab block chunk = record tab {
  opened_block =
      some (record block { contents = take tab.opened_block_fill block.contents ++ chunk });
  opened_block_fill = tab.opened_block_fill + length chunk;
}

unfoldable pub fill : Metatable → List ℕ → Metatable
unfolding fill_block
fill tab chunk = elim tab.opened_block [ none ↦ tab | some block ↦ fill_block tab block chunk ]

-- What of the data the opened block still takes.
unfoldable pub room : Metatable → List ℕ → ℕ
room tab bytes = min (metadata_size - tab.opened_block_fill) (length bytes)

-- One round of the loop behind `getblock`.
unfoldable pub store_chunk : Metatable → List ℕ → Metatable
unfolding room fill flush
store_chunk tab bytes =
    let tab' = fill tab (take (room tab bytes) bytes) in
    if tab'.opened_block_fill == metadata_size then flush tab' else tab'

-- `while (count)`, over the bytes not yet stored. Each round stores a byte at least, so as many rounds
-- as bytes are enough.
unfoldable pub append_loop : ℕ → Memory → Metatable → List ℕ → Bool × Memory × Metatable
unfolding getblock store_chunk room
append_loop fuel mem tab [] = (true, mem, tab)
append_loop zero mem tab (b ∷ bytes) = (false, mem, tab)
append_loop (suc fuel) mem tab (b ∷ bytes) =
    let (got, mem', tab') = getblock mem tab in
    let rest =
      append_loop fuel mem' (store_chunk tab' (b ∷ bytes))
        (drop (room tab' (b ∷ bytes)) (b ∷ bytes)) in
    if got then rest else (false, mem', tab')

unfoldable pub append : Memory → Metatable → List ℕ → Bool × Memory × Metatable
unfolding append_loop
append mem tab bytes = append_loop (length bytes) mem tab bytes
