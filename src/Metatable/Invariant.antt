-- ===== src/Metatable/Invariant.antt =====
-- The representation invariant of `libsqfs_metatable` (src/metatable.c), and that `flush` keeps it.
use libsqfs.Prelude.{
  ℕ, ◌+◌, ◌%◌, ◌≤◌, ◌<◌, ◌≡◌, refl, ◌∙◌, false, Option, none, some, List, [], ◌∷◌, ◌++◌, sym, inl,
  inr, Option-cases, length, length-append, arith,
}
use libsqfs.Compressor.{Compressor}
use libsqfs.Metatable.Defs.{
  metadata_size, u32_mod, Metablock, Metatable, init, try_compress, store_compressed, add_block,
  flush_block, flush,
}

-- The bytes that finished blocks take in the image, headers included.
abbrev pub stored_size : List Metablock → ℕ
stored_size [] = 0
stored_size (b ∷ bs) = b.size + 2 + stored_size bs

-- Each block's `offset` is the number of bytes stored before it, and its size that of its contents.
abbrev pub IsChain : ℕ → List Metablock → Type 0
IsChain start [] = Unit
IsChain start (b ∷ bs) =
    (b.offset ≡ start % u32_mod)
    × (b.size ≡ length b.contents)
    × (b.size ≤ metadata_size)
    × IsChain (start + (b.size + 2)) bs

-- The block being filled holds `n` bytes, at least one, and will be stored at `start`.
abbrev pub IsOpened : Option Metablock → ℕ → ℕ → Type 0
IsOpened none n start = n ≡ 0
IsOpened (some b) n start =
    (length b.contents ≡ n) × (b.offset ≡ start) × (b.compressed ≡ false) × (0 < n)

pub record IsValid (tab : Metatable) : Type 0 where
  pub chain : IsChain 0 tab.blocks
  pub counted : tab.nmetablocks ≡ length tab.blocks
  pub sized : tab.size ≡ stored_size tab.blocks % u32_mod
  pub opened : IsOpened tab.opened_block tab.opened_block_fill tab.size
  pub has_room : tab.opened_block_fill < metadata_size

pub init-IsValid : (c : Option Compressor) → IsValid (init c)
unfolding init
init-IsValid c = record {
  chain = tt;
  counted = refl;
  sized = refl;
  opened = refl;
  has_room = omega arith;
}

pub stored_size-append :
    (xs ys : List Metablock) → stored_size (xs ++ ys) ≡ stored_size xs + stored_size ys
stored_size-append [] ys = omega arith
stored_size-append (b ∷ xs) ys = omega (arith, stored_size-append xs ys)

IsChain-append :
    (start end : ℕ) (xs ys : List Metablock)
    → start + stored_size xs ≡ end
    → IsChain start xs
    → IsChain end ys
    → IsChain start (xs ++ ys)
IsChain-append start end [] ys e h k = let e' : end ≡ start = omega arith in rw e' at k
IsChain-append start end (b ∷ xs) ys e h k =
    (h.0, h.1, h.2, IsChain-append (start + (b.size + 2)) end xs ys (omega arith) h.3 k)

-- What `flush` may store for a block: the block itself, or fewer bytes at the same place.
record IsStored (block stored : Metablock) : Type 0 where
  same_place : stored.offset ≡ block.offset
  exact : stored.size ≡ length stored.contents
  smaller : stored.size ≤ block.size

store_compressed-IsStored :
    (block : Metablock) (packed : Option (List ℕ))
    → block.size ≡ length block.contents
    → IsStored block (store_compressed block packed)
unfolding store_compressed
store_compressed-IsStored block packed e = ground arith

add_block-IsValid :
    (tab : Metatable) (block : Metablock)
    → IsValid tab
    → tab.opened_block ≡ none
    → tab.opened_block_fill ≡ 0
    → block.offset ≡ tab.size
    → block.size ≡ length block.contents
    → block.size ≤ metadata_size
    → IsValid (add_block tab block)
unfolding add_block
add_block-IsValid tab block v none_open empty at_end exact small = record {
  chain =
      IsChain-append 0 (stored_size tab.blocks) tab.blocks (block ∷ []) (omega arith) v.chain
        (at_end ∙ v.sized, exact, small, tt);
  counted = omega (arith, length-append tab.blocks (block ∷ []), v.counted);
  sized = omega (arith, stored_size-append tab.blocks (block ∷ []), v.sized);
  opened = rw none_open empty;
  has_room = v.has_room;
}

pub flush_block-IsValid :
    (tab : Metatable) (b : Metablock)
    → IsChain 0 tab.blocks
    → tab.nmetablocks ≡ length tab.blocks
    → tab.size ≡ stored_size tab.blocks % u32_mod
    → b.offset ≡ tab.size
    → length b.contents ≡ tab.opened_block_fill
    → tab.opened_block_fill ≤ metadata_size
    → IsValid (flush_block tab b)
unfolding flush_block
flush_block-IsValid tab b chain counted sized at_end filled small =
    add_block-IsValid closed (store_compressed block (try_compress tab.compressor block.contents))
      (record {
        chain = chain;
        counted = counted;
        sized = sized;
        opened = refl;
        has_room = omega arith;
      })
      refl refl (stored.same_place ∙ at_end) stored.exact (omega (arith, stored.smaller))
  where
    closed : Metatable
    closed = record tab { opened_block = none; opened_block_fill = 0 }

    block : Metablock
    block = record b { size = tab.opened_block_fill }

    stored : IsStored block (store_compressed block (try_compress tab.compressor block.contents))
    stored =
        store_compressed-IsStored block (try_compress tab.compressor block.contents) (sym filled)

pub flush-none : (tab : Metatable) → tab.opened_block ≡ none → flush tab ≡ tab
unfolding flush
flush-none tab e = ground arith

pub flush-some :
    (tab : Metatable) (b : Metablock) → tab.opened_block ≡ some b → flush tab ≡ flush_block tab b
unfolding flush
flush-some tab b e = ground arith

-- A finished table stays valid when its last block is flushed.
pub flush-IsValid : (tab : Metatable) → IsValid tab → IsValid (flush tab)
flush-IsValid tab v = elim (Option-cases tab.opened_block) [
  | inl e ↦ rw (flush-none tab e) v
  | inr (b, e) ↦
      let opened : IsOpened (some b) tab.opened_block_fill tab.size = rw e at v.opened in
      rw (flush-some tab b e) (
        flush_block-IsValid tab b v.chain v.counted v.sized opened.1 opened.0
          (omega (arith, v.has_room)))
]
