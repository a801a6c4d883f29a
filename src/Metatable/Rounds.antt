-- ===== src/Metatable/Rounds.antt =====
-- One round of the loop of `libsqfs_metatable_append` (src/metatable.c), and the whole loop.
use libsqfs.Prelude.{
  ℕ, ◌+◌, ◌%◌, ◌<◌, ◌≡◌, ap, refl, ◌∙◌, true, false, none, some, List, ◌++◌, if◌then◌else◌, ◌==◌,
  Bool-cases, inl, inr, Option-cases, length, length-append, length-take, take, take_all, arith,
}
use libsqfs.Memory.{Memory, malloc}
use libsqfs.Metatable.Defs.{
  metadata_size, u32_mod, Metablock, Metatable, flush_block, new_block, getblock, fill_block, room,
  store_chunk,
}
use libsqfs.Metatable.Invariant.{IsChain, stored_size, IsOpened, IsValid, flush_block-IsValid}

-- A table whose opened block takes more data: `IsValid`, except that the block may still be empty.
pub record IsReady (tab : Metatable) (block : Metablock) : Type 0 where
  pub is_open : tab.opened_block ≡ some block
  pub chain : IsChain 0 tab.blocks
  pub counted : tab.nmetablocks ≡ length tab.blocks
  pub sized : tab.size ≡ stored_size tab.blocks % u32_mod
  pub filled : length block.contents ≡ tab.opened_block_fill
  pub at_end : block.offset ≡ tab.size
  pub plain : block.compressed ≡ false
  pub has_room : tab.opened_block_fill < metadata_size

pub getblock-some :
    (mem : Memory) (tab : Metatable) (b : Metablock)
    → tab.opened_block ≡ some b
    → getblock mem tab ≡ (true, mem, tab)
unfolding getblock
getblock-some mem tab b e = ground arith

pub getblock-none :
    (mem : Memory) (tab : Metatable)
    → tab.opened_block ≡ none
    → mem.grant mem.calls ≡ true
    → getblock mem tab ≡ (
      true,
      (malloc mem).1,
      record tab { opened_block = some (new_block tab); opened_block_fill = 0 },
    )
unfolding getblock
getblock-none mem tab e g = ground arith

-- `getblock` fails only where a block is needed and `malloc` returns NULL; the table is unchanged.
pub getblock-fails :
    (mem : Memory) (tab : Metatable)
    → (getblock mem tab).0 ≡ false
    → (mem.grant mem.calls ≡ false) × ((getblock mem tab).2 ≡ tab)
unfolding getblock
getblock-fails mem tab e = ground arith

pub getblock-grant :
    (mem : Memory) (tab : Metatable)
    → tab.opened_block ≡ none
    → (getblock mem tab).0 ≡ true
    → mem.grant mem.calls ≡ true
unfolding getblock
getblock-grant mem tab e got = ground arith

-- Success leaves a block open for the data: the one that was open, or a new one.
pub getblock-IsReady :
    (mem : Memory) (tab : Metatable)
    → IsValid tab
    → (getblock mem tab).0 ≡ true
    → (b : Metablock) × IsReady (getblock mem tab).2 b
getblock-IsReady mem tab v got = elim (Option-cases tab.opened_block) [
  | inl e ↦ (
    new_block tab,
    rw (getblock-none mem tab e (getblock-grant mem tab e got)) (
        unfold new_block in
        record {
          is_open = refl;
          chain = v.chain;
          counted = v.counted;
          sized = v.sized;
          filled = refl;
          at_end = refl;
          plain = refl;
          has_room = omega arith;
        }),
  )
  | inr (b, e) ↦
      let opened : IsOpened (some b) tab.opened_block_fill tab.size = rw e at v.opened in
      (
        b,
        rw (getblock-some mem tab b e) (record {
          is_open = e;
          chain = v.chain;
          counted = v.counted;
          sized = v.sized;
          filled = opened.0;
          at_end = opened.1;
          plain = opened.2;
          has_room = v.has_room;
        }),
      )
]

-- The table after the copy of one round, and the block in it.
abbrev pub filled_block : Metatable → Metablock → List ℕ → Metablock
filled_block tab b chunk = record b { contents = take tab.opened_block_fill b.contents ++ chunk }

pub store_chunk-open :
    (tab : Metatable) (b : Metablock) (bytes : List ℕ)
    → tab.opened_block ≡ some b
    → let tab' = fill_block tab b (take (room tab bytes) bytes) in
      store_chunk tab bytes ≡ (
        if tab'.opened_block_fill == metadata_size
        then flush_block tab' (filled_block tab b (take (room tab bytes) bytes))
        else tab')
unfolding store_chunk fill_block
store_chunk-open tab b bytes e = ground arith

length-chunk :
    (tab : Metatable) (bytes : List ℕ) → length (take (room tab bytes) bytes) ≡ room tab bytes
unfolding room
length-chunk tab bytes = omega (arith, length-take {0} (room tab bytes) bytes)

-- The bytes that are in the block stay in front of the new ones.
pub contents-filled_block :
    (tab : Metatable) (b : Metablock) (chunk : List ℕ)
    → length b.contents ≡ tab.opened_block_fill
    → (filled_block tab b chunk).contents ≡ b.contents ++ chunk
contents-filled_block tab b chunk e =
    ap (λ (l : List ℕ). l ++ chunk) (take_all tab.opened_block_fill b.contents (omega arith))

length-filled_block :
    (tab : Metatable) (b : Metablock) (chunk : List ℕ)
    → length b.contents ≡ tab.opened_block_fill
    → length (filled_block tab b chunk).contents ≡ tab.opened_block_fill + length chunk
length-filled_block tab b chunk e =
    ap length (contents-filled_block tab b chunk e) ∙ omega (arith, length-append b.contents chunk)

-- One round of `append` stores at least one byte and leaves a valid table.
pub store_chunk-IsValid :
    (tab : Metatable) (b : Metablock) (bytes : List ℕ)
    → IsReady tab b
    → 0 < length bytes
    → IsValid (store_chunk tab bytes)
unfolding fill_block
store_chunk-IsValid tab b bytes r pos =
    rw (store_chunk-open tab b bytes r.is_open)
      (elim (Bool-cases (tab'.opened_block_fill == metadata_size)) [
        | inl full ↦
            rw full (
              flush_block-IsValid tab' block r.chain r.counted r.sized r.at_end exact
                (ground arith))
        | inr more ↦ rw more (record {
          chain = r.chain;
          counted = r.counted;
          sized = r.sized;
          opened = (
            exact,
            r.at_end,
            r.plain,
            unfold room in omega (arith, length-chunk tab bytes, r.has_room),
          );
          has_room = unfold room in ground (arith, length-chunk tab bytes, r.has_room);
        })
      ])
  where
    chunk : List ℕ
    chunk = take (room tab bytes) bytes

    tab' : Metatable
    tab' = fill_block tab b chunk

    block : Metablock
    block = filled_block tab b chunk

    exact : length block.contents ≡ tab'.opened_block_fill
    exact = length-filled_block tab b chunk r.filled
