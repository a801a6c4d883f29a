-- ===== src/Metatable/Reader.antt =====
-- A reader of metadata tables, after the format that src/metatable.c writes, and that every reference
-- which `libsqfs_metatable_append` hands out leads such a reader to the data.
use libsqfs.Prelude.{
  ℕ, zero, suc, ◌+◌, ◌/◌, ◌%◌, ◌^◌, ◌≤◌, ◌<◌, ◌≡◌, refl, sym, ap, ◌∙◌, true, Option, none, some,
  List, [], ◌∷◌, ◌++◌, append-nil, append_assoc, length, length-append, take, drop,
  take-append_length, drop-append_length, if◌then◌else◌, ◌==◌, arith,
}
use libsqfs.Prelude.Bits.{bit_or_flag, bit_or-zero}
use libsqfs.Prelude.Bytes.{le16, le_bytes, read_le, length-le_bytes, read_le-le_bytes}
use libsqfs.Memory.{Memory}
use libsqfs.Output.{Destination, Output, IsFile, off_mod}
use libsqfs.Metatable.Defs.{
  u32_mod, metadata_size, Metablock, Metatable, Entry, flush, position, append,
}
use libsqfs.Metatable.Invariant.{
  stored_size, stored_size-append, IsChain, IsOpened, IsValid, flush-IsValid,
}
use libsqfs.Metatable.Stream.{
  IsCodecOf, opened_bytes, expanded, streamed, Extends, Extends-trans, flush-Extends,
}
use libsqfs.Metatable.Append.{append-Outcome, append-Extends}
use libsqfs.Metatable.Write.{block_header, compressed_bit, write}
use libsqfs.Metatable.OnDisk.{encode_block, encode, length-encode, write-Holds}

-- The header of a block is its size, and the bit that marks it as not compressed.
block_header_lem :
    (b : Metablock)
    → b.size ≤ metadata_size
    → block_header b ≡ b.size + (if b.compressed then 0 else compressed_bit)
unfolding block_header
block_header_lem b h = ground (arith, bit_or_flag 15 b.size (omega arith), bit_or-zero b.size)

encode-append : (xs ys : List Metablock) → encode (xs ++ ys) ≡ encode xs ++ encode ys
encode-append [] ys = refl
encode-append (b ∷ xs) ys =
    ap (λ (l : List ℕ). encode_block b ++ l) (encode-append xs ys)
    ∙ sym (append_assoc (encode_block b) (encode xs) (encode ys))

-- The blocks behind some of the chain form a chain that begins where those end.
IsChain-drop :
    (start : ℕ) (xs ys : List Metablock)
    → IsChain start (xs ++ ys)
    → (s : ℕ) × (s ≡ start + stored_size xs) × IsChain s ys
IsChain-drop start [] ys h = (start, omega arith, h)
IsChain-drop start (b ∷ xs) ys h =
    let (s, e, k) = IsChain-drop (start + (b.size + 2)) xs ys h.3 in (s, omega (arith, e), k)

opened-flush : (tab : Metatable) → (flush tab).opened_block ≡ none
unfolding flush
opened-flush tab = ground arith

length-opened_bytes :
    (o : Option Metablock) (n start : ℕ) → IsOpened o n start → length (opened_bytes o) ≡ n
length-opened_bytes none n start h = sym h
length-opened_bytes (some b) n start h = h.0

module _ (expand : List ℕ → List ℕ) where
  -- What a block's header and the stored bytes stand for.
  abbrev read_block : ℕ → List ℕ → List ℕ
  read_block header stored = if header / 2 ^ 15 == 0 then expand stored else stored

  -- The bytes of all blocks, read one after the other; each takes two bytes at least.
  pub decode : ℕ → List ℕ → List ℕ
  decode zero image = []
  decode (suc fuel) [] = []
  decode (suc fuel) (b ∷ image) =
      let header = read_le 2 (b ∷ image) in
      let size = header % 2 ^ 15 in
      let stored = drop 2 (b ∷ image) in
      read_block header (take size stored) ++ decode fuel (drop size stored)

  -- The bytes that a reference leads to, in the image of a table.
  unfoldable pub resolve : List ℕ → Entry → List ℕ
  resolve image e = drop e.offset (decode (length image) (drop e.block image))

  decode-encode_block :
      (fuel : ℕ) (b : Metablock) (rest : List ℕ)
      → b.size ≡ length b.contents
      → b.size ≤ metadata_size
      → decode (suc fuel) (encode_block b ++ rest) ≡ expanded expand b ++ decode fuel rest
  unfolding decode le_bytes
  decode-encode_block fuel b rest exact small =
      let header = block_header_lem b small in
      let fits : block_header b < 256 ^ 2 = ground (arith, header) in
      let size : block_header b % 2 ^ 15 ≡ length b.contents = ground (arith, header) in
      let flag : read_block (block_header b) b.contents ≡ expanded expand b =
        ground (arith, header) in
      rw (
        read_le-le_bytes 2 (block_header b) (b.contents ++ rest) fits,
        size,
        take-append_length b.contents rest,
        drop-append_length b.contents rest,
        flag,
      )

  -- The reader gets back the stream of the blocks.
  pub decode-encode :
      (fuel start : ℕ) (bs : List Metablock)
      → IsChain start bs
      → length (encode bs) ≤ fuel
      → decode fuel (encode bs) ≡ streamed expand bs
  decode-encode zero start [] h enough = unfold decode in refl
  decode-encode (suc fuel) start [] h enough = unfold decode in refl
  decode-encode zero start (b ∷ bs) h enough = absurd (
      omega (
        arith,
        length-append (encode_block b) (encode bs),
        length-append (le16 (block_header b)) b.contents,
        length-le_bytes 2 (block_header b),
      ))
  decode-encode (suc fuel) start (b ∷ bs) h enough =
      let shorter : length (encode bs) ≤ fuel = omega (
        arith,
        length-append (encode_block b) (encode bs),
        length-append (le16 (block_header b)) b.contents,
        length-le_bytes 2 (block_header b),
      ) in
      decode-encode_block fuel b (encode bs) h.1 h.2
      ∙ ap (λ (l : List ℕ). expanded expand b ++ l)
          (decode-encode fuel (start + (b.size + 2)) bs h.3 shorter)

  flushed-tail :
      {tab t : Metatable} {bytes : List ℕ} (x : Extends expand tab bytes t)
      → t.opened_block ≡ none
      → streamed expand x.added ≡ opened_bytes tab.opened_block ++ bytes
  flushed-tail x e =
      sym (append-nil (streamed expand x.added))
      ∙ ap (λ (o : Option Metablock). streamed expand x.added ++ opened_bytes o) (sym e)
      ∙ x.tail

  resolve-flushed :
      (tab t : Metatable) (bytes : List ℕ)
      → IsValid tab
      → IsValid t
      → t.opened_block ≡ none
      → Extends expand tab bytes t
      → stored_size t.blocks < u32_mod
      → resolve (encode t.blocks) (position tab) ≡ bytes
  unfolding resolve position
  resolve-flushed tab t bytes v v' closed x small =
      let (start, _, chain) = IsChain-drop 0 tab.blocks x.added (rw x.grown at v'.chain) in
      let split = ap encode x.grown ∙ encode-append tab.blocks x.added in
      let total = ap stored_size x.grown ∙ stored_size-append tab.blocks x.added in
      let place : tab.size ≡ length (encode tab.blocks) =
        omega (arith, v.sized, length-encode 0 tab.blocks v.chain) in
      let filled = length-opened_bytes tab.opened_block tab.opened_block_fill tab.size v.opened in
      rw
        (
          split,
          place,
          drop-append_length (encode tab.blocks) (encode x.added),
          decode-encode (length (encode tab.blocks ++ encode x.added)) start x.added chain
              (omega (arith, length-append (encode tab.blocks) (encode x.added))),
          flushed-tail x closed,
          ← filled,
        )
        (drop-append_length (opened_bytes tab.opened_block) bytes)

  -- A reference resolves in the finished table to all that was appended from there on.
  pub resolve-Extends :
      (tab tab' : Metatable) (bytes : List ℕ)
      → IsCodecOf tab.compressor expand
      → IsValid tab
      → IsValid tab'
      → Extends expand tab bytes tab'
      → stored_size (flush tab').blocks < u32_mod
      → resolve (encode (flush tab').blocks) (position tab) ≡ bytes
  resolve-Extends tab tab' bytes codec v v' x small =
      let whole =
        Extends-trans expand x (flush-Extends expand tab' (rw x.same_compressor codec) v') in
      resolve-flushed tab (flush tab') bytes v (flush-IsValid tab' v') (opened-flush tab')
        (rw (append-nil bytes) at whole) small

  -- The same in the file that the table was written to.
  pub write-resolve :
      {Disk : Type 0} (dst : Destination Disk) (read : Disk → ℕ → ℕ → List ℕ) (tab tab' : Metatable)
      (bytes : List ℕ) (out : Output Disk)
      → IsFile dst read
      → IsCodecOf tab.compressor expand
      → IsValid tab
      → IsValid tab'
      → Extends expand tab bytes tab'
      → let (done, written, out') = write dst tab' out in
        done ≡ true
        → stored_size (flush tab').blocks < u32_mod
        → out.size + stored_size (flush tab').blocks < off_mod
        → resolve (read out'.disk written.offset written.size) (position tab) ≡ bytes
  write-resolve dst read tab tab' bytes out file codec v v' x done small fits =
      let (there, table, grown) = write-Holds dst read file tab' out v' small fits done in
      let size : (flush tab').size ≡ length (encode (flush tab').blocks) = omega (
        arith,
        (flush-IsValid tab' v').sized,
        length-encode 0 (flush tab').blocks (flush-IsValid tab' v').chain,
      ) in
      rw (table, size, there.there) (resolve-Extends tab tab' bytes codec v v' x small)

  -- The table is filled, written, and read: the reference that `append` reported before it stored
  -- `bytes` leads a reader of the file to `bytes`, and to what was appended later.
  pub append-write_resolves :
      {Disk : Type 0} (dst : Destination Disk) (read : Disk → ℕ → ℕ → List ℕ) (mem mem' : Memory)
      (tab : Metatable) (bytes later : List ℕ) (out : Output Disk)
      → IsFile dst read
      → IsCodecOf tab.compressor expand
      → IsValid tab
      → let (ok, _, tab') = append mem tab bytes in
        let (ok', _, tab'') = append mem' tab' later in
        let (done, written, out') = write dst tab'' out in
        ok ≡ true
        → ok' ≡ true
        → done ≡ true
        → stored_size (flush tab'').blocks < u32_mod
        → out.size + stored_size (flush tab'').blocks < off_mod
        → resolve (read out'.disk written.offset written.size) (position tab) ≡ bytes ++ later
  append-write_resolves dst read mem mem' tab bytes later out file codec v ok ok' done small fits =
      let x = append-Extends expand mem tab bytes codec v ok in
      let v' = (append-Outcome expand mem tab bytes codec v).valid in
      let codec' : IsCodecOf (append mem tab bytes).2.compressor expand =
        rw x.same_compressor codec in
      let tab'' = (append mem' (append mem tab bytes).2 later).2 in
      let x' = append-Extends expand mem' (append mem tab bytes).2 later codec' v' ok' in
      let v'' = (append-Outcome expand mem' (append mem tab bytes).2 later codec' v').valid in
      write-resolve dst read tab tab'' (bytes ++ later) out file codec v v''
        (Extends-trans expand x x') done small fits
