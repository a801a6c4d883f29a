-- ===== src/Bulkdata/Order/Ends.antt =====
-- Each step of a worker keeps the order of work, or aborts (src/bulkdata.c).
use libsqfs.Prelude.{
  ℕ, ◌<◌, ◌≡◌, Bool, true, false, Option, none, some, List, ◌∷◌, ◌==◌, arith, refl, sym, ◌∙◌,
  Bool-cases, Option-cases, inl, inr, ◌⊎◌, length,
}
use libsqfs.Memory.{Memory, malloc}
use libsqfs.Compressor.{Compressor}
use libsqfs.Output.{Destination, is_count}
use libsqfs.Bulkdata.Defs.{ChunkState, Bulkdata, update, FragmentBlock, ImageBlock, bulkdata_abort}
use libsqfs.Bulkdata.Work.{mark_finished}
use libsqfs.Bulkdata.Blocks.{
  become_writable, compress, compress_block, compress_piece, written_block, set_written_block,
  make_block, flushed_block, bytes_of, gather, drop_cached, set_dst, set_fragment_dst,
}
use libsqfs.Bulkdata.System.{System, remove, end_read, end_compress, end_write, written}
use libsqfs.Bulkdata.Run.{occ}
use libsqfs.Bulkdata.Order.Writes.{read-Ordered, compressed-Ordered, finished-Ordered}
use libsqfs.Bulkdata.Order.Defs.{Linked, IsOrdered, Kind-cases, occ-remove}

-- What holds while nothing has been aborted.
abbrev pub Sound : {Disk : Type 0} → System Disk → Type 0
Sound s = IsOrdered s × Linked s.bd

abbrev pub Keeps : {Disk : Type 0} → System Disk → System Disk → Type 0
Keeps s t = t.bd.aborted ≡ false → (s.bd.aborted ≡ false) × (Sound s → Sound t)

pub not_going : (b : Bool) → b ≡ true → ¬ (b ≡ false)
not_going b h k = cc

module _ {Disk : Type 0} (s : System Disk) (i : ℕ) where
  open s use {bd, reading, compressing, writing}

  -- Reading fails, or leaves a chunk for deduplication.
  pub end_read_cases :
      ((mem : Memory) × (cached : ℕ → Option (List ℕ)) × (end_read s i ≡ record s {
        mem = mem;
        reading = remove i reading;
        bd = record bd {
          cached_data = cached;
          state = update bd.state i ChunkState.was_read;
          dedupq = i ∷ bd.dedupq;
        };
      }))
      ⊎ ((end_read s i).bd ≡ bulkdata_abort bd)
  unfolding end_read
  end_read_cases = elim (Bool-cases (s.mem.grant s.mem.calls)) [
    | inr no_storage ↦ inr (rw (no_storage, end_read) refl)
    | inl got ↦
        let piece = bd.piece i in
        elim (Option-cases (piece.data_source.pread piece.size piece.offset)) [
          | inl e ↦ inr (rw (got, e, end_read) refl)
          | inr (bytes, e) ↦ elim (Bool-cases (length bytes == piece.size)) [
            | inl whole ↦ inl (
              (malloc s.mem).1,
              update bd.cached_data i (some bytes),
              rw (got, e, whole, end_read) refl,
            )
            | inr short ↦ inr (rw (got, e, short, end_read) refl)
          ]
        ]
  ]

  pub end_read-Keeps : 0 < occ i reading → Keeps s (end_read s i)
  end_read-Keeps here going = elim end_read_cases [
    | inr failed ↦ absurd (not_going true refl (unfold bulkdata_abort in (rw failed at going)))
    | inl (mem, cached, e) ↦
        let e' : (end_read s i).bd.aborted ≡ bd.aborted = rw e refl in
        (
          sym e' ∙ going,
          λ (o, l). rw e (
            read-Ordered bd reading compressing writing l o i bd.readq (remove i reading) cached
                (λ j. omega (arith, occ-remove i j reading here)),
            l,
          ),
        )
  ]

  -- Compression fails, or leaves a chunk that can be written.
  abbrev Compressed : Option Bulkdata → Type 0
  Compressed r =
      (r ≡ none)
      ⊎ ((cached : ℕ → Option (List ℕ)) × (dst : ℕ → ImageBlock) × (blocks : ℕ → FragmentBlock) × (r
            ≡ some (
                become_writable
                  (record bd { cached_data = cached; dst = dst; fragment_blocks = blocks }) i)))

  compress_block-Compressed : (ci : Compressor) → Compressed (compress_block ci bd i)
  unfolding compress_block
  compress_block-Compressed ci =
      let made =
        make_block bd.compress_blocks ci (bd.dst i) (bytes_of (bd.cached_data i))
          (bd.piece i).size in
      elim (Option-cases made) [
        | inl e ↦ inl (rw (e, compress_block) refl)
        | inr (dst, e) ↦ inr (
          update bd.cached_data i none,
          update bd.dst i dst,
          bd.fragment_blocks,
          rw (e, compress_block) refl,
        )
      ]

  compress_piece-Compressed : (ci : Compressor) → Compressed (compress_piece ci bd i)
  unfolding compress_piece
  compress_piece-Compressed ci =
      let b = flushed_block bd i in
      let block = bd.fragment_blocks b in
      let made =
        make_block bd.compress_fragments ci block.dst (gather bd.cached_data block.pieces)
          block.size in
      elim (Option-cases made) [
        | inl e ↦ inl (rw (e, compress_piece) refl)
        | inr (dst, e) ↦ inr (
          drop_cached bd.cached_data block.pieces,
          bd.dst,
          update bd.fragment_blocks b (set_dst block dst),
          rw (e, compress_piece) refl,
        )
      ]

  pub compress-Compressed : (ci : Compressor) → Compressed (compress ci bd i)
  unfolding compress
  compress-Compressed ci = elim (Kind-cases (bd.kind i)) [
    | inl e ↦ rw (e, compress) (compress_block-Compressed ci)
    | inr (inl e) ↦ rw (e, compress) (compress_piece-Compressed ci)
    | inr (inr e) ↦ rw (e, compress) (compress_piece-Compressed ci)
  ]

  pub end_compress-Keeps : (ci : Compressor) → 0 < occ i compressing → Keeps s (end_compress ci s i)
  unfolding end_compress
  end_compress-Keeps ci here = elim (compress-Compressed ci) [
    | inl e ↦ rw (e, end_compress) (λ going. absurd (not_going true refl going))
    | inr (cached, dst, blocks, e) ↦
        rw (e, end_compress)
          (unfold become_writable in
            λ going. (
              going,
              λ (o, l). (
                compressed-Ordered bd reading compressing writing l o i (remove i compressing)
                    cached dst blocks (λ j. omega (arith, occ-remove i j compressing here)),
                l,
              ),
            ))
  ]

  pub set_written_block-changes :
      (block : ImageBlock)
      → (dst : ℕ → ImageBlock) × (blocks : ℕ → FragmentBlock) × (set_written_block bd i block
          ≡ record bd { dst = dst; fragment_blocks = blocks })
  unfolding set_written_block
  set_written_block-changes block = elim (Kind-cases (bd.kind i)) [
    | inl e ↦ (update bd.dst i block, bd.fragment_blocks, rw (e, set_written_block) refl)
    | inr (inl e) ↦ (
      bd.dst,
      (set_fragment_dst bd (flushed_block bd i) block).fragment_blocks,
      rw (e, set_written_block) refl,
    )
    | inr (inr e) ↦ (
      bd.dst,
      (set_fragment_dst bd (flushed_block bd i) block).fragment_blocks,
      rw (e, set_written_block) refl,
    )
  ]

  pub end_write-Keeps : (dst : Destination Disk) → 0 < occ i writing → Keeps s (end_write dst s i)
  unfolding end_write
  end_write-Keeps dst here =
      let block = written_block bd i in
      let result = dst.pwrite s.out.disk (bytes_of block.contents) block.offset in
      elim (Bool-cases (is_count result.0 block.size)) [
        | inr e ↦ rw (e, end_write) (λ going. absurd (not_going true refl going))
        | inl e ↦
            let (dsts, blocks, same) = set_written_block-changes (written block) in
            rw (e, end_write, same)
              (unfold mark_finished in
                λ going. (
                  going,
                  λ (o, l). (
                    finished-Ordered bd reading compressing writing l o i bd.writeq
                        (remove i writing) dsts blocks
                        (λ j. omega (arith, occ-remove i j writing here)),
                    l,
                  ),
                ))
      ]
