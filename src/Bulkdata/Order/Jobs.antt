-- ===== src/Bulkdata/Order/Jobs.antt =====
-- Ending the work that has been begun (src/bulkdata.c): what it leaves.
use libsqfs.Prelude.{
  ℕ, ◌≤◌, ◌<◌, ◌≡◌, Bool, false, List, [], ◌∷◌, ◌==◌, arith, refl, ap, ◌∙◌, Bool-cases,
  Option-cases, inl, inr, ==_iff, ◌⊎◌, length,
}
use libsqfs.Compressor.{Compressor}
use libsqfs.Output.{Destination, is_count}
use libsqfs.Bulkdata.Blocks.{written_block, compress, bytes_of}
use libsqfs.Bulkdata.System.{System, remove, end_read, end_compress, end_write}
use libsqfs.Bulkdata.Run.{occ}
use libsqfs.Bulkdata.Process.{complete, end_reading, end_compressing, end_writing}
use libsqfs.Bulkdata.Order.Ends.{Sound, end_read-Keeps, end_compress-Keeps, end_write-Keeps}
use libsqfs.Bulkdata.Order.Measure.{work_left}
use libsqfs.Bulkdata.Order.Ending.{flags, Ends, end_read-Ends, end_compress-Ends, end_write-Ends}
use libsqfs.Bulkdata.Order.Taken.{Stopped, IsIdle, Working}

module _ {Disk : Type 0} (s : System Disk) (i : ℕ) where
  end_read_jobs :
      ((end_read s i).reading ≡ remove i s.reading)
      × ((end_read s i).compressing ≡ s.compressing)
      × ((end_read s i).writing ≡ s.writing)
  unfolding end_read
  end_read_jobs =
      let piece = s.bd.piece i in
      elim (Bool-cases (s.mem.grant s.mem.calls)) [
        | inr e ↦ rw (e, end_read) (refl, refl, refl)
        | inl got ↦ elim (Option-cases (piece.data_source.pread piece.size piece.offset)) [
          | inl e ↦ rw (got, e, end_read) (refl, refl, refl)
          | inr (bytes, e) ↦ elim (Bool-cases (length bytes == piece.size)) [
            | inl whole ↦ rw (got, e, whole, end_read) (refl, refl, refl)
            | inr short ↦ rw (got, e, short, end_read) (refl, refl, refl)
          ]
        ]
      ]

  end_compress_jobs :
      (ci : Compressor)
      → ((end_compress ci s i).reading ≡ s.reading)
        × ((end_compress ci s i).compressing ≡ remove i s.compressing)
        × ((end_compress ci s i).writing ≡ s.writing)
  unfolding end_compress
  end_compress_jobs ci = elim (Option-cases (compress ci s.bd i)) [
    | inl e ↦ rw (e, end_compress) (refl, refl, refl)
    | inr (bd, e) ↦ rw (e, end_compress) (refl, refl, refl)
  ]

  end_write_jobs :
      (dst : Destination Disk)
      → ((end_write dst s i).reading ≡ s.reading)
        × ((end_write dst s i).compressing ≡ s.compressing)
        × ((end_write dst s i).writing ≡ remove i s.writing)
  unfolding end_write
  end_write_jobs dst =
      let block = written_block s.bd i in
      let result = dst.pwrite s.out.disk (bytes_of block.contents) block.offset in
      elim (Bool-cases (is_count result.0 block.size)) [
        | inl e ↦ rw (e, end_write) (refl, refl, refl)
        | inr e ↦ rw (e, end_write) (refl, refl, refl)
      ]

remove_only : (i : ℕ) → remove i (i ∷ []) ≡ []
unfolding remove
remove_only i = ground (arith, ==_iff i i)

one_is : (i : ℕ) {xs : List ℕ} → xs ≡ i ∷ [] → 0 < occ i xs
one_is i e = ground (arith, ap (occ i) e, ==_iff i i)

-- What ending the work does to a sound state: no more work is left, nobody is at work, and work goes on
-- soundly or is aborted.
pub record Rests {Disk : Type 0} (s t : System Disk) : Type 0 where
  pub no_more : work_left t.bd ≤ work_left s.bd
  pub free : IsIdle t
  pub going : (Sound t × (flags t.bd ≡ flags s.bd)) ⊎ Stopped t.bd

goes_on :
    {Disk : Type 0} (s t : System Disk)
    → s.bd.aborted ≡ false
    → Sound s
    → Ends s t
    → (t.bd.aborted ≡ false → (s.bd.aborted ≡ false) × (Sound s → Sound t))
    → (Sound t × (flags t.bd ≡ flags s.bd)) ⊎ Stopped t.bd
goes_on s t running sound (less, inl e) keeps = inr (s.bd, e)
goes_on s t running sound (less, inr e) keeps =
    inl ((keeps (ap (λ (f : Bool × Bool). f.0) e ∙ running)).1 sound, e)

module _ {Disk : Type 0} (dst : Destination Disk) (ci : Compressor) (block_size : ℕ)
    (s : System Disk) where
  pub read_none :
      s.reading ≡ []
      → complete dst ci block_size s ≡ end_compressing dst ci block_size s.compressing s
  unfolding complete
  read_none e = ap (λ q. end_reading dst ci block_size q s) e

  compress_none :
      s.compressing ≡ []
      → end_compressing dst ci block_size s.compressing s
        ≡ end_writing dst ci block_size s.writing s
  compress_none e = ap (λ q. end_compressing dst ci block_size q s) e

  write_none : s.writing ≡ [] → end_writing dst ci block_size s.writing s ≡ s
  write_none e = ap (λ q. end_writing dst ci block_size q s) e

  pub complete-idle : IsIdle s → complete dst ci block_size s ≡ s
  complete-idle free =
      read_none free.no_reading ∙ (compress_none free.no_compressing ∙ write_none free.no_writing)

  complete-reads : (i : ℕ) → s.reading ≡ i ∷ [] → complete dst ci block_size s ≡ end_read s i
  unfolding complete
  complete-reads i e = ap (λ q. end_reading dst ci block_size q s) e

  complete-compresses :
      (i : ℕ)
      → s.reading ≡ []
      → s.compressing ≡ i ∷ []
      → complete dst ci block_size s ≡ end_compress ci s i
  complete-compresses i r c = read_none r ∙ ap (λ q. end_compressing dst ci block_size q s) c

  complete-writes :
      (i : ℕ)
      → s.reading ≡ []
      → s.compressing ≡ []
      → s.writing ≡ i ∷ []
      → complete dst ci block_size s ≡ end_write dst s i
  complete-writes i r c w =
      read_none r ∙ (compress_none c ∙ ap (λ q. end_writing dst ci block_size q s) w)

  pub complete-Rests :
      s.bd.aborted ≡ false → Sound s → Working s → Rests s (complete dst ci block_size s)
  complete-Rests running sound (Working.idle free) =
      rw (complete-idle free)
        (record { no_more = omega arith; free = free; going = inl (sound, refl) })
  complete-Rests running sound (Working.reads i r c w) =
      let (r', c', w') = end_read_jobs s i in
      let ends = end_read-Ends s sound.0 sound.1 i (one_is i r) in
      rw (complete-reads i r) (record {
        no_more = ends.0;
        free = record {
          no_reading = r' ∙ (ap (remove i) r ∙ remove_only i);
          no_compressing = c' ∙ c;
          no_writing = w' ∙ w;
        };
        going = goes_on s (end_read s i) running sound ends (end_read-Keeps s i (one_is i r));
      })
  complete-Rests running sound (Working.compresses i r c w) =
      let (r', c', w') = end_compress_jobs s i ci in
      let ends = end_compress-Ends s sound.0 sound.1 ci i (one_is i c) in
      rw (complete-compresses i r c) (record {
        no_more = ends.0;
        free = record {
          no_reading = r' ∙ r;
          no_compressing = c' ∙ (ap (remove i) c ∙ remove_only i);
          no_writing = w' ∙ w;
        };
        going =
            goes_on s (end_compress ci s i) running sound ends
              (end_compress-Keeps s i ci (one_is i c));
      })
  complete-Rests running sound (Working.writes i r c w) =
      let (r', c', w') = end_write_jobs s i dst in
      let ends = end_write-Ends s sound.0 sound.1 dst i (one_is i w) in
      rw (complete-writes i r c w) (record {
        no_more = ends.0;
        free = record {
          no_reading = r' ∙ r;
          no_compressing = c' ∙ c;
          no_writing = w' ∙ (ap (remove i) w ∙ remove_only i);
        };
        going =
            goes_on s (end_write dst s i) running sound ends (end_write-Keeps s i dst (one_is i w));
      })
