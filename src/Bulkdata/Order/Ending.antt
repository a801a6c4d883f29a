-- ===== src/Bulkdata/Order/Ending.antt =====
-- Each round of the loop of `libsqfs_bulkdata_process` (src/bulkdata.c) leaves less work.
use libsqfs.Prelude.{
  ℕ, ◌≤◌, ◌<◌, ◌≡◌, Bool, true, List, [], ◌∷◌, arith, refl, ap, Bool-cases, inl, inr, ◌⊎◌, length,
}
use libsqfs.Compressor.{Compressor}
use libsqfs.Output.{Destination, is_count}
use libsqfs.Bulkdata.Defs.{bulkdata_abort, Bulkdata}
use libsqfs.Bulkdata.Work.{mark_finished}
use libsqfs.Bulkdata.Blocks.{become_writable, written_block, writes_block, bytes_of}
use libsqfs.Bulkdata.System.{
  System, with_bd, set_offset, written, begin_read, begin_compress, begin_write, pop_read,
  pop_dedup, pop_assign, pop_compress, pop_write, process_single, end_read, end_compress, end_write,
}
use libsqfs.Bulkdata.Run.{occ}
use libsqfs.Bulkdata.Order.Ends.{end_read_cases, compress-Compressed, set_written_block-changes}
use libsqfs.Bulkdata.Order.Pieces.{is_read, is_ready}
use libsqfs.Bulkdata.Order.Measure.{
  work_left, deduplicate-less, read-less, compressed-less, finished-less, abort-less,
}
use libsqfs.Bulkdata.Order.Defs.{Linked, IsOrdered, Kind-cases}
use libsqfs.Bulkdata.Order.Assigning.{known, to_read, to_compress, to_write, occ_front, assign-less}

abbrev pub flags : Bulkdata → Bool × Bool
flags bd = (bd.aborted, bd.may_add_chunks)

-- The end of a step leaves no more work, and aborts or keeps going.
abbrev pub Ends : {Disk : Type 0} → System Disk → System Disk → Type 0
Ends s t =
    (work_left t.bd ≤ work_left s.bd) × ((t.bd ≡ bulkdata_abort s.bd) ⊎ (flags t.bd ≡ flags s.bd))

abbrev Lessens : {Disk : Type 0} → System Disk → Bool × System Disk → Type 0
Lessens s r = r.0 ≡ true → work_left r.1.bd < work_left s.bd

module _ {Disk : Type 0} (s : System Disk) (o : IsOrdered s) (l : Linked s.bd) where
  open s use {bd, reading, compressing, writing}

  begin_read-less :
      (i : ℕ) (q : List ℕ)
      → bd.readq ≡ i ∷ q
      → work_left (begin_read (with_bd s (record bd { readq = q })) i).bd < work_left bd
  unfolding begin_read
  begin_read-less i q front =
      let shorter = ap (length {A = ℕ}) front in
      elim (Kind-cases (bd.kind i)) [
        | inl e ↦ rw (e, begin_read) (omega (arith, shorter))
        | inr (inl e) ↦ rw (e, begin_read) (omega (arith, shorter))
        | inr (inr e) ↦
            rw (e, begin_read)
              (let (unread, there) =
                  to_read bd reading compressing writing o i
                    (omega (arith, occ_front bd reading compressing writing o i front)) in
                read-less bd i there q bd.cached_data (omega (arith, shorter)) unread)
      ]

  begin_write-less :
      (i : ℕ) (q : List ℕ)
      → bd.writeq ≡ i ∷ q
      → work_left (begin_write (with_bd s (record bd { writeq = q })) i).bd < work_left bd
  unfolding begin_write
  begin_write-less i q front =
      let shorter = ap (length {A = ℕ}) front in
      let bd' = record bd { writeq = q } in
      let block = set_offset (written_block bd' i) s.out.size in
      let (_, _, same) = set_written_block-changes (with_bd s bd') i block in
      elim (Bool-cases (writes_block (bd.kind i) (bd.flush_previous_block i))) [
        | inl e ↦ rw (e, begin_write, same) (omega (arith, shorter))
        | inr e ↦
            rw (e, begin_write)
              (let (writable, there) =
                  to_write bd reading compressing writing o i
                    (omega (arith, occ_front bd reading compressing writing o i front)) in
                finished-less bd i there q bd.dst bd.fragment_blocks (omega (arith, shorter))
                  writable)
      ]

  read-Lessens : (q : List ℕ) → bd.readq ≡ q → Lessens s (pop_read s q)
  unfolding pop_read
  read-Lessens [] front = λ found. cc
  read-Lessens (i ∷ q) front = λ found. begin_read-less i q front

  dedup-Lessens : (q : List ℕ) → bd.dedupq ≡ q → Lessens s (pop_dedup s q)
  unfolding pop_dedup
  dedup-Lessens [] front = read-Lessens bd.readq refl
  dedup-Lessens (i ∷ q) front = λ found.
      let e = is_read bd reading compressing writing l o i q front in
      deduplicate-less bd i (known bd reading compressing writing o i (λ u. cc)) q front e

  assign-Lessens :
      (block_size : ℕ) (q : List ℕ) → bd.assignq ≡ q → Lessens s (pop_assign block_size s q)
  unfolding pop_assign
  assign-Lessens block_size [] front = dedup-Lessens bd.dedupq refl
  assign-Lessens block_size (i ∷ q) front = λ found.
      let (e, _) = is_ready bd reading compressing writing l o i q front in
      assign-less bd i (known bd reading compressing writing o i (λ u. cc)) q front e block_size
        s.mem

  compress-Lessens :
      (block_size : ℕ) (q : List ℕ) → bd.compressq ≡ q → Lessens s (pop_compress block_size s q)
  unfolding pop_compress begin_compress
  compress-Lessens block_size [] front = assign-Lessens block_size bd.assignq refl
  compress-Lessens block_size (i ∷ q) front = λ found. omega (arith, ap (length {A = ℕ}) front)

  write-Lessens :
      (block_size : ℕ) (q : List ℕ) → bd.writeq ≡ q → Lessens s (pop_write block_size s q)
  unfolding pop_write
  write-Lessens block_size [] front = compress-Lessens block_size bd.compressq refl
  write-Lessens block_size (i ∷ q) front = λ found. begin_write-less i q front

  pub process_single-less : (block_size : ℕ) → Lessens s (process_single block_size s)
  unfolding process_single
  process_single-less block_size = write-Lessens block_size bd.writeq refl

  pub end_read-Ends : (i : ℕ) → 0 < occ i reading → Ends s (end_read s i)
  end_read-Ends i here = elim (end_read_cases s i) [
    | inr failed ↦ rw failed (abort-less bd, inl refl)
    | inl (mem, cached, e) ↦
        let (unread, there) = to_read bd reading compressing writing o i (omega arith) in
        rw e (omega (arith, read-less bd i there bd.readq cached (omega arith) unread), inr refl)
  ]

  pub end_compress-Ends :
      (ci : Compressor) (i : ℕ) → 0 < occ i compressing → Ends s (end_compress ci s i)
  unfolding end_compress
  end_compress-Ends ci i here = elim (compress-Compressed s i ci) [
    | inl e ↦ rw (e, end_compress) (abort-less bd, inl refl)
    | inr (cached, dst, blocks, e) ↦
        let (assigned, there) = to_compress bd reading compressing writing o i (omega arith) in
        rw (e, end_compress)
          (
            omega (arith, compressed-less bd i there cached dst blocks assigned),
            inr (unfold become_writable in refl),
          )
  ]

  pub end_write-Ends :
      (dst : Destination Disk) (i : ℕ) → 0 < occ i writing → Ends s (end_write dst s i)
  unfolding end_write
  end_write-Ends dst i here =
      let block = written_block bd i in
      let result = dst.pwrite s.out.disk (bytes_of block.contents) block.offset in
      let (dsts, blocks, same) = set_written_block-changes s i (written block) in
      elim (Bool-cases (is_count result.0 block.size)) [
        | inr e ↦ rw (e, end_write) (abort-less bd, inl refl)
        | inl e ↦
            let (writable, there) = to_write bd reading compressing writing o i (omega arith) in
            rw (e, end_write, same)
              (
                omega
                    (arith, finished-less bd i there bd.writeq dsts blocks (omega arith) writable),
                inr (unfold mark_finished in refl),
              )
      ]
