-- ===== src/Bulkdata/Order/Queue.antt =====
-- The queue of chunks that can be written (`libsqfs_chunk_try_writeout` and `libsqfs_chunk_mark_finished`,
-- src/bulkdata.c): it holds the next chunk, if that is writable, and no other.
use libsqfs.Prelude.{
  ℕ, zero, suc, ◌+◌, ◌≤◌, ◌≡◌, false, List, ◌∷◌, ◌==◌, ltb, if◌then◌else◌, arith, ◌&&◌, ==_iff,
}
use libsqfs.Bulkdata.Defs.{ChunkState, is_finished, is_writable, update}
use libsqfs.Bulkdata.Work.{prev_finished}
use libsqfs.Bulkdata.Run.{bit, occ}
use libsqfs.Bulkdata.Order.Defs.{writable_slot}

module _ (state : ℕ → ChunkState) (finished : ℕ) (q writing : List ℕ)
    (done : (j : ℕ) → is_finished (state j) ≡ ltb j finished)
    (in_write : (j : ℕ) → occ j q + occ j writing ≡ writable_slot (j == finished) (state j))
    (i : ℕ) where
  -- A chunk is next exactly when the one before it is finished.
  prev_finished_lem :
      is_finished (state i) ≡ false
      → prev_finished (update state i ChunkState.writable) i ≡ (i == finished)
  prev_finished_lem = next i
    where
      next :
          (k : ℕ)
          → is_finished (state k) ≡ false
          → prev_finished (update state k ChunkState.writable) k ≡ (k == finished)
      next zero h = ground (arith, h, done 0)
      next (suc k) h = ground (arith, h, done k, done (suc k))

  pub try_writeout-queue :
      (j : ℕ)
      → is_finished (state i) ≡ false
      → is_writable (state i) ≡ false
      → let state' = update state i ChunkState.writable in
        occ j (if is_writable (state' i) && prev_finished state' i then i ∷ q else q)
          + occ j writing
        ≡ writable_slot (j == finished) (state' j)
  try_writeout-queue j h k = rw (prev_finished_lem h) (ground (arith, h, k, in_write j, ==_iff i i))

  -- The chunk that is finished was the next one, and stands in the queue no longer.
  pub mark_finished-queue :
      (count : ℕ) (q' writing' : List ℕ) (j : ℕ)
      → i ≡ finished
      → state i ≡ ChunkState.writable
      → ((k : ℕ) → count ≤ k → state k ≡ ChunkState.unread)
      → occ j q + occ j writing ≡ bit (i == j) + (occ j q' + occ j writing')
      → let state' = update state i ChunkState.finished in
        occ j (if ltb (suc i) count && is_writable (state' (suc i)) then suc i ∷ q' else q')
          + occ j writing'
        ≡ writable_slot (j == finished + 1) (state' j)
  mark_finished-queue count q' writing' j at w unseen taken =
      ground (arith, at, w, taken, in_write j, unseen (suc i), unseen j, done j)
