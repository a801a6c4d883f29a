-- ===== src/Bulkdata/Order/Measure.antt =====
-- Each step of a worker leaves less work (src/bulkdata.c).
use libsqfs.Prelude.{
  ℕ, zero, suc, ◌+◌, ◌*◌, ◌≤◌, ◌<◌, ◌≡◌, true, false, Option, List, ◌∷◌, ltb, arith, refl,
  Bool-cases, inl, inr, length,
}
use libsqfs.Bulkdata.Defs.{bulkdata_abort, ChunkState, Bulkdata, update, FragmentBlock, ImageBlock}
use libsqfs.Bulkdata.Work.{
  mark_finished, deduplicate, deduplicate_block, deduplicate_piece, assign_block, settle, wake_next,
}
use libsqfs.Bulkdata.Blocks.{become_writable}

-- How many changes of state a chunk has before it.
abbrev left : ChunkState → ℕ
left ChunkState.unread = 5
left ChunkState.was_read = 4
left ChunkState.deduplicated = 3
left ChunkState.assigned = 2
left ChunkState.writable = 1
left ChunkState.finished = 0

unfoldable pub total : ℕ → (ℕ → ChunkState) → ℕ
total zero state = 0
total (suc n) state = total n state + left (state n)

total-update_ge :
    (n : ℕ) (state : ℕ → ChunkState) (i : ℕ) (st : ChunkState)
    → n ≤ i
    → total n (update state i st) ≡ total n state
unfolding total
total-update_ge zero state i st h = refl
total-update_ge (suc n) state i st h = ground (arith, total-update_ge n state i st)

total-update :
    (n : ℕ) (state : ℕ → ChunkState) (i : ℕ) (st : ChunkState)
    → i < n
    → total n (update state i st) + left (state i) ≡ total n state + left st
unfolding total
total-update zero state i st h = absurd (omega arith)
total-update (suc n) state i st h = elim (Bool-cases (ltb i n)) [
  | inl below ↦ ground (arith, total-update n state i st)
  | inr last ↦ ground (arith, total-update_ge n state i st)
]

-- Each change of state puts at most two chunks into queues.
abbrev pub work_left : Bulkdata → ℕ
work_left bd =
    3 * total bd.count bd.state
    + (length bd.readq
        + (length bd.dedupq + (length bd.assignq + (length bd.compressq + length bd.writeq))))

-- The number of chunks whose state the change of `i` to `st` lets pass is one; `known` says that `i` exists.
module _ (bd : Bulkdata) (i : ℕ) (known : i < bd.count) where
  open bd use {state}

  changed :
      (st : ChunkState)
      → total bd.count (update state i st) + left (state i) ≡ total bd.count state + left st
  changed st = total-update bd.count state i st known

  pub deduplicate-less :
      (q : List ℕ)
      → bd.dedupq ≡ i ∷ q
      → state i ≡ ChunkState.was_read
      → work_left (deduplicate (record bd { dedupq = q }) i) < work_left bd
  unfolding deduplicate deduplicate_block deduplicate_piece
  deduplicate-less q front e = rw front (ground (arith, changed ChunkState.deduplicated, e))

  pub assign_block-less :
      (q : List ℕ)
      → bd.assignq ≡ i ∷ q
      → state i ≡ ChunkState.deduplicated
      → work_left (assign_block (record bd { assignq = q }) i) < work_left bd
  unfolding assign_block
  assign_block-less q front e = rw front (ground (arith, changed ChunkState.assigned, e))

  settle-flush :
      state i ≡ ChunkState.deduplicated
      → bd.flush_previous_block i ≡ true
      → work_left (settle bd i) + 2 ≤ work_left bd
  unfolding settle
  settle-flush e f = rw f (ground (arith, changed ChunkState.assigned, e))

  settle-keep :
      state i ≡ ChunkState.deduplicated
      → bd.flush_previous_block i ≡ false
      → work_left (settle bd i) + 2 ≤ work_left bd
  unfolding settle
  settle-keep e f = rw f (ground (arith, changed ChunkState.writable, e))

  pub settle-less : state i ≡ ChunkState.deduplicated → work_left (settle bd i) + 2 ≤ work_left bd
  settle-less e = elim (Bool-cases (bd.flush_previous_block i)) [
    | inl f ↦ settle-flush e f
    | inr f ↦ settle-keep e f
  ]

  pub read-less :
      (q : List ℕ) (cached : ℕ → Option (List ℕ))
      → length q ≤ length bd.readq
      → state i ≡ ChunkState.unread
      → work_left (record bd {
        readq = q;
        cached_data = cached;
        state = update state i ChunkState.was_read;
        dedupq = i ∷ bd.dedupq;
      })
        < work_left bd
  read-less q cached shorter e = ground (arith, changed ChunkState.was_read, e)

  pub compressed-less :
      (cached : ℕ → Option (List ℕ)) (dst : ℕ → ImageBlock) (blocks : ℕ → FragmentBlock)
      → state i ≡ ChunkState.assigned
      → work_left (
          become_writable
            (record bd { cached_data = cached; dst = dst; fragment_blocks = blocks })
            i)
        < work_left bd
  unfolding become_writable
  compressed-less cached dst blocks e = ground (arith, changed ChunkState.writable, e)

  pub finished-less :
      (q : List ℕ) (dst : ℕ → ImageBlock) (blocks : ℕ → FragmentBlock)
      → length q ≤ length bd.writeq
      → state i ≡ ChunkState.writable
      → work_left (mark_finished (record bd { writeq = q; dst = dst; fragment_blocks = blocks }) i)
        < work_left bd
  unfolding mark_finished
  finished-less q dst blocks shorter e = ground (arith, changed ChunkState.finished, e)

pub wake_next-less : (bd : Bulkdata) (i : ℕ) → work_left (wake_next bd i) ≤ work_left bd + 1
unfolding wake_next
wake_next-less bd i = ground arith

pub abort-less : (bd : Bulkdata) → work_left (bulkdata_abort bd) ≤ work_left bd
unfolding bulkdata_abort
abort-less bd = omega arith
