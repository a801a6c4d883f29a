-- ===== src/Bulkdata/Order/Progress.antt =====
-- While chunks are left and no worker is at work, a worker finds something to do (src/bulkdata.c).
use libsqfs.Prelude.{
  ℕ, ◌+◌, ◌≤◌, ◌<◌, ◌≡◌, Bool, true, false, List, [], ◌∷◌, ltb, arith, refl, Bool-cases,
  Option-cases, inl, inr, ◌⊎◌,
}
use libsqfs.Memory.{Memory}
use libsqfs.Compressor.{Compressor}
use libsqfs.Output.{Destination, Output}
use libsqfs.Bulkdata.Defs.{Bulkdata, is_finished, bulkdata_abort}
use libsqfs.Bulkdata.Work.{assign, assign_piece, previous_block, overflows, needs_block}
use libsqfs.Bulkdata.System.{
  System, process_single, pop_write, pop_compress, pop_assign, pop_dedup, pop_read,
}
use libsqfs.Bulkdata.Run.{occ, start, Reach}
use libsqfs.Bulkdata.Order.Ends.{Sound}
use libsqfs.Bulkdata.Order.Steps.{Reach-Sound}
use libsqfs.Bulkdata.Order.Defs.{Kind-cases}

-- The result `false` comes with an abort.
assign_result :
    (block_size : ℕ) (mem : Memory) (bd : Bulkdata) (i : ℕ)
    → ((assign block_size mem bd i).0 ≡ true) ⊎ ((assign block_size mem bd i).2.aborted ≡ true)
unfolding assign
assign_result block_size mem bd i = elim (Kind-cases (bd.kind i)) [
  | inl e ↦ inl (rw (e, assign) refl)
  | inr (inr e) ↦ inl (rw (e, assign) refl)
  | inr (inl e) ↦ rw (e, assign) piece
]
  where
    piece :
        ((assign_piece block_size mem bd i).0 ≡ true)
        ⊎ ((assign_piece block_size mem bd i).2.aborted ≡ true)
    piece =
        let block = previous_block bd i in
        unfold assign_piece in
        elim (Bool-cases (needs_block (overflows block_size bd i block) block)) [
          | inr e ↦ inl (rw e refl)
          | inl e ↦ elim (Bool-cases (mem.grant mem.calls)) [
            | inl got ↦ inl (rw (e, got) refl)
            | inr no_storage ↦ inr (rw (e, no_storage) (unfold bulkdata_abort in refl))
          ]
        ]

-- A worker does something, or its attempt aborts all work.
abbrev Acts : {Disk : Type 0} → Bool × System Disk → Type 0
Acts r = (r.0 ≡ true) ⊎ (r.1.bd.aborted ≡ true)

module _ {Disk : Type 0} (s : System Disk) (block_size : ℕ) where
  open s.bd use {readq, dedupq, assignq, compressq, writeq}

  read-Acts : (q : List ℕ) → Acts (pop_read s q) ⊎ (q ≡ [])
  unfolding pop_read
  read-Acts [] = inr refl
  read-Acts (i ∷ q) = inl (inl refl)

  dedup-Acts : (q : List ℕ) → Acts (pop_dedup s q) ⊎ ((q ≡ []) × (readq ≡ []))
  unfolding pop_dedup
  dedup-Acts [] = elim (read-Acts readq) [ inl a ↦ inl a | inr e ↦ inr (refl, e) ]
  dedup-Acts (i ∷ q) = inl (inl refl)

  assign-Acts :
      (q : List ℕ) → Acts (pop_assign block_size s q) ⊎ ((q ≡ []) × (dedupq ≡ []) × (readq ≡ []))
  unfolding pop_assign
  assign-Acts [] = elim (dedup-Acts dedupq) [ inl a ↦ inl a | inr (e, f) ↦ inr (refl, e, f) ]
  assign-Acts (i ∷ q) = inl (assign_result block_size s.mem (record s.bd { assignq = q }) i)

  compress-Acts :
      (q : List ℕ)
      → Acts (pop_compress block_size s q)
        ⊎ ((q ≡ []) × (assignq ≡ []) × (dedupq ≡ []) × (readq ≡ []))
  unfolding pop_compress
  compress-Acts [] = elim (assign-Acts assignq) [
    | inl a ↦ inl a
    | inr (e, f, g) ↦ inr (refl, e, f, g)
  ]
  compress-Acts (i ∷ q) = inl (inl refl)

  write-Acts :
      (q : List ℕ)
      → Acts (pop_write block_size s q)
        ⊎ ((q ≡ []) × (compressq ≡ []) × (assignq ≡ []) × (dedupq ≡ []) × (readq ≡ []))
  unfolding pop_write
  write-Acts [] = elim (compress-Acts compressq) [
    | inl a ↦ inl a
    | inr (e, f, g, h) ↦ inr (refl, e, f, g, h)
  ]
  write-Acts (i ∷ q) = inl (inl refl)

  pub process_single-Acts :
      Acts (process_single block_size s)
      ⊎ ((writeq ≡ []) × (compressq ≡ []) × (assignq ≡ []) × (dedupq ≡ []) × (readq ≡ []))
  unfolding process_single
  process_single-Acts = write-Acts writeq

  -- The first chunk that is not finished stands in a queue.
  pub not_stuck :
      Sound s
      → s.bd.finished < s.bd.count
      → s.reading ≡ []
      → s.compressing ≡ []
      → s.writing ≡ []
      → ¬ ((writeq ≡ []) × (compressq ≡ []) × (assignq ≡ []) × (dedupq ≡ []) × (readq ≡ []))
  not_stuck (o, l) left no_read no_compress no_write (w, c, a, d, r) =
      let i = s.bd.finished in
      let in_read = rw (r, no_read) at (o.in_read i) in
      let in_dedup = rw d at (o.in_dedup i) in
      let in_assign = rw a at (o.in_assign i) in
      let in_compress = rw (c, no_compress) at (o.in_compress i) in
      let in_write = rw (w, no_write) at (o.in_write i) in
      elim (Option-cases (s.bd.prev_piece i)) [
        | inl e ↦
            ground (arith, in_read, in_dedup, in_assign, in_compress, in_write, o.done i, left, e)
        | inr (p, e) ↦ ground (
          arith,
          in_read,
          in_dedup,
          in_assign,
          in_compress,
          in_write,
          o.done i,
          left,
          e,
          l.forth i p e,
          o.done p,
        )
      ]

module _ {Disk : Type 0} (dst : Destination Disk) (ci : Compressor) (block_size : ℕ) where
  -- In every state that workers and client can reach, nothing aborted: if chunks are left and no chunk is being
  -- worked on, then a worker that looks for work finds some, unless it runs out of storage and aborts.
  pub no_deadlock :
      (b c : Bool) (out : Output Disk) (mem : Memory) {s : System Disk}
      → Reach dst ci block_size (start b c out mem) s
      → s.bd.aborted ≡ false
      → s.bd.finished < s.bd.count
      → s.reading ≡ []
      → s.compressing ≡ []
      → s.writing ≡ []
      → let (found, s') = process_single block_size s in (found ≡ true) ⊎ (s'.bd.aborted ≡ true)
  no_deadlock b c out mem {s} r going left nr nc nw = elim (process_single-Acts s block_size) [
    | inl acts ↦ acts
    | inr empty ↦ absurd (
        not_stuck s block_size (Reach-Sound dst ci block_size b c out mem r going) left nr nc nw
          empty)
  ]

  -- In every state that workers and client can reach, nothing aborted: the finished chunks are the first
  -- ones, as many as `finished` counts; a chunk that is being written is the one behind them, and no other is
  -- being written; and no chunk stands in two places of the queues and the work begun.
  pub write_order :
      (b c : Bool) (out : Output Disk) (mem : Memory) {s : System Disk}
      → Reach dst ci block_size (start b c out mem) s
      → s.bd.aborted ≡ false
      → ((j : ℕ) → is_finished (s.bd.state j) ≡ ltb j s.bd.finished)
        × ((i : ℕ) → 0 < occ i s.writing → (i ≡ s.bd.finished) × (occ i s.writing ≡ 1))
        × ((j : ℕ)
            → (occ j s.bd.readq + occ j s.reading)
                + (occ j s.bd.dedupq
                    + (occ j s.bd.assignq
                        + ((occ j s.bd.compressq + occ j s.compressing)
                            + (occ j s.bd.writeq + occ j s.writing))))
              ≤ 1)
  write_order b c out mem {s} r going =
      let (o, l) = Reach-Sound dst ci block_size b c out mem r going in
      (
        o.done,
        λ i h. (ground (arith, o.in_write i), ground (arith, o.in_write i)),
        λ j.
            ground (arith, o.in_read j, o.in_dedup j, o.in_assign j, o.in_compress j, o.in_write j),
      )
