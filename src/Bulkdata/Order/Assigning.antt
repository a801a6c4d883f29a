-- ===== src/Bulkdata/Order/Assigning.antt =====
-- Assigning a piece to a fragment block leaves less work (src/bulkdata.c).
use libsqfs.Prelude.{
  ℕ, ◌+◌, ◌≤◌, ◌<◌, ◌≡◌, ◌≢◌, List, ◌∷◌, ◌==◌, ◌||◌, ltb, arith, refl, ap, Bool-cases, inl, inr,
  ==_iff, length,
}
use libsqfs.Memory.{Memory}
use libsqfs.Bulkdata.Defs.{ChunkState, Bulkdata, update}
use libsqfs.Bulkdata.Work.{
  assign, assign_piece, assign_closing, settle, place_piece, previous_block, overflows, is_some,
}
use libsqfs.Bulkdata.Run.{occ}
use libsqfs.Bulkdata.Order.Pieces.{assign_piece_cases}
use libsqfs.Bulkdata.Order.Measure.{
  work_left, assign_block-less, settle-less, wake_next-less, abort-less,
}
use libsqfs.Bulkdata.Order.Defs.{
  OrderedBd, Kind-cases, unread_slot-one, assigned_slot-one, writable_slot-one,
}

module _ (bd : Bulkdata) (reading compressing writing : List ℕ)
    (o : OrderedBd bd reading compressing writing) (i : ℕ) where
  pub known : bd.state i ≢ ChunkState.unread → i < bd.count
  known h = elim (Bool-cases (ltb i bd.count)) [
    | inl lt ↦ ground (arith, lt)
    | inr ge ↦ absurd (h (o.unseen i (ground (arith, ge))))
  ]

  pub to_read :
      0 < occ i bd.readq + occ i reading → (bd.state i ≡ ChunkState.unread) × (i < bd.count)
  to_read h = (
    unread_slot-one (ltb i bd.count) (bd.state i) (ground (arith, h, o.in_read i)),
    ground (arith, h, o.in_read i),
  )

  pub to_compress :
      0 < occ i bd.compressq + occ i compressing
      → (bd.state i ≡ ChunkState.assigned) × (i < bd.count)
  to_compress h =
      let e = assigned_slot-one (bd.state i) (omega (arith, h, o.in_compress i)) in
      (e, known (λ u. cc))

  pub to_write :
      0 < occ i bd.writeq + occ i writing → (bd.state i ≡ ChunkState.writable) × (i < bd.count)
  to_write h =
      let (e, _) =
        writable_slot-one (i == bd.finished) (bd.state i) (omega (arith, h, o.in_write i)) in
      (e, known (λ u. cc))

  pub occ_front : {q xs : List ℕ} → xs ≡ i ∷ q → 0 < occ i xs
  occ_front e = ground (arith, ap (occ i) e, ==_iff i i)

module _ (bd : Bulkdata) (i : ℕ) (there : i < bd.count) (q : List ℕ) (front : bd.assignq ≡ i ∷ q)
    (e : bd.state i ≡ ChunkState.deduplicated) where
  popped : work_left (record bd { assignq = q }) + 1 ≡ work_left bd
  popped = omega (arith, ap (length {A = ℕ}) front)

  assign_piece-less :
      (block_size : ℕ) (mem : Memory)
      → work_left (assign_piece block_size mem (record bd { assignq = q }) i).2 < work_left bd
  assign_piece-less block_size mem =
      let bd' = record bd { assignq = q } in
      let block = previous_block bd' i in
      let placed = place_piece bd' i (overflows block_size bd' i block) block in
      let same : work_left placed ≡ work_left bd' = unfold place_piece in refl in
      let settled : work_left (settle placed i) + 2 ≤ work_left placed =
        unfold place_piece in settle-less placed i there e in
      elim (assign_piece_cases block_size mem bd' i) [
        | inl r ↦ rw r (omega (arith, same, settled, popped, wake_next-less (settle placed i) i))
        | inr r ↦ rw r (omega (arith, popped, abort-less bd'))
      ]

  assign_closing-less : work_left (assign_closing (record bd { assignq = q }) i) < work_left bd
  unfolding assign_closing
  assign_closing-less = omega (
    arith,
    popped,
    settle-less
        (record bd {
          assignq = q;
          flush_previous_block =
              update bd.flush_previous_block i
                (is_some (bd.prev_piece i) || bd.flush_previous_block i);
        })
        i there e,
  )

  pub assign-less :
      (block_size : ℕ) (mem : Memory)
      → work_left (assign block_size mem (record bd { assignq = q }) i).2 < work_left bd
  unfolding assign
  assign-less block_size mem = elim (Kind-cases (bd.kind i)) [
    | inl k ↦ rw (k, assign) (assign_block-less bd i there q front e)
    | inr (inl k) ↦ rw (k, assign) (assign_piece-less block_size mem)
    | inr (inr k) ↦ rw (k, assign) assign_closing-less
  ]

-- Whether work was aborted, and whether chunks may be added.
