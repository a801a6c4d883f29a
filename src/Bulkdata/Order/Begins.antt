-- ===== src/Bulkdata/Order/Begins.antt =====
-- What a worker does when it takes a chunk from a queue keeps the order of work
-- (`libsqfs_bulkdata_process_single_locked`, src/bulkdata.c).
use libsqfs.Prelude.{
  ℕ, ◌+◌, ◌≡◌, true, false, List, [], ◌∷◌, ◌==◌, arith, refl, ap, sym, ◌∙◌, Bool-cases, inl, inr,
  ◌||◌,
}
use libsqfs.Memory.{Memory}
use libsqfs.Bulkdata.Defs.{Bulkdata, update, bulkdata_abort}
use libsqfs.Bulkdata.Work.{
  mark_finished, deduplicate, assign, assign_block, assign_piece, assign_closing, settle, is_some,
  previous_block, overflows, wake_next, place_piece,
}
use libsqfs.Bulkdata.Blocks.{written_block, writes_block}
use libsqfs.Bulkdata.System.{
  System, with_bd, begin_read, begin_compress, begin_write, set_offset, pop_read, pop_dedup,
  pop_assign, pop_compress, pop_write, process_single,
}
use libsqfs.Bulkdata.Run.{bit, occ}
use libsqfs.Bulkdata.Order.Pieces.{assign_piece_cases, deduplicate-Ordered, assign-Ordered}
use libsqfs.Bulkdata.Order.Writes.{read-Ordered, finished-Ordered, taken_up-Ordered}
use libsqfs.Bulkdata.Order.Ends.{Keeps, not_going, set_written_block-changes}
use libsqfs.Bulkdata.Order.Defs.{Kind-cases}

occ-front : {i : ℕ} {xs q : List ℕ} (j : ℕ) → xs ≡ i ∷ q → occ j xs ≡ bit (i == j) + occ j q
occ-front j e = ap (occ j) e

deduplicate-aborted : (bd : Bulkdata) (i : ℕ) → (deduplicate bd i).aborted ≡ bd.aborted
unfolding deduplicate
deduplicate-aborted bd i = elim (Kind-cases (bd.kind i)) [
  | inl e ↦ rw (e, deduplicate) refl
  | inr (inl e) ↦ rw (e, deduplicate) refl
  | inr (inr e) ↦ rw (e, deduplicate) refl
]

settle-aborted : (bd : Bulkdata) (i : ℕ) → (settle bd i).aborted ≡ bd.aborted
unfolding settle
settle-aborted bd i = elim (Bool-cases (bd.flush_previous_block i)) [
  | inl e ↦ rw (e, settle) refl
  | inr e ↦ rw (e, settle) refl
]

assign_closing-aborted : (bd : Bulkdata) (i : ℕ) → (assign_closing bd i).aborted ≡ bd.aborted
unfolding assign_closing
assign_closing-aborted bd i =
    settle-aborted
      (record bd {
        flush_previous_block =
            update bd.flush_previous_block i
              (is_some (bd.prev_piece i) || bd.flush_previous_block i);
      })
      i

assign_piece-aborted :
    (block_size : ℕ) (mem : Memory) (bd : Bulkdata) (i : ℕ)
    → (assign_piece block_size mem bd i).2.aborted ≡ false
    → bd.aborted ≡ false
assign_piece-aborted block_size mem bd i going =
    let block = previous_block bd i in
    let placed = place_piece bd i (overflows block_size bd i block) block in
    elim (assign_piece_cases block_size mem bd i) [
      | inl same ↦
          let going' : (settle placed i).aborted ≡ false =
            unfold wake_next in (ap (λ (b : Bulkdata). b.aborted) (sym same) ∙ going) in
          unfold place_piece in (sym (settle-aborted placed i) ∙ going')
      | inr failed ↦ absurd (
          not_going true refl
            (unfold bulkdata_abort in (ap (λ (b : Bulkdata). b.aborted) (sym failed) ∙ going)))
    ]

assign-aborted :
    (block_size : ℕ) (mem : Memory) (bd : Bulkdata) (i : ℕ)
    → (assign block_size mem bd i).2.aborted ≡ false
    → bd.aborted ≡ false
unfolding assign assign_block
assign-aborted block_size mem bd i = elim (Kind-cases (bd.kind i)) [
  | inl e ↦ rw (e, assign) (λ going. going)
  | inr (inl e) ↦ rw (e, assign) (assign_piece-aborted block_size mem bd i)
  | inr (inr e) ↦ rw (e, assign) (λ going. sym (assign_closing-aborted bd i) ∙ going)
]

module _ {Disk : Type 0} (s : System Disk) where
  open s use {bd, reading, compressing, writing}

  begin_read-Keeps :
      (i : ℕ) (q : List ℕ)
      → bd.readq ≡ i ∷ q
      → Keeps s (begin_read (with_bd s (record bd { readq = q })) i)
  unfolding begin_read
  begin_read-Keeps i q front = elim (Kind-cases (bd.kind i)) [
    | inl e ↦ rw (e, begin_read) taken
    | inr (inl e) ↦ rw (e, begin_read) taken
    | inr (inr e) ↦
        rw (e, begin_read)
          (λ going. (
            going,
            λ (o, l). (
              read-Ordered bd reading compressing writing l o i q reading bd.cached_data
                  (λ j. omega (arith, occ-front j front)),
              l,
            ),
          ))
  ]
    where
      taken : Keeps s (record s { bd = record bd { readq = q }; reading = i ∷ reading })
      taken going = (
        going,
        λ (o, l). (
          taken_up-Ordered bd reading compressing writing l o i q (i ∷ reading) bd.compressq
              compressing bd.writeq writing bd.dst bd.fragment_blocks
              (λ j. omega (arith, occ-front j front)) (λ j. refl) (λ j. refl),
          l,
        ),
      )

  begin_write-Keeps :
      (i : ℕ) (q : List ℕ)
      → bd.writeq ≡ i ∷ q
      → Keeps s (begin_write (with_bd s (record bd { writeq = q })) i)
  unfolding begin_write
  begin_write-Keeps i q front =
      elim (Bool-cases (writes_block (bd.kind i) (bd.flush_previous_block i))) [
        | inl e ↦
            let bd' = record bd { writeq = q } in
            let block = set_offset (written_block bd' i) s.out.size in
            let (dst, blocks, same) = set_written_block-changes (with_bd s bd') i block in
            rw (e, begin_write, same)
              (λ going. (
                going,
                λ (o, l). (
                  taken_up-Ordered bd reading compressing writing l o i bd.readq reading
                      bd.compressq compressing q (i ∷ writing) dst blocks (λ j. refl) (λ j. refl)
                      (λ j. omega (arith, occ-front j front)),
                  l,
                ),
              ))
        | inr e ↦
            rw (e, begin_write)
              (unfold mark_finished in
                λ going. (
                  going,
                  λ (o, l). (
                    finished-Ordered bd reading compressing writing l o i q writing bd.dst
                        bd.fragment_blocks (λ j. omega (arith, occ-front j front)),
                    l,
                  ),
                ))
      ]

  begin_compress-Keeps :
      (i : ℕ) (q : List ℕ)
      → bd.compressq ≡ i ∷ q
      → Keeps s (begin_compress (with_bd s (record bd { compressq = q })) i)
  unfolding begin_compress
  begin_compress-Keeps i q front going = (
    going,
    λ (o, l). (
      taken_up-Ordered bd reading compressing writing l o i bd.readq reading q (i ∷ compressing)
          bd.writeq writing bd.dst bd.fragment_blocks (λ j. refl)
          (λ j. omega (arith, occ-front j front)) (λ j. refl),
      l,
    ),
  )

  pop_read-Keeps : (q : List ℕ) → bd.readq ≡ q → Keeps s (pop_read s q).1
  unfolding pop_read
  pop_read-Keeps [] front = λ going. (going, λ sound. sound)
  pop_read-Keeps (i ∷ q) front = begin_read-Keeps i q front

  pop_dedup-Keeps : (q : List ℕ) → bd.dedupq ≡ q → Keeps s (pop_dedup s q).1
  unfolding pop_dedup
  pop_dedup-Keeps [] front = pop_read-Keeps bd.readq refl
  pop_dedup-Keeps (i ∷ q) front = λ going. (
    sym (deduplicate-aborted (record bd { dedupq = q }) i) ∙ going,
    λ (o, l). deduplicate-Ordered bd reading compressing writing l o i q front,
  )

  pop_assign-Keeps :
      (block_size : ℕ) (q : List ℕ) → bd.assignq ≡ q → Keeps s (pop_assign block_size s q).1
  unfolding pop_assign
  pop_assign-Keeps block_size [] front = pop_dedup-Keeps bd.dedupq refl
  pop_assign-Keeps block_size (i ∷ q) front = λ going. (
    assign-aborted block_size s.mem (record bd { assignq = q }) i going,
    λ (o, l). assign-Ordered bd reading compressing writing l o i q front block_size s.mem going,
  )

  pop_compress-Keeps :
      (block_size : ℕ) (q : List ℕ) → bd.compressq ≡ q → Keeps s (pop_compress block_size s q).1
  unfolding pop_compress
  pop_compress-Keeps block_size [] front = pop_assign-Keeps block_size bd.assignq refl
  pop_compress-Keeps block_size (i ∷ q) front = begin_compress-Keeps i q front

  pop_write-Keeps :
      (block_size : ℕ) (q : List ℕ) → bd.writeq ≡ q → Keeps s (pop_write block_size s q).1
  unfolding pop_write
  pop_write-Keeps block_size [] front = pop_compress-Keeps block_size bd.compressq refl
  pop_write-Keeps block_size (i ∷ q) front = begin_write-Keeps i q front

  pub process_single-Keeps : (block_size : ℕ) → Keeps s (process_single block_size s).1
  unfolding process_single
  process_single-Keeps block_size = pop_write-Keeps block_size bd.writeq refl
