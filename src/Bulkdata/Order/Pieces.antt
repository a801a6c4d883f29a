-- ===== src/Bulkdata/Order/Pieces.antt =====
-- Deduplication and assignment keep the order of work (src/bulkdata.c).
use libsqfs.Prelude.{
  ℕ, ◌+◌, ◌≡◌, Bool, true, false, Option, none, List, ◌∷◌, ◌==◌, arith, refl, Bool-cases,
  Option-cases, inl, ◌⊎◌, ◌||◌, sym, inr,
}
use libsqfs.Bulkdata.Defs.{ChunkState, Kind, Bulkdata, bulkdata_abort, update, FragmentBlock}
use libsqfs.Bulkdata.Work.{
  waits_for, deduplicate_block, deduplicate_piece, deduplicate, assign_block, settle, wake_next,
  place_piece, assign_piece, assign_closing, assign, previous_block, overflows, needs_block,
  is_some,
}
use libsqfs.Bulkdata.Run.{bit, occ}
use libsqfs.Memory.{Memory}
use libsqfs.Bulkdata.Order.Queue.{try_writeout-queue}
use libsqfs.Bulkdata.Order.Defs.{
  Linked, OrderedBd, Kind-cases, read_slot, dedup_slot, read_slot-one, dedup_slot-one,
}

-- A piece is assigned, or all work is aborted.
pub assign_piece_cases :
    (block_size : ℕ) (mem : Memory) (bd : Bulkdata) (i : ℕ)
    → let bd' = (assign_piece block_size mem bd i).2 in
      let block = previous_block bd i in
      (bd' ≡ wake_next (settle (place_piece bd i (overflows block_size bd i block) block) i) i)
      ⊎ (bd' ≡ bulkdata_abort bd)
unfolding assign_piece
assign_piece_cases block_size mem bd i =
    let block = previous_block bd i in
    elim (Bool-cases (needs_block (overflows block_size bd i block) block)) [
      | inl e ↦ elim (Bool-cases (mem.grant mem.calls)) [
        | inl got ↦ inl (rw (e, got) refl)
        | inr no_storage ↦ inr (rw (e, no_storage) refl)
      ]
      | inr e ↦ inl (rw e refl)
    ]

wake_next-none : (bd : Bulkdata) (i : ℕ) → bd.next_piece i ≡ none → wake_next bd i ≡ bd
unfolding wake_next
wake_next-none bd i e = rw e refl

settle-next : (bd : Bulkdata) (i : ℕ) → bd.next_piece i ≡ none → (settle bd i).next_piece i ≡ none
unfolding settle
settle-next bd i e = elim (Bool-cases (bd.flush_previous_block i)) [
  | inl f ↦ rw f e
  | inr f ↦ rw f e
]

-- A closing piece has no next one to be woken.
assign_closing_lem :
    (bd : Bulkdata) (i : ℕ)
    → bd.next_piece i ≡ none
    → let flagged = record bd {
      flush_previous_block =
          update bd.flush_previous_block i (is_some (bd.prev_piece i) || bd.flush_previous_block i);
    } in
      assign_closing bd i ≡ wake_next (settle flagged i) i
unfolding assign_closing
assign_closing_lem bd i e = sym (wake_next-none (settle flagged i) i (settle-next flagged i e))
  where
    flagged : Bulkdata
    flagged = record bd {
      flush_previous_block =
          update bd.flush_previous_block i (is_some (bd.prev_piece i) || bd.flush_previous_block i);
    }

module _ (bd : Bulkdata) (reading compressing writing : List ℕ) (l : Linked bd)
    (o : OrderedBd bd reading compressing writing) (i : ℕ) (q : List ℕ) where
  open bd use {state, kind}

  module _ (front : bd.dedupq ≡ i ∷ q) where
    dedup-Taken : (j : ℕ) → bit (i == j) + occ j q ≡ read_slot (state j)
    dedup-Taken j = rw front at (o.in_dedup j)

    pub is_read : state i ≡ ChunkState.was_read
    is_read = read_slot-one (state i) (ground (arith, dedup-Taken i))

    deduplicate_piece-Ordered :
        OrderedBd (deduplicate_piece (record bd { dedupq = q }) i) reading compressing writing
    unfolding deduplicate_piece
    deduplicate_piece-Ordered = record {
      in_read = λ j. ground (arith, o.in_read j, is_read);
      in_dedup = λ j. ground (arith, dedup-Taken j);
      in_assign = λ j. ground (arith, o.in_assign j, is_read, l.forth j i, l.forth i i);
      in_compress = λ j. ground (arith, o.in_compress j, is_read);
      in_write = λ j. ground (arith, o.in_write j, is_read);
      done = λ j. ground (arith, o.done j, is_read);
      unseen = λ j beyond. ground (arith, o.unseen j beyond, is_read);
    }

    deduplicate_block-Ordered :
        kind i ≡ Kind.full_block
        → OrderedBd (deduplicate_block (record bd { dedupq = q }) i) reading compressing writing
    unfolding deduplicate_block
    deduplicate_block-Ordered full = record {
      in_read = λ j. ground (arith, o.in_read j, is_read);
      in_dedup = λ j. ground (arith, dedup-Taken j);
      in_assign = λ j. ground (arith, o.in_assign j, is_read, l.alone i full, l.forth j i);
      in_compress = λ j. ground (arith, o.in_compress j, is_read);
      in_write = λ j. ground (arith, o.in_write j, is_read);
      done = λ j. ground (arith, o.done j, is_read);
      unseen = λ j beyond. ground (arith, o.unseen j beyond, is_read);
    }

    pub deduplicate-Ordered :
        OrderedBd (deduplicate (record bd { dedupq = q }) i) reading compressing writing
        × Linked (deduplicate (record bd { dedupq = q }) i)
    unfolding deduplicate deduplicate_block deduplicate_piece
    deduplicate-Ordered = elim (Kind-cases (kind i)) [
      | inl e ↦ rw (e, deduplicate) (deduplicate_block-Ordered e, l)
      | inr (inl e) ↦ rw (e, deduplicate) (deduplicate_piece-Ordered, l)
      | inr (inr e) ↦ rw (e, deduplicate) (deduplicate_piece-Ordered, l)
    ]

  module _ (front : bd.assignq ≡ i ∷ q) where
    assign-Taken :
        (j : ℕ) → bit (i == j) + occ j q ≡ dedup_slot (waits_for state (bd.prev_piece j)) (state j)
    assign-Taken j = rw front at (o.in_assign j)

    pub is_ready : (state i ≡ ChunkState.deduplicated) × (waits_for state (bd.prev_piece i) ≡ false)
    is_ready = dedup_slot-one _ (state i) (ground (arith, assign-Taken i))

    assign_block-Ordered :
        kind i ≡ Kind.full_block
        → OrderedBd (assign_block (record bd { assignq = q }) i) reading compressing writing
    unfolding assign_block
    assign_block-Ordered full = record {
      in_read = λ j. ground (arith, o.in_read j, is_ready);
      in_dedup = λ j. ground (arith, o.in_dedup j, is_ready);
      in_assign = λ j. ground (arith, assign-Taken j, is_ready, l.forth j i, l.inner i j);
      in_compress = λ j. ground (arith, o.in_compress j, is_ready);
      in_write = λ j. ground (arith, o.in_write j, is_ready);
      done = λ j. ground (arith, o.done j, is_ready);
      unseen = λ j beyond. ground (arith, o.unseen j beyond, is_ready);
    }

    -- A piece goes on to be compressed, or to be written, and the next piece is woken. What is noted of its
    -- place does not matter.
    module _ (flush : ℕ → Bool) (blocks : ℕ → FragmentBlock) (nblocks : ℕ) (block : ℕ → Option ℕ)
        (offset : ℕ → ℕ) where
      abbrev noted : Bulkdata
      noted = record bd {
        assignq = q;
        flush_previous_block = flush;
        fragment_blocks = blocks;
        nblocks = nblocks;
        fragment_block = block;
        offset = offset;
      }

      advance-flush :
          flush i ≡ true
          → let bd' = wake_next (settle noted i) i in
            OrderedBd bd' reading compressing writing × Linked bd'
      unfolding wake_next settle
      advance-flush e = rw e (
        record {
          in_read = λ j. ground (arith, o.in_read j, is_ready);
          in_dedup = λ j. ground (arith, o.in_dedup j, is_ready);
          in_assign = λ j. ground (arith, assign-Taken j, is_ready, l.forth j i, l.back i j);
          in_compress = λ j. ground (arith, o.in_compress j, is_ready);
          in_write = λ j. ground (arith, o.in_write j, is_ready);
          done = λ j. ground (arith, o.done j, is_ready);
          unseen = λ j beyond. ground (arith, o.unseen j beyond, is_ready);
        },
        l,
      )

      advance-keep :
          flush i ≡ false
          → let bd' = wake_next (settle noted i) i in
            OrderedBd bd' reading compressing writing × Linked bd'
      unfolding wake_next settle
      advance-keep e = rw e (
        record {
          in_read = λ j. ground (arith, o.in_read j, is_ready);
          in_dedup = λ j. ground (arith, o.in_dedup j, is_ready);
          in_assign = λ j. ground (arith, assign-Taken j, is_ready, l.forth j i, l.back i j);
          in_compress = λ j. ground (arith, o.in_compress j, is_ready);
          in_write = λ j.
              try_writeout-queue state bd.finished bd.writeq writing o.done o.in_write i j
                (ground (arith, is_ready)) (ground (arith, is_ready));
          done = λ j. ground (arith, o.done j, is_ready);
          unseen = λ j beyond. ground (arith, o.unseen j beyond, is_ready);
        },
        l,
      )

      advance-Ordered :
          let bd' = wake_next (settle noted i) i in
          OrderedBd bd' reading compressing writing × Linked bd'
      advance-Ordered = elim (Bool-cases (flush i)) [
        | inl e ↦ advance-flush e
        | inr e ↦ advance-keep e
      ]

    assign_piece-Ordered :
        (block_size : ℕ) (mem : Memory)
        → let bd' = (assign_piece block_size mem (record bd { assignq = q }) i).2 in
          bd'.aborted ≡ false → OrderedBd bd' reading compressing writing × Linked bd'
    assign_piece-Ordered block_size mem going =
        elim (assign_piece_cases block_size mem (record bd { assignq = q }) i) [
          | inl e ↦ rw e (unfold place_piece in advance-Ordered _ _ _ _ _)
          | inr e ↦ absurd (unfold bulkdata_abort in ground (arith, going, e))
        ]

    assign_closing-Ordered :
        kind i ≡ Kind.closing_piece
        → let bd' = assign_closing (record bd { assignq = q }) i in
          OrderedBd bd' reading compressing writing × Linked bd'
    assign_closing-Ordered closing =
        rw (assign_closing_lem (record bd { assignq = q }) i (no_next closing))
          (advance-Ordered _ _ _ _ _)
      where
        no_next : kind i ≡ Kind.closing_piece → bd.next_piece i ≡ none
        no_next c = elim (Option-cases (bd.next_piece i)) [
          | inl e ↦ e
          | inr (n, e) ↦ absurd (ground (arith, c, l.inner i n e))
        ]

    pub assign-Ordered :
        (block_size : ℕ) (mem : Memory)
        → let bd' = (assign block_size mem (record bd { assignq = q }) i).2 in
          bd'.aborted ≡ false → OrderedBd bd' reading compressing writing × Linked bd'
    unfolding assign
    assign-Ordered block_size mem = elim (Kind-cases (kind i)) [
      | inl e ↦ rw (e, assign) (λ going. (assign_block-Ordered e, unfold assign_block in l))
      | inr (inl e) ↦ rw (e, assign) (assign_piece-Ordered block_size mem)
      | inr (inr e) ↦ rw (e, assign) (λ going. assign_closing-Ordered e)
    ]
