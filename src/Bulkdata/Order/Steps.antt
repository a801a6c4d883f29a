-- ===== src/Bulkdata/Order/Steps.antt =====
-- Whatever the workers and the client do, and in whatever order, chunks are written in the order in which they
-- were submitted, and no chunk is left behind (src/bulkdata.c).
use libsqfs.Prelude.{ℕ, ◌≡◌, Bool, true, false, arith, refl, Bool-cases, inl, inr, ◌⊎◌}
use libsqfs.Memory.{Memory}
use libsqfs.Compressor.{Compressor}
use libsqfs.DataSource.Defs.{Piece}
use libsqfs.Output.{Destination, Output}
use libsqfs.Bulkdata.Defs.{Kind, enqueue_chunk, enqueue_piece, bulkdata_abort, empty_piece}
use libsqfs.Bulkdata.System.{System, submit, submit_fragment, seal}
use libsqfs.Bulkdata.Run.{start, Step, Reach}
use libsqfs.Bulkdata.Order.Enqueue.{
  enqueue_piece-Ordered, enqueue_piece-Linked, enqueue_chunk-Ordered, enqueue_chunk-Linked,
  bulkdata_init-Ordered,
}
use libsqfs.Bulkdata.Order.Ends.{
  Sound, Keeps, not_going, end_read-Keeps, end_compress-Keeps, end_write-Keeps,
}
use libsqfs.Bulkdata.Order.Begins.{process_single-Keeps}

module _ {Disk : Type 0} where
  submit-Keeps : (s : System Disk) (p : Piece) → Keeps s (submit s p)
  unfolding submit
  submit-Keeps s p = elim (Bool-cases (s.mem.grant s.mem.calls)) [
    | inr e ↦ rw (e, submit) (λ going. (going, λ sound. sound))
    | inl e ↦
        rw (e, submit)
          (unfold enqueue_chunk in
            λ going. (
              going,
              λ (o, l). (
                enqueue_chunk-Ordered s.bd s.reading s.compressing s.writing l o Kind.full_block p,
                enqueue_chunk-Linked s.bd s.reading s.compressing s.writing l o Kind.full_block p,
              ),
            ))
  ]

  submit_fragment-Keeps :
      (s : System Disk) (p : Piece) → s.bd.may_add_chunks ≡ true → Keeps s (submit_fragment s p)
  unfolding submit_fragment
  submit_fragment-Keeps s p may = elim (Bool-cases (s.mem.grant s.mem.calls)) [
    | inr e ↦ rw (e, submit_fragment) (λ going. (going, λ sound. sound))
    | inl e ↦
        rw (e, submit_fragment)
          (unfold enqueue_piece in
            λ going. (
              going,
              λ (o, l). (
                enqueue_piece-Ordered s.bd s.reading s.compressing s.writing l o Kind.fragment_piece
                    p,
                enqueue_piece-Linked s.bd s.reading s.compressing s.writing l o Kind.fragment_piece
                    p s.bd.may_add_chunks may (cc) (λ _. refl),
              ),
            ))
  ]

  -- Sealing changes nothing, or adds the closing piece.
  seal_cases :
      (s : System Disk)
      → ((seal s).1.bd ≡ s.bd)
        ⊎ ((s.bd.may_add_chunks ≡ true)
            × ((seal s).1.bd ≡ record (enqueue_piece s.bd Kind.closing_piece empty_piece) {
              may_add_chunks = false;
            }))
  unfolding seal
  seal_cases s = elim (Bool-cases s.bd.may_add_chunks) [
    | inr e ↦ inl (ground (arith, e))
    | inl may ↦ elim (Bool-cases (s.mem.grant s.mem.calls)) [
      | inr e ↦ inl (ground (arith, e, may))
      | inl e ↦ inr (may, ground (arith, e, may))
    ]
  ]

  pub seal_jobs :
      (s : System Disk)
      → ((seal s).1.reading ≡ s.reading)
        × ((seal s).1.compressing ≡ s.compressing)
        × ((seal s).1.writing ≡ s.writing)
  unfolding seal
  seal_jobs s = ground arith

  seal-Keeps : (s : System Disk) → Keeps s (seal s).1
  seal-Keeps s =
      let (r, c, w) = seal_jobs s in
      elim (seal_cases s) [
        | inl e ↦ rw (e, r, c, w) (λ going. (going, λ sound. sound))
        | inr (may, e) ↦
            rw (e, r, c, w)
              (unfold enqueue_piece in
                λ going. (
                  going,
                  λ (o, l). (
                    enqueue_piece-Ordered s.bd s.reading s.compressing s.writing l o
                        Kind.closing_piece empty_piece,
                    enqueue_piece-Linked s.bd s.reading s.compressing s.writing l o
                        Kind.closing_piece empty_piece false may (cc) (λ f. cc),
                  ),
                ))
      ]

module _ {Disk : Type 0} (dst : Destination Disk) (ci : Compressor) (block_size : ℕ) where
  Step-Keeps : {s t : System Disk} → Step dst ci block_size s t → Keeps s t
  Step-Keeps {s} (Step.submits p may) = submit-Keeps s p
  Step-Keeps {s} (Step.submits_fragment p may) = submit_fragment-Keeps s p may
  Step-Keeps {s} Step.seals = seal-Keeps s
  Step-Keeps {s} Step.aborts = unfold bulkdata_abort in λ going. absurd (not_going true refl going)
  Step-Keeps {s} Step.works = process_single-Keeps s block_size
  Step-Keeps {s} (Step.ends_read i here) = end_read-Keeps s i here
  Step-Keeps {s} (Step.ends_compress i here) = end_compress-Keeps s i ci here
  Step-Keeps {s} (Step.ends_write i here) = end_write-Keeps s i dst here

  pub Reach-Sound :
      (b c : Bool) (out : Output Disk) (mem : Memory) {s : System Disk}
      → Reach dst ci block_size (start b c out mem) s
      → s.bd.aborted ≡ false
      → Sound s
  Reach-Sound b c out mem Reach.here = λ going. bulkdata_init-Ordered b c
  Reach-Sound b c out mem (Reach.next r st) =
      λ going. let (going', keep) = Step-Keeps st going in keep (Reach-Sound b c out mem r going')
