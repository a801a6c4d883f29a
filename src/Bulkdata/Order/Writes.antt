-- ===== src/Bulkdata/Order/Writes.antt =====
-- Reading, compressing and writing keep the order of work (src/bulkdata.c).
use libsqfs.Prelude.{ℕ, ◌+◌, ◌≡◌, true, Option, List, ◌∷◌, ◌==◌, ltb, arith, ==_iff}
use libsqfs.Bulkdata.Defs.{ChunkState, Bulkdata, update, FragmentBlock, ImageBlock}
use libsqfs.Bulkdata.Work.{mark_finished}
use libsqfs.Bulkdata.Blocks.{become_writable}
use libsqfs.Bulkdata.Run.{bit, occ}
use libsqfs.Bulkdata.Order.Queue.{try_writeout-queue, mark_finished-queue}
use libsqfs.Bulkdata.Order.Defs.{
  Linked, OrderedBd, unread_slot-one, assigned_slot-one, writable_slot-one,
}

module _ (bd : Bulkdata) (reading compressing writing : List ℕ) (l : Linked bd)
    (o : OrderedBd bd reading compressing writing) (i : ℕ) where
  open bd use {state, kind}

  -- A chunk that is read goes on to deduplication.
  pub read-Ordered :
      (q reading' : List ℕ) (cached : ℕ → Option (List ℕ))
      → ((j : ℕ) → occ j bd.readq + occ j reading ≡ bit (i == j) + (occ j q + occ j reading'))
      → OrderedBd
          (record bd {
            readq = q;
            cached_data = cached;
            state = update state i ChunkState.was_read;
            dedupq = i ∷ bd.dedupq;
          })
          reading'
          compressing
          writing
  read-Ordered q reading' cached taken = record {
    in_read = λ j. ground (arith, o.in_read j, taken j, is_unread);
    in_dedup = λ j. ground (arith, o.in_dedup j, is_unread);
    in_assign = λ j. ground (arith, o.in_assign j, is_unread, l.forth j i);
    in_compress = λ j. ground (arith, o.in_compress j, is_unread);
    in_write = λ j. ground (arith, o.in_write j, is_unread);
    done = λ j. ground (arith, o.done j, is_unread);
    unseen = λ j beyond. ground (arith, o.unseen j beyond, is_unread, o.in_read i, taken i);
  }
    where
      is_unread : state i ≡ ChunkState.unread
      is_unread = unread_slot-one (ltb i bd.count) (state i) (ground (arith, o.in_read i, taken i))

  -- A chunk that is compressed can be written.
  pub compressed-Ordered :
      (compressing' : List ℕ) (cached : ℕ → Option (List ℕ)) (dst : ℕ → ImageBlock)
      (blocks : ℕ → FragmentBlock)
      → ((j : ℕ)
          → occ j bd.compressq + occ j compressing
            ≡ bit (i == j) + (occ j bd.compressq + occ j compressing'))
      → OrderedBd
          (become_writable
            (record bd { cached_data = cached; dst = dst; fragment_blocks = blocks })
            i)
          reading
          compressing'
          writing
  unfolding become_writable
  compressed-Ordered compressing' cached dst blocks taken = record {
    in_read = λ j. ground (arith, o.in_read j, is_assigned);
    in_dedup = λ j. ground (arith, o.in_dedup j, is_assigned);
    in_assign = λ j. ground (arith, o.in_assign j, is_assigned);
    in_compress = λ j. ground (arith, o.in_compress j, taken j, is_assigned);
    in_write = λ j.
        try_writeout-queue state bd.finished bd.writeq writing o.done o.in_write i j
          (ground (arith, is_assigned)) (ground (arith, is_assigned));
    done = λ j. ground (arith, o.done j, is_assigned);
    unseen = λ j beyond. ground (arith, o.unseen j beyond, is_assigned);
  }
    where
      is_assigned : state i ≡ ChunkState.assigned
      is_assigned = assigned_slot-one (state i) (ground (arith, o.in_compress i, taken i))

  -- A chunk that is written, or has nothing to be written, is finished, and the next one may be written.
  pub finished-Ordered :
      (q writing' : List ℕ) (dst : ℕ → ImageBlock) (blocks : ℕ → FragmentBlock)
      → ((j : ℕ) → occ j bd.writeq + occ j writing ≡ bit (i == j) + (occ j q + occ j writing'))
      → OrderedBd
          (mark_finished (record bd { writeq = q; dst = dst; fragment_blocks = blocks }) i)
          reading
          compressing
          writing'
  unfolding mark_finished
  finished-Ordered q writing' dst blocks taken = record {
    in_read = λ j. ground (arith, o.in_read j, is_next);
    in_dedup = λ j. ground (arith, o.in_dedup j, is_next);
    in_assign = λ j. ground (arith, o.in_assign j, is_next);
    in_compress = λ j. ground (arith, o.in_compress j, is_next);
    in_write = λ j.
        mark_finished-queue state bd.finished bd.writeq writing o.done o.in_write i bd.count q
          writing' j ((==_iff i bd.finished).0 is_next.1) is_next.0 o.unseen (taken j);
    done = λ j. ground (arith, o.done j, is_next);
    unseen = λ j beyond. ground (arith, o.unseen j beyond, is_next);
  }
    where
      is_next : (state i ≡ ChunkState.writable) × ((i == bd.finished) ≡ true)
      is_next =
          writable_slot-one (i == bd.finished) (state i) (ground (arith, o.in_write i, taken i))

  -- A chunk that is taken up moves from a queue to the chunks in work.
  pub taken_up-Ordered :
      (readq reading' compressq compressing' writeq writing' : List ℕ) (dst : ℕ → ImageBlock)
      (blocks : ℕ → FragmentBlock)
      → ((j : ℕ) → occ j bd.readq + occ j reading ≡ occ j readq + occ j reading')
      → ((j : ℕ) → occ j bd.compressq + occ j compressing ≡ occ j compressq + occ j compressing')
      → ((j : ℕ) → occ j bd.writeq + occ j writing ≡ occ j writeq + occ j writing')
      → OrderedBd
          (record bd {
            readq = readq;
            compressq = compressq;
            writeq = writeq;
            dst = dst;
            fragment_blocks = blocks;
          })
          reading'
          compressing'
          writing'
  taken_up-Ordered readq reading' compressq compressing' writeq writing' dst blocks r c w = record {
    in_read = λ j. omega (arith, o.in_read j, r j);
    in_dedup = o.in_dedup;
    in_assign = o.in_assign;
    in_compress = λ j. omega (arith, o.in_compress j, c j);
    in_write = λ j. omega (arith, o.in_write j, w j);
    done = o.done;
    unseen = o.unseen;
  }
