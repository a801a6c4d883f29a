-- ===== src/Bulkdata/Order/Enqueue.antt =====
-- Submitting chunks keeps the order of work (`libsqfs_bulkdata_enqueue_chunk_locked`,
-- `libsqfs_bulkdata_enqueue_piece_locked`, src/bulkdata.c).
use libsqfs.Prelude.{ℕ, ◌≡◌, ◌≢◌, Bool, true, List, [], ◌∷◌, arith, refl}
use libsqfs.DataSource.Defs.{Piece}
use libsqfs.Bulkdata.Defs.{Kind, Bulkdata, enqueue_chunk, enqueue_piece, bulkdata_init}
use libsqfs.Bulkdata.Order.Defs.{Linked, OrderedBd, occ-append}

module _ (bd : Bulkdata) (reading compressing writing : List ℕ) (l : Linked bd)
    (o : OrderedBd bd reading compressing writing) (kind : Kind) (piece : Piece) where
  pub enqueue_piece-Ordered : OrderedBd (enqueue_piece bd kind piece) reading compressing writing
  unfolding enqueue_piece
  enqueue_piece-Ordered = record {
    in_read = λ j. ground (arith, o.in_read j, occ-append j bd.readq (bd.count ∷ []), o.unseen j);
    in_dedup = λ j. ground (arith, o.in_dedup j, o.unseen j);
    in_assign = λ j. ground (arith, o.in_assign j, o.unseen j, l.forth j bd.count);
    in_compress = λ j. ground (arith, o.in_compress j, o.unseen j);
    in_write = λ j. ground (arith, o.in_write j, o.unseen j);
    done = λ j. ground (arith, o.done j, o.unseen j);
    unseen = λ j beyond. ground (arith, o.unseen j);
  }

  -- `may` is whether chunks may be added afterwards.
  pub enqueue_piece-Linked :
      (may : Bool)
      → bd.may_add_chunks ≡ true
      → kind ≢ Kind.full_block
      → (may ≡ true → kind ≡ Kind.fragment_piece)
      → Linked (record (enqueue_piece bd kind piece) { may_add_chunks = may })
  unfolding enqueue_piece
  enqueue_piece-Linked may adding partial fragment = record {
    forth = λ j p h. ground (arith, h, l.forth j p, l.at_end p, l.back p j);
    back = λ p n h. ground (arith, h, l.back p n, l.at_end p, l.forth n p);
    at_end = λ p h. ground (arith, h, l.at_end p, l.back p bd.count);
    alone = λ j h. ground (arith, h, l.alone j, partial);
    inner = λ p n h. ground (arith, h, l.inner p n, l.open_end adding p, l.at_end p);
    open_end = λ m p h. ground (arith, m, h, fragment m);
  }

  pub enqueue_chunk-Ordered : OrderedBd (enqueue_chunk bd kind piece) reading compressing writing
  unfolding enqueue_chunk
  enqueue_chunk-Ordered = record {
    in_read = λ j. ground (arith, o.in_read j, occ-append j bd.readq (bd.count ∷ []), o.unseen j);
    in_dedup = λ j. ground (arith, o.in_dedup j, o.unseen j);
    in_assign = λ j. ground (arith, o.in_assign j, o.unseen j, l.forth j bd.count);
    in_compress = λ j. ground (arith, o.in_compress j, o.unseen j);
    in_write = λ j. ground (arith, o.in_write j, o.unseen j);
    done = λ j. ground (arith, o.done j, o.unseen j);
    unseen = λ j beyond. ground (arith, o.unseen j);
  }

  pub enqueue_chunk-Linked : Linked (enqueue_chunk bd kind piece)
  unfolding enqueue_chunk
  enqueue_chunk-Linked = record {
    forth = λ j p h. ground (arith, h, l.forth j p, l.at_end p, l.back p j);
    back = λ p n h. ground (arith, h, l.back p n, l.at_end p, l.forth n p);
    at_end = λ p h. ground (arith, h, l.at_end p, l.back p bd.count);
    alone = λ j h. ground (arith, h, l.alone j);
    inner = λ p n h. ground (arith, h, l.inner p n, l.at_end p, l.back p n);
    open_end = λ m p h. ground (arith, m, h, l.open_end m p, l.at_end p);
  }

pub bulkdata_init-Ordered :
    (b c : Bool) → OrderedBd (bulkdata_init b c) [] [] [] × Linked (bulkdata_init b c)
unfolding bulkdata_init
bulkdata_init-Ordered b c = (
  record {
    in_read = λ j. ground arith;
    in_dedup = λ j. refl;
    in_assign = λ j. refl;
    in_compress = λ j. refl;
    in_write = λ j. refl;
    done = λ j. ground arith;
    unseen = λ j beyond. refl;
  },
  record {
    forth = λ j p h. ground (arith, h);
    back = λ p n h. ground (arith, h);
    at_end = λ p h. ground (arith, h);
    alone = λ j h. refl;
    inner = λ p n h. ground (arith, h);
    open_end = λ m p h. ground (arith, h);
  },
)
