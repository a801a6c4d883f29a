-- ===== src/Tests/BulkdataRuns.antt =====
-- Workers on two chunks (src/bulkdata.c).
use libsqfs.Prelude.{
  ℕ, ◌+◌, ◌≤◌, ◌<◌, ◌≡◌, refl, true, false, none, [], ◌∷◌, ◌⊎◌, arith, ltb, if◌then◌else◌,
}
use libsqfs.Memory.{unlimited}
use libsqfs.Compressor.{Compressor}
use libsqfs.DataSource.Defs.{Piece, memory_data}
use libsqfs.Metatable.Defs as Metatable
use libsqfs.Bulkdata.Defs.{is_finished, bulkdata_init, Bulkdata}
use libsqfs.Bulkdata.System.{
  System, process_single, submit, submit_fragment, seal, end_read, end_compress, end_write,
}
use libsqfs.Bulkdata.Run.{occ, start, Step, Reach}
use libsqfs.Bulkdata.Process.{Exit, finish}
use libsqfs.Bulkdata.Order.Measure.{work_left}
use libsqfs.Bulkdata.Order.Taken.{IsIdle}
use libsqfs.Bulkdata.Order.Progress.{no_deadlock, write_order}
use libsqfs.Bulkdata.Order.Finish.{finish_ends}
use libsqfs.Tests.Storage.{Storage, storage, blank}
use libsqfs.Tests.MetatableRuns.{runs as table_runs}

-- A compressor whose results are never smaller.
abbrev idle : Compressor
idle = record { compress = λ src n. none; compress_meta = λ src n. none }

abbrev block : Piece
block = record { data_source = memory_data (1 ∷ 2 ∷ 3 ∷ 4 ∷ []); offset = 0; size = 4 }

abbrev tail : Piece
tail = record { data_source = memory_data (7 ∷ 8 ∷ []); offset = 0; size = 2 }

abbrev begun : System Storage
begun = start true true blank unlimited

-- A block and the tail of a file are submitted.
abbrev waiting : System Storage
waiting = submit_fragment (submit begun block) tail

unfoldable runs : ℕ
unfolding submit submit_fragment seal process_single end_read end_compress end_write bulkdata_init
    finish
runs = 0

waiting-Reach : Reach storage idle 4 begun waiting
unfolding runs
waiting-Reach =
    Reach.next (Reach.next Reach.here (Step.submits block refl)) (Step.submits_fragment tail refl)

waiting_runs : waiting.bd.aborted ≡ false
unfolding runs
waiting_runs = refl

waiting-IsIdle : IsIdle waiting
unfolding runs
waiting-IsIdle = record { no_reading = refl; no_compressing = refl; no_writing = refl }

-- The closing piece is there too, and the loop goes to its end.
all_finished : (finish storage idle 4 60 waiting).0 ≡ Exit.ended
unfolding runs storage memory_data libsqfs.Bulkdata.System.remove
all_finished = refl

little_work : work_left (seal waiting).1.bd < 60
unfolding runs libsqfs.Bulkdata.Order.Measure.total
little_work = omega arith

waiting_left : waiting.bd.finished < waiting.bd.count
unfolding runs
waiting_left = omega arith

finish_ends_example :
    let (sealed, s') = seal waiting in
    let (exit, t) = finish storage idle 4 60 waiting in
    ((exit ≡ Exit.ended) × (t.bd.aborted ≡ true))
    ⊎ ((exit ≡ (if sealed then Exit.ended else Exit.waits)) × (t.bd.finished ≡ t.bd.count))
finish_ends_example =
    finish_ends storage idle 4 true true blank unlimited 60 waiting-Reach waiting_runs
      waiting-IsIdle little_work

no_deadlock_example :
    let (found, s') = process_single 4 waiting in (found ≡ true) ⊎ (s'.bd.aborted ≡ true)
no_deadlock_example =
    no_deadlock storage idle 4 true true blank unlimited waiting-Reach waiting_runs waiting_left
      waiting-IsIdle.no_reading waiting-IsIdle.no_compressing waiting-IsIdle.no_writing

-- The first block is being written, the second one is read.
abbrev works : System Storage → System Storage
works s = (process_single 4 s).1

abbrev read_first : System Storage
read_first = works waiting

abbrev assigned_first : System Storage
assigned_first = works (works (end_read read_first 0))

abbrev compressed_first : System Storage
compressed_first = works assigned_first

abbrev writing_first : System Storage
writing_first = works (end_compress idle compressed_first 0)

abbrev busy : System Storage
busy = works writing_first

busy-Reach : Reach storage idle 4 begun busy
unfolding runs memory_data libsqfs.Bulkdata.System.remove
busy-Reach =
    let read_0 = Reach.next waiting-Reach Step.works in
    let got_0 = Reach.next read_0 (Step.ends_read 0 (omega arith)) in
    let assigned_0 = Reach.next (Reach.next got_0 Step.works) Step.works in
    let compressed_0 = Reach.next assigned_0 Step.works in
    let writable_0 = Reach.next compressed_0 (Step.ends_compress 0 (omega arith)) in
    Reach.next (Reach.next writable_0 Step.works) Step.works

busy_works : busy.bd.aborted ≡ false
unfolding runs memory_data libsqfs.Bulkdata.System.remove
busy_works = refl

busy_writes : busy.writing ≡ 0 ∷ []
unfolding runs memory_data libsqfs.Bulkdata.System.remove
busy_writes = refl

write_order_example :
    ((j : ℕ) → is_finished (busy.bd.state j) ≡ ltb j busy.bd.finished)
    × ((i : ℕ) → 0 < occ i busy.writing → (i ≡ busy.bd.finished) × (occ i busy.writing ≡ 1))
    × ((j : ℕ)
        → (occ j busy.bd.readq + occ j busy.reading)
            + (occ j busy.bd.dedupq
                + (occ j busy.bd.assignq
                    + ((occ j busy.bd.compressq + occ j busy.compressing)
                        + (occ j busy.bd.writeq + occ j busy.writing))))
          ≤ 1)
write_order_example = write_order storage idle 4 true true blank unlimited busy-Reach busy_works

-- One fragment block, at offset 200, of which 50 bytes are stored.
abbrev one_fragment_block : Bulkdata
unfolding bulkdata_init
one_fragment_block = record (bulkdata_init true true) {
  nblocks = 1;
  fragment_blocks = λ i. record {
    size = 60;
    pieces = 0 ∷ [];
    dst = record { offset = 200; size = 50; contents = none; compressed = true };
  };
}
