-- ===== src/Bulkdata/Run.antt =====
-- Any number of workers, interleaved in any order, beside a client that submits data (src/bulkdata.c).
use libsqfs.Prelude.{ℕ, ◌+◌, ◌<◌, ◌≡◌, true, false, Bool, List, [], ◌∷◌, ◌==◌}
use libsqfs.Compressor.{Compressor}
use libsqfs.DataSource.Defs.{Piece}
use libsqfs.Memory.{Memory}
use libsqfs.Output.{Destination, Output}
use libsqfs.Bulkdata.Defs.{bulkdata_init, bulkdata_abort}
use libsqfs.Bulkdata.System.{
  System, with_bd, process_single, end_read, end_compress, end_write, submit, submit_fragment, seal,
}

abbrev pub bit : Bool → ℕ
bit true = 1
bit false = 0

-- How often a chunk stands in a queue.
abbrev pub occ : ℕ → List ℕ → ℕ
occ j [] = 0
occ j (i ∷ q) = bit (i == j) + occ j q

module _ {Disk : Type 0} where
  -- A `libsqfs_bulkdata` that has just been initialised.
  abbrev pub start : Bool → Bool → Output Disk → Memory → System Disk
  start compress_blocks compress_fragments out mem = record {
    bd = bulkdata_init compress_blocks compress_fragments;
    out = out;
    mem = mem;
    reading = [];
    compressing = [];
    writing = [];
  }

module _ {Disk : Type 0} (dst : Destination Disk) (ci : Compressor) (block_size : ℕ) where
  -- What happens next: the client submits data, as long as it may, seals or aborts; a worker takes up a chunk, or
  -- ends what it has begun.
  pub data Step (s : System Disk) : System Disk → Type 0 where
    submits : (p : Piece) → s.bd.may_add_chunks ≡ true → Step s (submit s p)
    submits_fragment : (p : Piece) → s.bd.may_add_chunks ≡ true → Step s (submit_fragment s p)
    seals : Step s (seal s).1
    aborts : Step s (with_bd s (bulkdata_abort s.bd))
    works : Step s (process_single block_size s).1
    ends_read : (i : ℕ) → 0 < occ i s.reading → Step s (end_read s i)
    ends_compress : (i : ℕ) → 0 < occ i s.compressing → Step s (end_compress ci s i)
    ends_write : (i : ℕ) → 0 < occ i s.writing → Step s (end_write dst s i)

  pub data Reach (s : System Disk) : System Disk → Type 0 where
    here : Reach s s
    next : {t u : System Disk} → Reach s t → Step t u → Reach s u
