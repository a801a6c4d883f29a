-- ===== src/Bulkdata/Process.antt =====
-- The loop of `libsqfs_bulkdata_process` and `libsqfs_bulkdata_finish` (src/bulkdata.c), for a worker that is alone.
use libsqfs.Prelude.{ℕ, zero, suc, List, [], ◌∷◌, if◌then◌else◌}
use libsqfs.Compressor.{Compressor}
use libsqfs.Output.{Destination}
use libsqfs.Bulkdata.System.{
  System, end_read, end_compress, end_write, process_single, is_over, seal,
}

-- How the loop is left: it ends, or it waits for another thread to signal (`pthread_cond_wait`), or the model
-- runs out of fuel.
pub data Exit : Type 0 where
  ended : Exit
  waits : Exit
  out_of_fuel : Exit

module _ {Disk : Type 0} (dst : Destination Disk) (ci : Compressor) (block_size : ℕ) where
  abbrev pub end_writing : List ℕ → System Disk → System Disk
  end_writing [] s = s
  end_writing (i ∷ q) s = end_write dst s i

  abbrev pub end_compressing : List ℕ → System Disk → System Disk
  end_compressing [] s = end_writing s.writing s
  end_compressing (i ∷ q) s = end_compress ci s i

  abbrev pub end_reading : List ℕ → System Disk → System Disk
  end_reading [] s = end_compressing s.compressing s
  end_reading (i ∷ q) s = end_read s i

  -- What has been begun is ended.
  unfoldable pub complete : System Disk → System Disk
  unfolding end_read end_compress end_write
  complete s = end_reading s.reading s

  -- libsqfs_bulkdata_process
  unfoldable pub process : ℕ → System Disk → Exit × System Disk
  unfolding complete process_single is_over
  process zero s = (Exit.out_of_fuel, s)
  process (suc fuel) s =
      let (found, s') = process_single block_size s in
      let rest = process fuel (complete s') in
      if found then rest else if is_over s'.bd then (Exit.ended, s') else (Exit.waits, s')

  -- libsqfs_bulkdata_finish, which drops the result of the call that seals.
  unfoldable pub finish : ℕ → System Disk → Exit × System Disk
  unfolding process seal
  finish fuel s = process fuel (seal s).1
