-- ===== src/Bulkdata/Order/Finish.antt =====
-- `libsqfs_bulkdata_process` and `libsqfs_bulkdata_finish` (src/bulkdata.c) come to an end.
use libsqfs.Prelude.{
  ℕ, zero, suc, ◌<◌, ◌≡◌, Bool, true, false, if◌then◌else◌, arith, refl, subst, ap, ◌∙◌, Bool-cases,
  inl, inr, ◌⊎◌,
}
use libsqfs.Memory.{Memory}
use libsqfs.Compressor.{Compressor}
use libsqfs.Output.{Destination, Output}
use libsqfs.Bulkdata.System.{System, process_single, is_over, seal}
use libsqfs.Bulkdata.Run.{start, Reach, Step}
use libsqfs.Bulkdata.Process.{Exit, complete, process, finish}
use libsqfs.Bulkdata.Order.Ends.{Sound, not_going}
use libsqfs.Bulkdata.Order.Begins.{process_single-Keeps}
use libsqfs.Bulkdata.Order.Steps.{Reach-Sound, seal_jobs}
use libsqfs.Bulkdata.Order.Measure.{work_left}
use libsqfs.Bulkdata.Order.Ending.{process_single-less}
use libsqfs.Bulkdata.Order.Progress.{process_single-Acts}
use libsqfs.Bulkdata.Order.Taken.{Stopped, IsIdle, process_single-Taken}
use libsqfs.Bulkdata.Order.Leaving.{
  process_single-Stopped, Settled, is_over-aborted, is_over-done, idle_single, all_done,
  seal-running, seal-leaves,
}
use libsqfs.Bulkdata.Order.Jobs.{complete-idle, complete-Rests}

module _ {Disk : Type 0} (dst : Destination Disk) (ci : Compressor) (block_size : ℕ) where
  process-round :
      (fuel : ℕ) (s : System Disk)
      → (process_single block_size s).0 ≡ true
      → process dst ci block_size (suc fuel) s
        ≡ process dst ci block_size fuel
            (complete dst ci block_size (process_single block_size s).1)
  unfolding process
  process-round fuel s e = rw e refl

  process-over :
      (fuel : ℕ) (s : System Disk)
      → (process_single block_size s).0 ≡ false
      → process dst ci block_size (suc fuel) s ≡ (
          if is_over (process_single block_size s).1.bd
          then (Exit.ended, (process_single block_size s).1)
          else (Exit.waits, (process_single block_size s).1))
  unfolding process
  process-over fuel s e = rw e refl

  over-aborted :
      (fuel : ℕ) (s : System Disk) (m : Bool)
      → (process_single block_size s).0 ≡ false
      → (process_single block_size s).1.bd.aborted ≡ true
      → Settled m (process dst ci block_size (suc fuel) s)
  over-aborted fuel s m e a =
      rw (process-over fuel s e, is_over-aborted (process_single block_size s).1.bd a)
        (inl (refl, a))

  over-done :
      (fuel : ℕ) (s : System Disk)
      → process_single block_size s ≡ (false, s)
      → s.bd.finished ≡ s.bd.count
      → s.bd.aborted ≡ false
      → Settled s.bd.may_add_chunks (process dst ci block_size (suc fuel) s)
  over-done fuel s e f a =
      rw (process-over fuel s (ap (λ (r : Bool × System Disk). r.0) e), e, is_over-done s.bd f a)
        (elim (Bool-cases s.bd.may_add_chunks) [
          | inl m ↦ inr (ground (arith, m), ground (arith, m, f))
          | inr m ↦ inr (ground (arith, m), ground (arith, m, f))
        ])

  process-Stopped :
      (fuel : ℕ) (s : System Disk) (m : Bool)
      → 0 < fuel
      → Stopped s.bd
      → Settled m (process dst ci block_size fuel s)
  process-Stopped zero s m h stopped = absurd (omega arith)
  process-Stopped (suc fuel) s m h stopped =
      let (e, a) = process_single-Stopped block_size s stopped in
      over-aborted fuel s m (ap (λ (r : Bool × System Disk). r.0) e)
        (ap (λ (r : Bool × System Disk). r.1.bd.aborted) e ∙ a)

  -- A round that has found something to do, and the rounds behind it.
  round-Settled :
      (fuel : ℕ) (s : System Disk)
      → ((t : System Disk)
          → IsIdle t
          → t.bd.aborted ≡ false
          → Sound t
          → work_left t.bd < fuel
          → Settled t.bd.may_add_chunks (process dst ci block_size fuel t))
      → IsIdle s
      → s.bd.aborted ≡ false
      → Sound s
      → work_left s.bd < suc fuel
      → (process_single block_size s).0 ≡ true
      → Settled s.bd.may_add_chunks (
          process dst ci block_size fuel
            (complete dst ci block_size (process_single block_size s).1))
  round-Settled fuel s later free running sound h found =
      let m = s.bd.may_add_chunks in
      let s' = (process_single block_size s).1 in
      let t = complete dst ci block_size s' in
      let less = process_single-less s sound.0 sound.1 block_size found in
      elim (process_single-Taken s free block_size) [
        | inr (stopped, free') ↦
            rw (complete-idle dst ci block_size s' free')
              (process-Stopped fuel s' m (omega (arith, less, h)) stopped)
        | inl (f, working) ↦
            let running' = ap (λ (f : Bool × Bool). f.0) f ∙ running in
            let sound' = (process_single-Keeps s block_size running').1 sound in
            let rests = complete-Rests dst ci block_size s' running' sound' working in
            elim rests.going [
              | inr stopped ↦ process-Stopped fuel t m (omega (arith, less, h)) stopped
              | inl (sound'', f') ↦
                  let same = f' ∙ f in
                  subst (λ b. Settled b (process dst ci block_size fuel t))
                    (ap (λ (f : Bool × Bool). f.1) same)
                    (later t rests.free (ap (λ (f : Bool × Bool). f.0) same ∙ running) sound''
                      (omega (arith, less, h, rests.no_more)))
            ]
      ]

  -- With more fuel than there is work, the loop is left.
  process-Settled :
      (fuel : ℕ) (s : System Disk)
      → IsIdle s
      → s.bd.aborted ≡ false
      → Sound s
      → work_left s.bd < fuel
      → Settled s.bd.may_add_chunks (process dst ci block_size fuel s)
  process-Settled zero s free running sound h = absurd (omega arith)
  process-Settled (suc fuel) s free running sound h =
      elim (Bool-cases (process_single block_size s).0) [
        | inl found ↦
            rw (process-round fuel s found)
              (round-Settled fuel s (process-Settled fuel) free running sound h found)
        | inr nothing ↦ elim (process_single-Acts s block_size) [
          | inr empty ↦
              over-done fuel s (idle_single s block_size empty)
                (all_done s block_size sound free empty) running
          | inl acts ↦
              over-aborted fuel s s.bd.may_add_chunks nothing
                (elim acts [ inl found ↦ absurd (not_going _ found nothing) | inr a ↦ a ])
        ]
      ]

  -- From every state that workers and client can reach, nothing aborted and no chunk being worked on: a worker
  -- that is alone brings `libsqfs_bulkdata_finish` to an end, in at most as many rounds as there is work. Either
  -- work was aborted, or all chunks are finished; in the second case the worker ends where the closing piece got
  -- storage, and waits for another thread where it did not.
  pub finish_ends :
      (b c : Bool) (out : Output Disk) (mem : Memory) {s : System Disk} (fuel : ℕ)
      → Reach dst ci block_size (start b c out mem) s
      → s.bd.aborted ≡ false
      → IsIdle s
      → let (sealed, s') = seal s in
        let (exit, t) = finish dst ci block_size fuel s in
        work_left s'.bd < fuel
        → ((exit ≡ Exit.ended) × (t.bd.aborted ≡ true))
          ⊎ ((exit ≡ (if sealed then Exit.ended else Exit.waits)) × (t.bd.finished ≡ t.bd.count))
  unfolding finish
  finish_ends b c out mem {s} fuel r running free h =
      let s' = (seal s).1 in
      let (j, k, w) = seal_jobs s in
      let free' : IsIdle s' = record {
        no_reading = j ∙ free.no_reading;
        no_compressing = k ∙ free.no_compressing;
        no_writing = w ∙ free.no_writing;
      } in
      let running' : s'.bd.aborted ≡ false = seal-running s ∙ running in
      let sound = Reach-Sound dst ci block_size b c out mem (Reach.next r Step.seals) running' in
      let settled = process-Settled fuel s' free' running' sound h in
      subst
        (λ e.
          ((process dst ci block_size fuel s').0 ≡ Exit.ended)
            × ((process dst ci block_size fuel s').1.bd.aborted ≡ true)
          ⊎ (((process dst ci block_size fuel s').0 ≡ e)
              × ((process dst ci block_size fuel s').1.bd.finished
                  ≡ (process dst ci block_size fuel s').1.bd.count)))
        (seal-leaves s) settled
