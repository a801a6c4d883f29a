-- ===== src/Bulkdata/Order/Leaving.antt =====
-- How a worker leaves the loop of `libsqfs_bulkdata_process` (src/bulkdata.c).
use libsqfs.Prelude.{
  ℕ, ◌≤◌, ◌≡◌, Bool, true, false, not, [], ltb, if◌then◌else◌, arith, refl, ap, ◌∙◌, Bool-cases,
  inl, inr, ◌⊎◌,
}
use libsqfs.Bulkdata.Defs.{bulkdata_abort, Bulkdata}
use libsqfs.Bulkdata.System.{
  System, process_single, is_over, seal, pop_write, pop_compress, pop_assign, pop_dedup, pop_read,
}
use libsqfs.Bulkdata.Process.{Exit}
use libsqfs.Bulkdata.Order.Ends.{Sound}
use libsqfs.Bulkdata.Order.Progress.{not_stuck}
use libsqfs.Bulkdata.Order.Taken.{Stopped, IsIdle}

-- When work has been aborted, a worker that looks for work ends.
pub process_single-Stopped :
    {Disk : Type 0} (block_size : ℕ) (s : System Disk)
    → Stopped s.bd
    → (process_single block_size s ≡ (false, s)) × (s.bd.aborted ≡ true)
unfolding process_single pop_write
process_single-Stopped block_size s (before, e) =
    (rw (e, process_single) (unfold bulkdata_abort in refl), rw e (unfold bulkdata_abort in refl))

-- What a worker that has nothing left to do does: it waits where chunks may still be added.
abbrev pub leaves : Bool → Exit
leaves may_add = if may_add then Exit.waits else Exit.ended

-- How a worker that is alone leaves the loop: work was aborted, or all chunks are finished.
abbrev pub Settled : {Disk : Type 0} → Bool → Exit × System Disk → Type 0
Settled may_add r =
    ((r.0 ≡ Exit.ended) × (r.1.bd.aborted ≡ true))
    ⊎ ((r.0 ≡ leaves may_add) × (r.1.bd.finished ≡ r.1.bd.count))

pub is_over-aborted : (bd : Bulkdata) → bd.aborted ≡ true → is_over bd ≡ true
unfolding is_over
is_over-aborted bd e = ground (arith, e)

pub is_over-done :
    (bd : Bulkdata)
    → bd.finished ≡ bd.count
    → bd.aborted ≡ false
    → is_over bd ≡ not bd.may_add_chunks
unfolding is_over
is_over-done bd e a = ground (arith, e, a)

module _ {Disk : Type 0} (s : System Disk) (block_size : ℕ) where
  pub idle_single :
      (s.bd.writeq ≡ [])
        × (s.bd.compressq ≡ [])
        × (s.bd.assignq ≡ [])
        × (s.bd.dedupq ≡ [])
        × (s.bd.readq ≡ [])
      → process_single block_size s ≡ (false, s)
  unfolding process_single pop_write pop_compress pop_assign pop_dedup pop_read
  idle_single (w, c, a, d, r) =
      ap (pop_write block_size s) w
      ∙ (ap (pop_compress block_size s) c
          ∙ (ap (pop_assign block_size s) a ∙ (ap (pop_dedup s) d ∙ ap (pop_read s) r)))

  -- At most `count` chunks are finished.
  finished-le : Sound s → s.bd.finished ≤ s.bd.count
  finished-le (o, l) = ground (arith, o.done s.bd.count, o.unseen s.bd.count)

  pub all_done :
      Sound s
      → IsIdle s
      → (s.bd.writeq ≡ [])
        × (s.bd.compressq ≡ [])
        × (s.bd.assignq ≡ [])
        × (s.bd.dedupq ≡ [])
        × (s.bd.readq ≡ [])
      → s.bd.finished ≡ s.bd.count
  all_done sound free empty = elim (Bool-cases (ltb s.bd.finished s.bd.count)) [
    | inl lt ↦ absurd (
        not_stuck s block_size sound (ground (arith, lt)) free.no_reading free.no_compressing
          free.no_writing empty)
    | inr ge ↦ ground (arith, ge, finished-le sound)
  ]

pub seal-running : {Disk : Type 0} (s : System Disk) → (seal s).1.bd.aborted ≡ s.bd.aborted
unfolding seal
seal-running s = elim (Bool-cases s.bd.may_add_chunks) [
  | inr e ↦ rw (e, seal) refl
  | inl may ↦ elim (Bool-cases (s.mem.grant s.mem.calls)) [
    | inr e ↦ ground (arith, e, may)
    | inl e ↦ ground (arith, e, may)
  ]
]

-- Chunks may still be added exactly when sealing has failed.
pub seal-leaves :
    {Disk : Type 0} (s : System Disk)
    → leaves (seal s).1.bd.may_add_chunks ≡ (if (seal s).0 then Exit.ended else Exit.waits)
unfolding seal
seal-leaves s = elim (Bool-cases s.bd.may_add_chunks) [
  | inr e ↦ ground (arith, e)
  | inl may ↦ elim (Bool-cases (s.mem.grant s.mem.calls)) [
    | inr e ↦ ground (arith, e, may)
    | inl e ↦ ground (arith, e, may)
  ]
]
