-- ===== src/Image/Returns.antt =====
-- `libsqfs_image_finalize` (src/image.c) returns.
use libsqfs.Prelude.{
  ℕ, ◌<◌, ◌≡◌, ◌∙◌, refl, Bool, true, false, some, List, Bool-cases, inl, inr, arith, if◌then◌else◌,
}
use libsqfs.Memory.{Memory}
use libsqfs.Output.{Destination, Output}
use libsqfs.Bulkdata.System.{System, seal}
use libsqfs.Bulkdata.Run.{start, Step, Reach}
use libsqfs.Bulkdata.Process.{Exit, finish}
use libsqfs.Bulkdata.Order.Measure.{work_left}
use libsqfs.Bulkdata.Order.Taken.{IsIdle}
use libsqfs.Bulkdata.Order.Steps.{seal_jobs}
use libsqfs.Bulkdata.Order.Leaving.{seal-running}
use libsqfs.Bulkdata.Order.Finish.{finish_ends}
use libsqfs.Image.Defs.{Image, ImageState}
use libsqfs.Image.Recursion.{IsRanked}
use libsqfs.Image.Reached.{inode_serialize-reaches}
use libsqfs.Image.Finalize.{
  also, write_super, write_tables, conclude, finish_data, finish_tables, finish_sealed, finalize,
}

-- Sealing again succeeds.
seal_again : {Disk : Type 0} (s : System Disk) → (seal s).0 ≡ true → (seal (seal s).1).0 ≡ true
unfolding seal
seal_again s e = ground (arith, e)

module _ {Disk C : Type 0} (dst : Destination Disk) where
  -- The work on the data of a sealed image ends.
  finish_data-ends :
      (b c : Bool) (out : Output Disk) (mem : Memory) (rounds : ℕ) (image : Image Disk C)
      → Reach dst image.compressor image.options.block_size (start b c out mem) image.system
      → image.system.bd.aborted ≡ false
      → IsIdle image.system
      → (seal image.system).0 ≡ true
      → work_left (seal image.system).1.bd < rounds
      → (finish dst image.compressor image.options.block_size rounds image.system).0 ≡ Exit.ended
  finish_data-ends b c out mem rounds image reach running free sealed enough =
      elim (finish_ends dst image.compressor image.options.block_size b c out mem rounds reach
        running free enough) [ inl (ended, _) ↦ ended | inr (exit, _) ↦ rw sealed at exit ]

  -- The recursion and the tables behind the data.
  finish_tables-returns :
      (rank : ℕ → ℕ) (depth : ℕ) (inode_map : List ℕ) (r : ℕ) (image : Image Disk C)
      → IsRanked rank image
      → ((j : ℕ) → (image.base j).encoded_type ≡ 0)
      → rank r < depth
      → (result : ImageState × Image Disk C) × (finish_tables dst depth inode_map r image
          ≡ some result)
  unfolding finish_tables
  finish_tables-returns rank depth inode_map r image ranked fresh deep =
      let ((ok, image'), e, _) = inode_serialize-reaches rank image depth r ranked fresh deep in
      (
        conclude dst (also (write_tables dst inode_map image') (write_super dst r)),
        rw (e, finish_tables) refl,
      )

  finish_sealed-returns :
      (b c : Bool) (out : Output Disk) (mem : Memory) (rank : ℕ → ℕ) (rounds depth : ℕ)
      (inode_map : List ℕ) (r : ℕ) (image : Image Disk C)
      → Reach dst image.compressor image.options.block_size (start b c out mem) image.system
      → image.system.bd.aborted ≡ false
      → IsIdle image.system
      → work_left (seal (seal image.system).1).1.bd < rounds
      → IsRanked rank image
      → ((j : ℕ) → (image.base j).encoded_type ≡ 0)
      → rank r < depth
      → (result : ImageState × Image Disk C) × (finish_sealed dst rounds depth inode_map r image
          ≡ some result)
  unfolding finish_sealed finish_data
  finish_sealed-returns b c out mem rank rounds depth inode_map r image reach running free enough
        ranked fresh deep =
      let s = (seal image.system).1 in
      let image' : Image Disk C = record image { system = s } in
      let (j, k, w) = seal_jobs image.system in
      let free' : IsIdle s = record {
        no_reading = j ∙ free.no_reading;
        no_compressing = k ∙ free.no_compressing;
        no_writing = w ∙ free.no_writing;
      } in
      elim (Bool-cases (seal image.system).0) [
        | inr refused ↦ (conclude dst (false, image'), rw refused refl)
        | inl sealed ↦
            let ended =
              finish_data-ends b c out mem rounds image' (Reach.next reach Step.seals)
                (seal-running image.system ∙ running) free' (seal_again image.system sealed)
                enough in
            let t = (finish dst image.compressor image.options.block_size rounds s).1 in
            let image'' : Image Disk C = record image' {
              system = t;
              state = if t.bd.aborted then ImageState.fatal_error else image.state;
            } in
            let (result, e) =
              finish_tables-returns rank depth inode_map r image'' ranked fresh deep in
            (result, rw (sealed, ended) e)
      ]

  -- An image that is being built, its data in a state that workers and client can reach, nothing aborted, and no
  -- chunk being worked on; its directories have ranks above those of their entries, and no inode has been
  -- serialized. Then finishing it returns, with bounds above the work that is left and the rank of the root.
  pub finalize-returns :
      (b c : Bool) (out : Output Disk) (mem : Memory) (rank : ℕ → ℕ) (rounds depth : ℕ)
      (inode_map : List ℕ) (r : ℕ) (image : Image Disk C)
      → image.state ≡ ImageState.building
      → image.root ≡ some r
      → Reach dst image.compressor image.options.block_size (start b c out mem) image.system
      → image.system.bd.aborted ≡ false
      → IsIdle image.system
      → work_left (seal (seal image.system).1).1.bd < rounds
      → IsRanked rank image
      → ((j : ℕ) → (image.base j).encoded_type ≡ 0)
      → rank r < depth
      → (result : ImageState × Image Disk C) × (finalize dst rounds depth inode_map image
          ≡ some result)
  unfolding finalize
  finalize-returns b c out mem rank rounds depth inode_map r image begun rooted reach running free
        enough ranked fresh deep =
      rw (begun, rooted)
        (finish_sealed-returns b c out mem rank rounds depth inode_map r image reach running free
          enough ranked fresh deep)
