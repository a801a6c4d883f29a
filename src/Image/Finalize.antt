-- ===== src/Image/Finalize.antt =====
-- Finishing an image: the data, the inodes, and all tables in their order (`libsqfs_image_finalize`, src/image.c).
use Prim.Native.Nat.{bit_or}
use libsqfs.Prelude.{
  ℕ, zero, suc, ◌+◌, ◌*◌, ◌/◌, ◌%◌, ◌^◌, Bool, true, false, Option, none, some, List, [], ◌∷◌,
  length, ◌==◌, if◌then◌else◌,
}
use libsqfs.Prelude.Bytes.{le16}
use libsqfs.Output.{Destination, Output, is_count, off_mod}
use libsqfs.Metatable.Write.{write}
use libsqfs.IdTable.Defs.{idtable_write}
use libsqfs.Export.Defs.{export_table_write}
use libsqfs.Xattrs.Table.{table_write}
use libsqfs.Superblock.Defs.{Summary, write_superblock}
use libsqfs.Inode.Defs.{Inode}
use libsqfs.Bulkdata.System.{seal}
use libsqfs.Bulkdata.Process.{Exit, finish}
use libsqfs.Bulkdata.Fragments.Table.{write_fragment_table}
use libsqfs.Image.Defs.{Image, ImageState, flag_fatal, is_building}
use libsqfs.Image.Serialize.{inode_serialize}

module _ {Disk C : Type 0} where
  -- `success = success && ...`
  abbrev pub also : Bool × Image Disk C → (Image Disk C → Bool × Image Disk C) → Bool × Image Disk C
  also (false, image) step = (false, image)
  also (true, image) step = step image

  abbrev with_out : Image Disk C → Output Disk → Image Disk C
  with_out image out = record image { system = record image.system { out = out } }

  -- The list of the image's inodes, from number `i` on.
  unfoldable inodes_from : Image Disk C → ℕ → ℕ → List Inode
  inodes_from image i zero = []
  inodes_from image i (suc n) = image.base i ∷ inodes_from image (suc i) n

  -- What `libsqfs_write_superblock` reads of an image with root `r`.
  unfoldable pub summary : Image Disk C → ℕ → Summary
  summary image r = record {
    inodes = image.count;
    creation_time = image.creation_time;
    block_size = image.options.block_size;
    block_size_log = image.options.block_size_log;
    fragment_blocks = image.system.bd.nblocks;
    compressor_id = image.compressor_id;
    options = record {
      inode_compression = image.options.inode_compression;
      data_compression = image.options.data_compression;
      fragment_compression = image.options.fragment_compression;
      fragments = image.options.fragments;
      exportable = image.options.exportable;
      has_compressor_options = elim image.compressor_option_data [
        | none ↦ false
        | some bytes ↦ true
      ];
    };
    nids = image.idtable.nids;
    root = image.base r;
    size = image.system.out.size;
    idtable = image.idtable.offset;
    xattr_table = image.xattr_table.offset;
    inode_table = image.inode_table.offset;
    dir_table = image.dir_table.offset;
    frag_table = image.system.bd.frag_table_loc;
    export_table = image.export_table;
  }

-- SQUASHFS_COMPRESSED_BIT
abbrev compressed_bit : ℕ
compressed_bit = 2 ^ 15

module _ {Disk C : Type 0} (dst : Destination Disk) where
  unfoldable write_inode_table : Image Disk C → Bool × Image Disk C
  unfolding write
  write_inode_table image =
      let (ok, tab, out) = write dst image.inode_table image.system.out in
      (ok, with_out (record image { inode_table = tab }) out)

  unfoldable write_dir_table : Image Disk C → Bool × Image Disk C
  unfolding write
  write_dir_table image =
      let (ok, tab, out) = write dst image.dir_table image.system.out in
      (ok, with_out (record image { dir_table = tab }) out)

  unfoldable write_fragments : Image Disk C → Bool × Image Disk C
  unfolding write_fragment_table
  write_fragments image =
      let (ok, mem, bd, out) =
        write_fragment_table dst image.system.mem image.compressor image.system.bd
          image.system.out in
      (ok, record image { system = record image.system { mem = mem; bd = bd; out = out } })

  -- `inode_map` is what the stack holds where the function has its array.
  unfoldable write_export : List ℕ → Image Disk C → Bool × Image Disk C
  unfolding export_table_write inodes_from
  write_export inode_map image =
      let (ok, mem, place, out) =
        export_table_write dst image.system.mem inode_map (inodes_from image 0 image.count)
          image.system.out in
      let written = record image {
        export_table = place;
        system = record image.system { mem = mem; out = out };
      } in
      if image.options.exportable then (ok, written) else (true, image)

  unfoldable write_ids : Image Disk C → Bool × Image Disk C
  unfolding idtable_write
  write_ids image =
      let (ok, mem, tab, out) = idtable_write dst image.system.mem image.idtable image.system.out in
      (ok, record image { idtable = tab; system = record image.system { mem = mem; out = out } })

  unfoldable write_xattrs : Image Disk C → Bool × Image Disk C
  unfolding table_write
  write_xattrs image =
      let (ok, tab, out) = table_write dst image.xattr_table image.system.out in
      (ok, with_out (record image { xattr_table = tab }) out)

  -- libsqfs_image_write_compressor_options
  unfoldable write_compressor_options : Image Disk C → Bool × Image Disk C
  write_compressor_options image = elim image.compressor_option_data [
    | none ↦ (true, image)
    | some bytes ↦
        let out = image.system.out in
        let place = image.compressor_option_data_loc in
        let size = bit_or (length bytes) compressed_bit % 2 ^ 16 in
        let (count, disk) = dst.pwrite out.disk (le16 size) place in
        let (count', disk') = dst.pwrite disk bytes ((place + 2) % off_mod) in
        if is_count count 2
        then (is_count count' (length bytes), with_out image (record out { disk = disk' }))
        else (false, with_out image (record out { disk = disk }))
  ]

  unfoldable pub write_super : ℕ → Image Disk C → Bool × Image Disk C
  unfolding write_superblock summary
  write_super r image =
      let (ok, disk) = write_superblock dst (summary image r) image.system.out.disk in
      (ok, with_out image (record image.system.out { disk = disk }))

  -- All that is written behind the data, but for the superblock.
  unfoldable pub write_tables : List ℕ → Image Disk C → Bool × Image Disk C
  unfolding write_inode_table write_dir_table write_fragments write_export write_ids write_xattrs
      write_compressor_options
  write_tables inode_map image =
      let inodes = write_inode_table image in
      let directories = also inodes write_dir_table in
      let fragments = also directories write_fragments in
      let exported = also fragments (write_export inode_map) in
      let ids = also exported write_ids in
      let xattrs = also ids write_xattrs in also xattrs write_compressor_options

  -- The padding, and the state that is returned; where the padding fails, that is `libsqfs_image_building`, as which
  -- `false` is read.
  unfoldable pub pad : Image Disk C → ImageState × Image Disk C
  pad image =
      let out = image.system.out in
      let padded_size = (out.size + 4095) % off_mod / 4096 * 4096 in
      let (ok, disk) = dst.truncate out.disk padded_size in
      let padded = with_out image (record out { disk = disk }) in
      let finished = record image { state = ImageState.finalized } in
      if image.options.padding
      then (if padded_size == out.size
          then (ImageState.finalized, finished)
          else if ok
          then (ImageState.finalized, record padded { state = ImageState.finalized })
          else (ImageState.building, padded))
      else (ImageState.finalized, finished)

  -- The end of `libsqfs_image_finalize`.
  unfoldable pub conclude : Bool × Image Disk C → ImageState × Image Disk C
  unfolding pad flag_fatal
  conclude (true, image) = pad image
  conclude (false, image) = (ImageState.fatal_error, flag_fatal image)

  -- `libsqfs_bulkdata_finish`, which returns true in any case; an abort of the work has flagged a fatal error. `none`
  -- is a call that does not return.
  unfoldable pub finish_data : ℕ → Image Disk C → Option (Image Disk C)
  unfolding finish
  finish_data fuel image =
      let (exit, s) = finish dst image.compressor image.options.block_size fuel image.system in
      let state = if s.bd.aborted then ImageState.fatal_error else image.state in
      elim exit [
        | Exit.ended ↦ some (record image { system = s; state = state })
        | Exit.waits ↦ none
        | Exit.out_of_fuel ↦ none
      ]

  -- From the root on; the result of `libsqfs_inode_serialize` is dropped.
  unfoldable pub finish_tables : ℕ → List ℕ → ℕ → Image Disk C → Option (ImageState × Image Disk C)
  unfolding inode_serialize write_tables write_super conclude
  finish_tables depth inode_map r image = elim (inode_serialize depth image r) [
    | none ↦ none
    | some (ok, image') ↦ some (conclude (also (write_tables inode_map image') (write_super r)))
  ]

  unfoldable pub finish_sealed :
      (rounds depth : ℕ) → List ℕ → ℕ → Image Disk C → Option (ImageState × Image Disk C)
  unfolding seal finish_data finish_tables
  finish_sealed rounds depth inode_map r image =
      let (sealed, s) = seal image.system in
      let image' = record image { system = s } in
      if sealed
      then elim (finish_data rounds image') [
        | none ↦ none
        | some image'' ↦ finish_tables depth inode_map r image''
      ]
      else some (conclude (false, image'))

  -- libsqfs_image_finalize; `rounds` bounds the rounds of the work on data, `depth` the depth of the tree.
  unfoldable pub finalize :
      (rounds depth : ℕ) → List ℕ → Image Disk C → Option (ImageState × Image Disk C)
  unfolding finish_sealed flag_fatal
  finalize rounds depth inode_map image =
      if is_building image.state
      then elim image.root [
        | none ↦ some (conclude (false, flag_fatal image))
        | some r ↦ finish_sealed rounds depth inode_map r image
      ]
      else some (image.state, image)
