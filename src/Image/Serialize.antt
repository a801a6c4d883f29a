-- ===== src/Image/Serialize.antt =====
-- Serializing inodes, those of a directory's entries first (`libsqfs_inode_serialize` of src/inodes.c, and
-- the functions behind it).
use libsqfs.Prelude.{
  ℕ, zero, suc, ◌+◌, Bool, true, false, Option, none, some, List, [], ◌∷◌, map, ◌==◌, if◌then◌else◌,
}
use libsqfs.Memory.{Memory}
use libsqfs.Metatable.Defs.{Metatable}
use libsqfs.Directory.Entries.{DirEntry}
use libsqfs.Directory.Encode.{Target}
use libsqfs.Directory.Table.{Directory}
use libsqfs.Inode.Defs.{Inode}
use libsqfs.Inode.Special.{symlink_serialize, device_serialize, fifo_serialize}
use libsqfs.Inode.Regular.{StoredBlock, TailPiece, RegularFile, regular_serialize}
use libsqfs.Inode.Folder.{directory_finish}
use libsqfs.Bulkdata.Defs.{Bulkdata, ImageBlock}
use libsqfs.Bulkdata.Blocks.{index_or_zero}
use libsqfs.Image.Defs.{Image, Content, set_base, set_content}

-- The members that are read of the chunks of a file.
abbrev stored_block : ImageBlock → StoredBlock
stored_block dst = record { offset = dst.offset; size = dst.size; compressed = dst.compressed }

abbrev stored_tail : Bulkdata → Option ℕ → Option TailPiece
stored_tail bd none = none
stored_tail bd (some t) =
    some (record { index = index_or_zero (bd.fragment_block t); offset = bd.offset t })

unfoldable pub stored_file :
    Bulkdata → (file_size sparse_size : ℕ) → List ℕ → Option ℕ → RegularFile
stored_file bd file_size sparse_size blocks tail = record {
  file_size = file_size;
  sparse_size = sparse_size;
  blocks = map (λ b. stored_block (bd.dst b)) blocks;
  tail_piece = stored_tail bd tail;
}

module _ {Disk C : Type 0} where
  -- What the entries of a directory read of an inode.
  abbrev pub target_of : Image Disk C → ℕ → Target
  target_of image i = record {
    block = (image.base i).inode_table_entry.block;
    offset = (image.base i).inode_table_entry.offset;
    inode_number = (image.base i).inode_number;
    base_type = (image.base i).encoded_base_type;
  }

  -- The field `parent_inode`.
  abbrev pub parent_number : Image Disk C → Option ℕ → ℕ
  parent_number image none = image.count + 1
  parent_number image (some p) = (image.base p).inode_number

  -- What the storing of an inode changes.
  abbrev pub stored : Image Disk C → ℕ → Bool × Memory × Metatable × Inode → Bool × Image Disk C
  stored image i (ok, mem, tab, inode) = (
    ok,
    set_base (record image { system = record image.system { mem = mem }; inode_table = tab }) i
        inode,
  )

  -- The end of `libsqfs_directory_serialize`.
  unfoldable pub finish_directory : Image Disk C → ℕ → Directory → Option ℕ → Bool × Image Disk C
  unfolding directory_finish
  finish_directory image i dir parent =
      let (ok, mem, dir_table, inode_table, inode, dir') =
        directory_finish (target_of image) image.system.mem image.dir_table image.inode_table
          (image.base i) dir (parent_number image parent) in
      let (_, image') = stored image i (ok, mem, inode_table, inode) in
      (ok, set_content (record image' { dir_table = dir_table }) i (Content.folder dir' parent))

  -- The directory is read again behind the loop; it stays one.
  unfoldable pub finish_content : Image Disk C → ℕ → Content → Bool × Image Disk C
  unfolding finish_directory
  finish_content image i (Content.folder dir parent) = finish_directory image i dir parent
  finish_content image i (Content.symlink name) = (false, image)
  finish_content image i (Content.device d) = (false, image)
  finish_content image i Content.fifo = (false, image)
  finish_content image i (Content.regular size sparse blocks tail) = (false, image)

  -- What comes next, where a call ended with success; `none` is a model that has run out of fuel.
  abbrev pub and_then :
      Option (Bool × Image Disk C)
      → (Image Disk C → Option (Bool × Image Disk C))
      → Option (Bool × Image Disk C)
  and_then none next = none
  and_then (some (false, image)) next = some (false, image)
  and_then (some (true, image)) next = next image

  -- `while(entry)`, with `serialize` the recursive call.
  unfoldable pub serialize_entries :
      (Image Disk C → ℕ → Option (Bool × Image Disk C))
      → Image Disk C
      → List DirEntry
      → Option (Bool × Image Disk C)
  serialize_entries serialize image [] = some (true, image)
  serialize_entries serialize image (e ∷ es) =
      and_then (serialize image e.inode) (λ image'. serialize_entries serialize image' es)

  -- The function `serialize` of the class of inode `i`.
  unfoldable pub serialize_content :
      (Image Disk C → ℕ → Option (Bool × Image Disk C))
      → Image Disk C
      → ℕ
      → Content
      → Option (Bool × Image Disk C)
  unfolding symlink_serialize device_serialize fifo_serialize regular_serialize stored_file
      serialize_entries finish_content
  serialize_content serialize image i (Content.symlink name) =
      some
        (stored image i (symlink_serialize image.system.mem image.inode_table (image.base i) name))
  serialize_content serialize image i (Content.device d) =
      some (stored image i (device_serialize image.system.mem image.inode_table (image.base i) d))
  serialize_content serialize image i Content.fifo =
      some (stored image i (fifo_serialize image.system.mem image.inode_table (image.base i)))
  serialize_content serialize image i (Content.regular size sparse blocks tail) = some (
      stored image i (
        regular_serialize image.system.mem image.inode_table (image.base i)
          (stored_file image.system.bd size sparse blocks tail)))
  serialize_content serialize image i (Content.folder dir parent) =
      and_then (serialize_entries serialize image dir.entries)
        (λ image'. some (finish_content image' i (image'.content i)))

  -- libsqfs_inode_serialize
  unfoldable pub inode_serialize : ℕ → Image Disk C → ℕ → Option (Bool × Image Disk C)
  unfolding serialize_content
  inode_serialize zero image i = none
  inode_serialize (suc fuel) image i =
      if (image.base i).encoded_type == 0
      then serialize_content (inode_serialize fuel) image i (image.content i)
      else some (true, image)
