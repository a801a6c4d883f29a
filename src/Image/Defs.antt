-- ===== src/Image/Defs.antt =====
-- An image with its inodes, and the errors it notes (src/internal.h, src/inodes.h, src/image.c).
use libsqfs.Prelude.{ℕ, ◌+◌, Bool, true, false, Option, none, some, List, if◌then◌else◌}
use libsqfs.Compressor.{Compressor}
use libsqfs.Xattrs.Defs.{XattrTable}
use libsqfs.Metatable.Defs.{Metatable}
use libsqfs.IdTable.Defs.{IdTable}
use libsqfs.Directory.Table.{Directory}
use libsqfs.Inode.Defs.{Inode, InodeAttr, inode_init}
use libsqfs.Inode.Special.{Device}
use libsqfs.Bulkdata.Defs.{update, bulkdata_abort}
use libsqfs.Bulkdata.System.{System}
use libsqfs.Image.Options.{ImageOptions}

-- libsqfs_image_state_t
pub data ImageState : Type 0 where
  building : ImageState
  finalized : ImageState
  fatal_error : ImageState

-- What an inode has behind its `base`, by its class. The blocks and the tail of a file are the numbers of their
-- chunks; the entries and the parent of a directory are numbers of inodes.
pub data Content : Type 0 where
  symlink : (name : List ℕ) → Content
  device : Device → Content
  fifo : Content
  regular : (file_size sparse_size : ℕ) → (blocks : List ℕ) → (tail_piece : Option ℕ) → Content
  folder : Directory → (parent : Option ℕ) → Content

-- The inodes are functions from their place in the list, which `count` of them have; a pointer to an inode is
-- that place. `system` has the members `bulkdata`, `dst` and `size`, and the allocator;
-- `export_table` is the offset of that table, and `compressor_id` the number of the compressor in the format.
pub record Image (Disk C : Type 0) : Type 0 where
  pub options : ImageOptions C
  pub state : ImageState
  pub base : ℕ → Inode
  pub content : ℕ → Content
  pub count : ℕ
  pub system : System Disk
  pub idtable : IdTable
  pub inode_table : Metatable
  pub dir_table : Metatable
  pub root : Option ℕ
  pub export_table : ℕ
  pub xattr_table : XattrTable
  pub compressor : Compressor
  pub compressor_id : ℕ
  pub compressor_option_data : Option (List ℕ)
  pub compressor_option_data_loc : ℕ
  pub creation_time : ℕ

abbrev pub is_building : ImageState → Bool
is_building ImageState.building = true
is_building ImageState.finalized = false
is_building ImageState.fatal_error = false

abbrev link : Inode → Inode
link inode = record inode { nlink = inode.nlink + 1 }

module _ {Disk C : Type 0} where
  -- libsqfs_image_flag_error and libsqfs_image_out_of_memory of a fatal error. The messages are left out, and with
  -- them all that an error does that is not fatal.
  unfoldable pub flag_fatal : Image Disk C → Image Disk C
  unfolding bulkdata_abort
  flag_fatal image = record image {
    state = ImageState.fatal_error;
    system = record image.system { bd = bulkdata_abort image.system.bd };
  }

  abbrev pub set_base : Image Disk C → ℕ → Inode → Image Disk C
  set_base image i inode = record image { base = update image.base i inode }

  abbrev pub set_content : Image Disk C → ℕ → Content → Image Disk C
  set_content image i content = record image { content = update image.content i content }

  -- A new inode at the end of the list.
  unfoldable pub add_inode : Image Disk C → InodeAttr → Content → Image Disk C
  unfolding inode_init
  add_inode image attr content = record image {
    base = update image.base image.count (inode_init image.count attr);
    content = update image.content image.count content;
    count = image.count + 1;
  }

  -- `nlink++`
  abbrev pub add_link : Image Disk C → ℕ → Image Disk C
  add_link image i = set_base image i (link (image.base i))

  -- libsqfs_image_set_root
  unfoldable pub set_root : Image Disk C → ℕ → Bool × Image Disk C
  set_root image i = elim image.root [
    | some r ↦ (false, image)
    | none ↦
        if is_building image.state
        then (true, add_link (record image { root = some i }) i)
        else (false, image)
  ]
