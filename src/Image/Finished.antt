-- ===== src/Image/Finished.antt =====
-- What a reader finds in the superblock of a finished image (`libsqfs_image_finalize`, src/image.c).
use libsqfs.Prelude.{ℕ, ◌≡◌, List}
use libsqfs.Prelude.Fields.{read_fields, widths, values}
use libsqfs.Output.{Destination, IsFile}
use libsqfs.Superblock.Defs.{superblock, superblock_size}
use libsqfs.Image.Defs.{Image}
use libsqfs.Image.Finalize.{summary}

module _ {Disk C : Type 0} (dst : Destination Disk) where
  module _ (read : Disk → ℕ → ℕ → List ℕ) (file : IsFile dst read) (r : ℕ) where
    -- A reader of the superblock finds what the image has.
    abbrev pub HasSuperblock : Image Disk C → Type 0
    HasSuperblock image =
        read_fields (widths (superblock (summary image r)))
          (read image.system.out.disk 0 superblock_size)
        ≡ values (superblock (summary image r))
