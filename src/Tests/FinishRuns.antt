-- ===== src/Tests/FinishRuns.antt =====
-- A small image, from its inodes to the superblock (src/image.c).
use libsqfs.Prelude.{
  ℕ, ◌^◌, ◌<◌, ◌≡◌, refl, Bool, true, false, Option, none, some, [], ◌∷◌, ◌&&◌, ltb, arith,
}
use libsqfs.Prelude.Bytes.{le_bytes}
use libsqfs.Prelude.Fields.{Fields}
use libsqfs.Bulkdata.Defs.{bulkdata_init}
use libsqfs.Bulkdata.System.{submit}
use libsqfs.DataSource.Defs.{Piece}
use libsqfs.Metatable.Defs as Metatable
use libsqfs.Metatable.Write.{write_blocks, write_index}
use libsqfs.IdTable.Defs as IdTable
use libsqfs.Xattrs.Defs as Xattrs
use libsqfs.Image.Defs.{Image, ImageState, set_root, add_inode}
use libsqfs.Image.Nodes.{create, directory_create, fifo_create, add_entry, adopt, insert_in}
use libsqfs.Image.Finalize.{finalize}
use libsqfs.Tests.Storage.{Storage, storage}
use libsqfs.Tests.ImageRuns.{tree, height, tree_ranked}
use libsqfs.Tests.Storage.{blank}
use libsqfs.Bulkdata.Run.{start, Reach}
use libsqfs.Bulkdata.System.{seal}
use libsqfs.Bulkdata.Order.Measure.{work_left}
use libsqfs.Bulkdata.Order.Taken.{IsIdle}
use libsqfs.Image.Recursion.{IsRanked}
use libsqfs.Image.Returns.{finalize-returns}

-- The tree, with its root set, and without padding.
abbrev rooted : Image Storage ℕ
rooted =
    let image = (set_root tree 0).1 in
    record image { options = record image.options { padding = false } }

abbrev finished : Option (ImageState × Image Storage ℕ)
finished = finalize storage 60 3 [] rooted

abbrev image_of : Option (ImageState × Image Storage ℕ) → Image Storage ℕ
image_of none = rooted
image_of (some r) = r.1

abbrev state_of : Option (ImageState × Image Storage ℕ) → ImageState
state_of none = ImageState.building
state_of (some r) = r.0

unfoldable runs : ℕ
unfolding directory_create fifo_create add_entry adopt insert_in create add_inode
    libsqfs.Inode.Defs.inode_init set_root finalize storage le_bytes bulkdata_init Metatable.init
    write_blocks write_index IdTable.init Xattrs.init
runs = 0

-- Whether the values fit their fields.
fits : Fields → Bool
fits [] = true
fits (f ∷ fs) = ltb f.1 (256 ^ f.0) && fits fs

rooted_root : rooted.root ≡ some 0
unfolding runs
rooted_root = refl

rooted_state : rooted.state ≡ ImageState.building
unfolding runs
rooted_state = refl

-- A file whose data cannot be read: the work is aborted, and the image is finished all the same.
abbrev unreadable : Piece
unreadable = record {
  data_source = record { get_size = some 4; pread = λ size offset. none };
  offset = 0;
  size = 4;
}

abbrev broken : Image Storage ℕ
broken = record rooted { system = submit rooted.system unreadable }

broken_aborts : (image_of (finalize storage 60 3 [] broken)).system.bd.aborted ≡ true
unfolding runs submit
broken_aborts = refl

broken_finished : state_of (finalize storage 60 3 [] broken) ≡ ImageState.finalized
unfolding runs submit
broken_finished = refl

rooted-Reach :
    Reach storage rooted.compressor rooted.options.block_size
      (start true true blank rooted.system.mem)
      rooted.system
unfolding runs
rooted-Reach = Reach.here

rooted-IsIdle : IsIdle rooted.system
unfolding runs
rooted-IsIdle = record { no_reading = refl; no_compressing = refl; no_writing = refl }

rooted_works :
    (rooted.system.bd.aborted ≡ false) × (work_left (seal (seal rooted.system).1).1.bd < 60)
unfolding runs seal libsqfs.Bulkdata.Order.Measure.total
rooted_works = (refl, omega arith)

rooted_ranked : IsRanked height rooted
unfolding runs
rooted_ranked = tree_ranked

rooted_fresh : (j : ℕ) → (rooted.base j).encoded_type ≡ 0
unfolding runs
rooted_fresh j = ground arith

finalize-returns_example :
    (result : ImageState × Image Storage ℕ) × (finalize storage 60 3 [] rooted ≡ some result)
finalize-returns_example =
    finalize-returns storage true true blank rooted.system.mem height 60 3 [] 0 rooted rooted_state
      rooted_root rooted-Reach rooted_works.0 rooted-IsIdle rooted_works.1 rooted_ranked
      rooted_fresh (omega arith)
