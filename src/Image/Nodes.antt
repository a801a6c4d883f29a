-- ===== src/Image/Nodes.antt =====
-- The constructors of inodes and the entries of directories (src/special.c, src/regular.c, src/directory.c).
use libsqfs.Prelude.{ℕ, Bool, true, false, Option, none, some, List, [], ◌==◌, ◌||◌, if◌then◌else◌}
use libsqfs.Memory.{malloc}
use libsqfs.DataSource.Defs.{Data}
use libsqfs.Directory.Entries.{DirEntry, insert_entry}
use libsqfs.Directory.Table.{Directory}
use libsqfs.Inode.Defs.{InodeAttr}
use libsqfs.Inode.Special.{Device}
use libsqfs.Inode.Pieces.{cut, block_pieces, tail_pieces, submit_blocks, submit_tail}
use libsqfs.Image.Defs.{Image, Content, add_inode, add_link, set_content}

-- The entries are none yet. What the members hold that are set when the directory is encoded is never read.
abbrev empty_directory : Directory
empty_directory = record {
  entries = [];
  first_indexed = [];
  indexed_count = 0;
  encoded_entries_size = 0;
  dir_table_entry = record { block = 0; offset = 0 };
}

abbrev new_entry : List ℕ → ℕ → DirEntry
new_entry name inode = record {
  name = name;
  inode = inode;
  serialno = 0;
  offset = 0;
  directory_table_entry = record { block = 0; offset = 0 };
  encoded_data = [];
  encoded_size = 0;
}

-- An entry more in the directory `parent`, which is one by its type in C.
unfoldable pub insert_in : Content → DirEntry → Content
unfolding insert_entry
insert_in (Content.folder dir parent) entry =
    Content.folder (record dir { entries = insert_entry entry dir.entries }) parent
insert_in (Content.symlink name) entry = Content.symlink name
insert_in (Content.device d) entry = Content.device d
insert_in Content.fifo entry = Content.fifo
insert_in (Content.regular size sparse blocks tail) entry = Content.regular size sparse blocks tail

module _ {Disk C : Type 0} where
  -- A call of `malloc` or `strdup`.
  abbrev allocate : Image Disk C → Bool × Image Disk C
  allocate image =
      let (got, mem) = malloc image.system.mem in
      (got, record image { system = record image.system { mem = mem } })

  -- The end of a constructor: the new inode, where the last allocation gave storage.
  unfoldable pub create : Image Disk C → InodeAttr → Content → Option ℕ × Image Disk C
  unfolding add_inode
  create image attr content =
      let (got, image') = allocate image in
      if got then (some image.count, add_inode image' attr content) else (none, image')

  -- libsqfs_symlink_inode_create
  unfoldable symlink_create : Image Disk C → InodeAttr → List ℕ → Option ℕ × Image Disk C
  unfolding create
  symlink_create image attr name =
      let (got, image') = allocate image in
      if got then create image' attr (Content.symlink name) else (none, image')

  -- libsqfs_device_inode_create
  unfoldable device_create : Image Disk C → InodeAttr → Device → Option ℕ × Image Disk C
  unfolding create
  device_create image attr d =
      if d.type == b'c' || d.type == b'b'
      then create image attr (Content.device d)
      else (none, image)

  -- libsqfs_fifo_inode_create
  unfoldable pub fifo_create : Image Disk C → InodeAttr → Option ℕ × Image Disk C
  unfolding create
  fifo_create image attr = create image attr Content.fifo

  -- libsqfs_directory_inode_create
  unfoldable pub directory_create : Image Disk C → InodeAttr → Option ℕ × Image Disk C
  unfolding create
  directory_create image attr = create image attr (Content.folder empty_directory none)

  -- libsqfs_regular_inode_create of a file of `file_size` bytes. The inode stays in the list where a block or
  -- the tail could not be submitted.
  unfoldable regular_create_sized :
      Image Disk C → InodeAttr → Data → (file_size : ℕ) → Option ℕ × Image Disk C
  unfolding cut block_pieces submit_blocks submit_tail add_inode
  regular_create_sized image attr source file_size =
      let block_size = image.options.block_size in
      let (nblocks, tail_size) = cut image.options.fragments block_size file_size in
      let (got, image') = allocate image in
      let (got_blocks, image'') = allocate image' in
      let (blocks_ok, system, blocks) =
        submit_blocks image''.system (block_pieces source block_size file_size 0 nblocks) in
      let (tail_ok, system', tail) = submit_tail system (tail_pieces source file_size tail_size) in
      let added = add_inode image'' attr (Content.regular file_size 0 blocks tail) in
      if got
      then (if got_blocks
          then (if blocks_ok
              then ((if tail_ok then some image.count else none), record added { system = system' })
              else (none, record added { system = system }))
          else (none, image''))
      else (none, image')

  unfoldable regular_create : Image Disk C → InodeAttr → Data → Option ℕ × Image Disk C
  unfolding regular_create_sized
  regular_create image attr source = elim source.get_size [
    | none ↦ (none, image)
    | some file_size ↦ regular_create_sized image attr source file_size
  ]

  -- The first lines of `libsqfs_directory_add_entry`: the parent of a directory is noted, where it has none.
  unfoldable pub adopt : Image Disk C → (parent inode : ℕ) → Option (Image Disk C)
  adopt image parent inode = elim (image.content inode) [
    | Content.symlink name ↦ some image
    | Content.device d ↦ some image
    | Content.fifo ↦ some image
    | Content.regular size sparse blocks tail ↦ some image
    | Content.folder dir none ↦
        some (add_link (set_content image inode (Content.folder dir (some parent))) parent)
    | Content.folder dir (some other) ↦ none
  ]

  -- libsqfs_directory_add_entry. The parent stays noted where the entry gets no storage.
  unfoldable pub add_entry :
      Image Disk C → (parent : ℕ) → (name : List ℕ) → (inode : ℕ) → Bool × Image Disk C
  unfolding adopt insert_in
  add_entry image parent name inode = elim (adopt image parent inode) [
    | none ↦ (false, image)
    | some adopted ↦
        let (got, image') = allocate adopted in
        let (got_name, image'') = allocate image' in
        let linked = add_link image'' inode in
        let added =
          set_content linked parent (insert_in (linked.content parent) (new_entry name inode)) in
        if got then (if got_name then (true, added) else (false, image'')) else (false, image')
  ]
