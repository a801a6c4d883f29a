-- ===== src/Lib.antt =====
-- libsqfs writes SquashFS images. This library models the parts of it that decide what stands in an
-- image, and shows that a reader of the image gets back what was put in.
--
-- The parts and how they interact. An image (src/image.c) owns a destination (src/destination.c) and
-- tables. A metadata table (src/metatable.c) collects bytes in blocks of 8192, compresses each block
-- where that makes it smaller, and is written out at the end, with an index of its blocks or without.
-- Directories (src/directory.c) keep entries sorted by name; when the image is finished, each directory
-- codes its entries in groups that share a header, appends them to the directory table, and keeps a
-- thinned index of them. User and group ids (src/idtable.c) get small numbers, and their array is
-- written as a metadata table with an index. Inodes (src/inodes.c, src/special.c, src/regular.c) are
-- stored in the inode table as structures that depend on their type, and a directory's entries refer to them.
-- The contents of files come from data sources (src/datasource.c), piece by piece: full blocks and the tails
-- of files become chunks, which several worker threads read, compress and write, in an order that does not
-- depend on the threads (src/bulkdata.c). Extended attributes (src/xattrs.c) are collected in sets, which
-- two metadata tables hold.
--
-- The files. Memory: `malloc`, `realloc` and `strdup`, each call of which may return NULL. Output:
-- the destination's functions and `libsqfs_image_reserve`. Compressor: the functions of a compressor
-- instance (src/compressor.c). Metatable: Defs has the structures of src/metatable.h and
-- `libsqfs_metatable_init`, `_flush`, `_getblock` and `_append`, Write has `_write` and
-- `_write_with_index`; Invariant, Rounds, Stream and Append are the proofs about a table in memory, OnDisk
-- about the written file, Reader, Index and Array about a reader of it. Directory: Entries has
-- the list's insertion and lookup, Encode the first loop of `libsqfs_directory_encode` with
-- `need_new_dir_header`, Table the second loop and the function as a whole, Index
-- `libsqfs_directory_inode_prune_index`; Sorted, Groups, Limits, Size, Decode, Roundtrip,
-- Listing, Stored and Readback are the proofs, Decode with a reader of listings. IdTable: Defs has
-- the functions of src/idtable.c, Mapping, Stable and Stored the proofs. Inode: Defs has
-- `libsqfs_inode_init` and the store of a structure, Attr the creation of attributes, Special the three `serialize` functions of
-- src/special.c, Folder `libsqfs_directory_inode_encode` and `libsqfs_directory_serialize` behind its
-- recursion, Regular `libsqfs_regular_inode_serialize`, Pieces how `libsqfs_regular_inode_create` cuts a file, with Covers about that; Reader is a reader of the inode table, and
-- DeviceNumber, SpecialStore, SpecialReads, FileStore, FileReads, IndexReads, FolderStore and FolderReads
-- are the proofs.
-- Bulkdata: Defs has the structures of src/bulkdata.h with `libsqfs_bulkdata_init`, `_abort` and the queueing of a
-- chunk, Work the functions that deduplicate, assign and finish a chunk, Blocks those that compress and write a
-- block, System the workers with `libsqfs_bulkdata_process_single_locked` and what clients call, Run the steps of
-- all threads, Process the loops of `libsqfs_bulkdata_process` and `_finish`, Fragments.Table
-- `libsqfs_bulkdata_write_fragment_table`. Order has the proofs about the order of the work: Defs the invariant, Queue,
-- Pieces, Enqueue, Writes, Ends, Begins and Steps its preservation, Progress that work is found, Measure, Taken, Assigning,
-- Ending, Jobs, Leaving and Finish the end of the loop. Fragments.Stored is about a reader of the fragment table.
-- Xattrs: Defs has the structures of src/xattrs.h with `libsqfs_xattr_create` and `libsqfs_xattrset_create`, Table
-- `libsqfs_xattr_table_write`; Decode is a reader of attributes, Stored, Sets and Written are the proofs.
-- DataSource: Defs has the reads of src/datasource.c, Slices, Compound and Reads the proofs. Export:
-- `libsqfs_export_table_write` and, in Stored, what a reader finds. Superblock: `libsqfs_write_superblock`
-- and, in Reads, what a reader finds. Image: Options has the options of src/image.c with their setters, BlockSize is about the block size, Defs has the image with its inodes
-- and `libsqfs_image_set_root`, Nodes the constructors of inodes and `libsqfs_directory_add_entry`, Serialize
-- `libsqfs_inode_serialize` with the serialize functions of all classes; Types, Visits, Recursion and Reached are about that
-- recursion; Finalize has `libsqfs_image_finalize`, Finished what a reader finds then, and Returns
-- that it returns. Tests: runs at small inputs.
--
-- How the model is made. A struct is a record, a linked list is a list, and a function that changes an
-- object returns the new object. A function that can fail returns a Boolean or an Option as its first
-- component. Integers are natural numbers; where the C type wraps within the reach of the code, the wrap
-- is written out: `libsqfs_off_t` (64 bits), `unsigned int` (32 bits), `size_t` subtraction. A count that
-- is bounded by the objects in memory (the size of a list) does not wrap. Bytes are numbers, and names are
-- lists of bytes without the terminating zero. What `free` does is not modelled.
--
-- Threads. The members of a chunk are functions from its number, so that chunks are shared by number. What a
-- thread does under the lock is one step; where it gives up the lock in between, as reading, compressing and writing do,
-- it takes two steps, and a chunk stands in a list of begun work from the first to the second. Step
-- lets the client and any number of workers take such steps in any order, and Reach is the states that follow. A wait on the
-- condition is not a step, and spurious wake-ups are covered by a worker that looks for work again. A
-- fatal error aborts all work, as `libsqfs_image_flag_error` does.
--
-- What stands outside. The codecs are third-party: a compressor is a record of functions, and IsCodec
-- states that expanding what it returns gives the input back. The file behind a destination is the
-- operating system's: IsFile states that a read returns what was written. Which allocations fail is the
-- argument `grant` of Memory.
--
-- Fuel. `append` runs as many rounds as there are bytes, which is enough as each round stores a byte at
-- least; Append.append-plentiful shows that it then returns. The readers are specifications of our own:
-- `decode` takes the length of the image as fuel and consumes a header in each step, `decode_listing` takes
-- the length of the listing. `process` takes the number of rounds; Order.Finish shows that the work left, which counts
-- the states that chunks have before them and the queues, is enough. `inode_serialize` takes a bound on the depth of the
-- directory tree, which Image.Reached shows to be enough; `count_shifts` takes the 64 bits of a size. `finalize` takes both
-- bounds, `rounds` and `depth`; Image.Returns shows which are enough.
--
-- Not modelled: data sources that are files (src/datasource.c), creating an image
-- (src/image.c), and the messages of errors; the assertions of src/bulkdata.c, and a failure of the
-- allocation in `libsqfs_image_block_compress`, which the code does not test; the codec glue (src/compressor_*.c)
-- and the threads (src/threadpool.c), which call third-party code and the operating system.
mod Prelude
pub mod Memory
pub mod Compressor
pub mod Output
pub mod Metatable
pub mod Directory
pub mod IdTable
pub mod Inode
pub mod DataSource
pub mod Bulkdata
pub mod Export
pub mod Image
pub mod Xattrs
pub mod Superblock
mod Tests
