-- ===== src/Directory/Table.antt =====
-- `libsqfs_directory_encode` as a whole (src/directory.c): the entries are coded, and their bytes
-- appended to the directory table. The second half, and what the inode notes of it.
use libsqfs.Prelude.{ℕ, ◌+◌, Bool, true, false, List, [], ◌∷◌, ◌++◌, if◌then◌else◌}
use libsqfs.Memory.{Memory}
use libsqfs.Metatable.Defs.{Metatable, Entry, position, append}
use libsqfs.Directory.Entries.{DirEntry}
use libsqfs.Directory.Encode.{Target, new_encoder, encode_entries, finish_groups}

-- What a `libsqfs_directory_inode` has beside its `base` and `parent`. `first_indexed` is the chain of
-- indexed entries, each named by its serial number.
pub record Directory : Type 0 where
  pub entries : List DirEntry
  pub first_indexed : List ℕ
  pub indexed_count : ℕ
  pub encoded_entries_size : ℕ
  pub dir_table_entry : Entry

-- `while (entry)` of the second half: the bytes go to the table, and each entry notes where.
unfoldable pub append_entries :
    Memory → Metatable → List DirEntry → Bool × Memory × Metatable × List DirEntry
unfolding append position
append_entries mem tab [] = (true, mem, tab, [])
append_entries mem tab (e ∷ es) =
    let (ok, mem', tab') = append mem tab e.encoded_data in
    let there = record e { directory_table_entry = position tab } in
    let (ok', mem'', tab'', rest) = append_entries mem' tab' es in
    if ok
    then (ok', mem'', tab'', record there { encoded_data = [] } ∷ rest)
    else (false, mem', tab', there ∷ es)

-- The place of the listing: that of its first entry once stored, else zero.
unfoldable pub first_place : Memory → Metatable → List DirEntry → Entry
unfolding append position
first_place mem tab [] = record { block = 0; offset = 0 }
first_place mem tab (e ∷ es) =
    if (append mem tab e.encoded_data).0 then position tab else record { block = 0; offset = 0 }

-- `targets` are the inodes, which have been serialized before. The chain of indexed entries is empty
-- before, as an inode is serialized once.
unfoldable pub directory_encode :
    (ℕ → Target) → Memory → Metatable → Directory → Bool × Memory × Metatable × Directory
unfolding encode_entries finish_groups append_entries first_place
directory_encode target mem tab dir =
    let (coded, mem', st, left) = encode_entries target mem new_encoder dir.entries in
    let count = dir.indexed_count + st.indexed_count in
    let stopped = record dir {
      entries = st.finished ++ (st.group ++ left);
      first_indexed = st.indexed;
      indexed_count = count;
    } in
    let (ok, mem'', tab', entries) = append_entries mem' tab (finish_groups st) in
    if coded
    then (
      ok,
      mem'',
      tab',
      record stopped {
        entries = entries;
        encoded_entries_size = st.offset;
        dir_table_entry = first_place mem' tab (finish_groups st);
      },
    )
    else (false, mem', tab, stopped)
