-- ===== src/Inode/Folder.antt =====
-- The inode of a directory (`libsqfs_directory_inode_encode` and `libsqfs_directory_serialize`,
-- src/directory.c).
use libsqfs.Prelude.{
  ℕ, ◌+◌, ◌-◌, Bool, true, false, none, some, List, [], ◌∷◌, ◌++◌, ◌==◌, ◌||◌, not, ltb, length,
  get_elem?, if◌then◌else◌,
}
use libsqfs.Prelude.Fields.{Fields, encode_fields}
use libsqfs.Memory.{Memory}
use libsqfs.Metatable.Defs.{Metatable, append}
use libsqfs.Directory.Entries.{DirEntry}
use libsqfs.Directory.Encode.{Target, sub_size}
use libsqfs.Directory.Table.{Directory, directory_encode}
use libsqfs.Directory.Index.{prune_index}
use libsqfs.Inode.Defs.{
  Inode, common_fields, xattr_field, has_xattrs, store_header, dir_type, ldir_type,
}

-- `squashfs_dir_inode_header` and `squashfs_ldir_inode_header`; `parent` is the field `parent_inode`.
abbrev dir_fields : Inode → Directory → ℕ → Fields
dir_fields inode dir parent =
    common_fields inode
    ++ ((4, dir.dir_table_entry.block)
        ∷ (4, inode.nlink)
        ∷ (2, dir.encoded_entries_size + 3)
        ∷ (2, dir.dir_table_entry.offset)
        ∷ (4, parent)
        ∷ [])

abbrev pub ldir_fields : Inode → Directory → ℕ → Fields
ldir_fields inode dir parent =
    common_fields inode
    ++ ((4, inode.nlink)
        ∷ (4, dir.encoded_entries_size + 3)
        ∷ (4, dir.dir_table_entry.block)
        ∷ (4, parent)
        ∷ (2, dir.indexed_count)
        ∷ (2, dir.dir_table_entry.offset)
        ∷ (4, xattr_field inode.attr.xattrset)
        ∷ [])

-- A `squashfs_dir_index`.
abbrev pub index_fields : DirEntry → Fields
index_fields e =
    (4, e.offset) ∷ (4, e.directory_table_entry.block) ∷ (4, sub_size (length e.name) 1) ∷ []

-- The entries that the chain of indexed entries leads to. An entry stands at its serial number.
unfoldable pub chain : List DirEntry → List ℕ → List DirEntry
chain entries [] = []
chain entries (n ∷ ns) =
    let rest = chain entries ns in elim (get_elem? entries n) [ none ↦ [] | some e ↦ e ∷ rest ]

-- `while(entry)` over the chain.
unfoldable pub append_index : Memory → Metatable → List DirEntry → Bool × Memory × Metatable
unfolding append encode_fields
append_index mem tab [] = (true, mem, tab)
append_index mem tab (e ∷ es) =
    let (ok, mem', tab') = append mem tab (encode_fields (index_fields e)) in
    let (ok', mem'', tab'') = append mem' tab' e.name in
    let rest = append_index mem'' tab'' es in
    if ok then (if ok' then rest else (false, mem'', tab'')) else (false, mem', tab')

-- libsqfs_directory_inode_encode
unfoldable pub directory_inode_encode :
    Memory → Metatable → Inode → Directory → ℕ → Bool × Memory × Metatable × Inode
unfolding store_header append_index chain
directory_inode_encode mem tab inode dir parent =
    let (ok, mem', tab', stored) = store_header mem tab inode (ldir_fields inode dir parent) in
    let (ok', mem'', tab'') = append_index mem' tab' (chain dir.entries dir.first_indexed) in
    if inode.encoded_type == dir_type
    then store_header mem tab inode (dir_fields inode dir parent)
    else if ok
    then (ok', mem'', tab'', stored)
    else (false, mem', tab', stored)

-- The smallest type that holds the directory.
unfoldable pub directory_type : Inode → Directory → ℕ
directory_type inode dir =
    if not (dir.indexed_count == 0)
      || (ltb (65535 - 3) dir.encoded_entries_size || has_xattrs inode.attr.xattrset)
    then ldir_type
    else dir_type

-- libsqfs_directory_serialize, when the inodes of all entries are serialized.
unfoldable pub directory_finish :
    (ℕ → Target)
    → Memory
    → (dir_table inode_table : Metatable) → Inode
    → Directory
    → ℕ
    → Bool × Memory × Metatable × Metatable × Inode × Directory
unfolding directory_encode prune_index directory_type directory_inode_encode
directory_finish target mem dir_table inode_table inode dir parent =
    let (ok, mem', dir_table', dir') = directory_encode target mem dir_table dir in
    let pruned = prune_index dir' in
    let typed = record inode {
      encoded_type = directory_type inode pruned;
      encoded_base_type = dir_type;
    } in
    let (ok', mem'', inode_table', stored) =
      directory_inode_encode mem' inode_table typed pruned parent in
    if ok
    then (ok', mem'', dir_table', inode_table', stored, pruned)
    else (false, mem', dir_table', inode_table, inode, dir')
