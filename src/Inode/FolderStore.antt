-- ===== src/Inode/FolderStore.antt =====
-- Which structure is stored for a directory (src/directory.c).
use libsqfs.Prelude.{
  ℕ, ◌+◌, ◌^◌, ◌<◌, ◌≡◌, ◌⊎◌, inl, inr, refl, true, false, none, [], ◌∷◌, ◌++◌, ◌==◌, Bool-cases,
  Option-cases, arith,
}
use libsqfs.Prelude.Fields.{Fields}
use libsqfs.Memory.{Memory}
use libsqfs.Metatable.Defs.{Metatable}
use libsqfs.Directory.Table.{Directory}
use libsqfs.Inode.Defs.{Inode, store_header, common_fields, xattr_field, dir_type, ldir_type}
use libsqfs.Inode.Folder.{chain, append_index, directory_inode_encode, directory_type}

-- What the fields of the extended structure have to hold; `parent` is the field `parent_inode`.
pub record FolderFits (dir : Directory) (parent : ℕ) : Type 0 where
  pub block_fits : dir.dir_table_entry.block < 2 ^ 32
  pub offset_fits : dir.dir_table_entry.offset < 2 ^ 16
  pub size_fits : dir.encoded_entries_size + 3 < 2 ^ 32
  pub count_fits : dir.indexed_count < 2 ^ 16
  pub parent_fits : parent < 2 ^ 32

-- The fields behind the common ones, in the two structures.
abbrev pub dir_own : Inode → Directory → ℕ → Fields
dir_own inode dir parent =
    (4, dir.dir_table_entry.block)
    ∷ (4, inode.nlink)
    ∷ (2, dir.encoded_entries_size + 3)
    ∷ (2, dir.dir_table_entry.offset)
    ∷ (4, parent)
    ∷ []

abbrev pub ldir_own : Inode → Directory → ℕ → Fields
ldir_own inode dir parent =
    (4, inode.nlink)
    ∷ (4, dir.encoded_entries_size + 3)
    ∷ (4, dir.dir_table_entry.block)
    ∷ (4, parent)
    ∷ (2, dir.indexed_count)
    ∷ (2, dir.dir_table_entry.offset)
    ∷ (4, xattr_field inode.attr.xattrset)
    ∷ []

-- The shorter structure is chosen only where its fields hold what there is, and nothing is lost.
pub directory_type-cases :
    (inode : Inode) (dir : Directory)
    → ((directory_type inode dir ≡ dir_type)
        × (dir.encoded_entries_size + 3 < 2 ^ 16)
        × (dir.indexed_count ≡ 0)
        × (inode.attr.xattrset ≡ none))
      ⊎ (directory_type inode dir ≡ ldir_type)
unfolding directory_type
directory_type-cases inode dir = elim (Option-cases inode.attr.xattrset) [
  | inl e ↦ ground (arith, e)
  | inr (id, e) ↦ ground (arith, e)
]

pub short_encode :
    (mem : Memory) (tab : Metatable) (inode : Inode) (dir : Directory) (parent : ℕ)
    → inode.encoded_type ≡ dir_type
    → directory_inode_encode mem tab inode dir parent
      ≡ store_header mem tab inode (common_fields inode ++ dir_own inode dir parent)
unfolding directory_inode_encode
short_encode mem tab inode dir parent e =
    let short : (inode.encoded_type == dir_type) ≡ true = ground (arith, e) in rw short refl

pub long_encode :
    (mem : Memory) (tab : Metatable) (inode : Inode) (dir : Directory) (parent : ℕ)
    → inode.encoded_type ≡ ldir_type
    → (directory_inode_encode mem tab inode dir parent).0 ≡ true
    → let (ok, mem', tab', stored) =
        store_header mem tab inode (common_fields inode ++ ldir_own inode dir parent) in
      let (ok', mem'', tab'') = append_index mem' tab' (chain dir.entries dir.first_indexed) in
      (ok ≡ true)
      × (ok' ≡ true)
      × ((directory_inode_encode mem tab inode dir parent).2 ≡ tab'')
      × ((directory_inode_encode mem tab inode dir parent).3 ≡ stored)
unfolding directory_inode_encode
long_encode mem tab inode dir parent e done =
    let long : (inode.encoded_type == dir_type) ≡ false = ground (arith, e) in
    elim (Bool-cases
      (store_header mem tab inode (common_fields inode ++ ldir_own inode dir parent)).0) [
        | inr failed ↦ absurd (ground (arith, rw (long, failed) at done))
        | inl ok ↦ (ok, rw (long, ok) at done, rw (long, ok) refl, rw (long, ok) refl)
      ]
