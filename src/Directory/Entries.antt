-- ===== src/Directory/Entries.antt =====
-- The entries of a directory, in the order of their names: insertion and lookup (src/directory.c).
use Prim.Native.Nat.{compare, Ordering}
use libsqfs.Prelude.{ℕ, Bool, true, false, Option, none, some, List, [], ◌∷◌, if◌then◌else◌}
use libsqfs.Metatable.Defs.{Entry}

-- `inode` is the place of the inode in the image's list. `encoded_data` is NULL outside
-- `libsqfs_directory_encode`, which is the empty list here.
pub record DirEntry : Type 0 where
  pub name : List ℕ
  pub inode : ℕ
  pub serialno : ℕ
  pub offset : ℕ
  pub directory_table_entry : Entry
  pub encoded_data : List ℕ
  pub encoded_size : ℕ

-- `strcmp` on the bytes before the terminating zero.
unfoldable pub strcmp : List ℕ → List ℕ → Ordering
strcmp [] [] = Ordering.eq
strcmp [] (y ∷ ys) = Ordering.lt
strcmp (x ∷ xs) [] = Ordering.gt
strcmp (x ∷ xs) (y ∷ ys) =
    let rest = strcmp xs ys in
    elim (compare x y) [
      | Ordering.lt ↦ Ordering.lt
      | Ordering.eq ↦ rest
      | Ordering.gt ↦ Ordering.gt
    ]

abbrev pub is_greater : Ordering → Bool
is_greater Ordering.gt = true
is_greater _ = false

abbrev pub is_equal : Ordering → Bool
is_equal Ordering.eq = true
is_equal _ = false

-- The search for the place and the linking there: in front of the first name that is not smaller.
unfoldable pub insert_entry : DirEntry → List DirEntry → List DirEntry
insert_entry entry [] = entry ∷ []
insert_entry entry (e ∷ es) =
    let rest = insert_entry entry es in
    if is_greater (strcmp entry.name e.name) then e ∷ rest else entry ∷ e ∷ es

-- libsqfs_directory_inode_lookup
unfoldable pub lookup_entry : List ℕ → List DirEntry → Option ℕ
lookup_entry name [] = none
lookup_entry name (e ∷ es) =
    let rest = lookup_entry name es in if is_equal (strcmp e.name name) then some e.inode else rest
