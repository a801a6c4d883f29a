-- ===== src/Image/Types.antt =====
-- An inode that has been serialized has a type (src/special.c, src/regular.c, src/directory.c).
use libsqfs.Prelude.{ℕ, ◌∙◌, sym, ◌==◌, ◌≡◌, ◌≢◌, refl, true, List, Bool-cases, inl, inr, arith}
use libsqfs.Memory.{Memory}
use libsqfs.Metatable.Defs.{Metatable}
use libsqfs.Directory.Encode.{Target}
use libsqfs.Directory.Table.{Directory, directory_encode}
use libsqfs.Directory.Index.{prune_index}
use libsqfs.Inode.Defs.{Inode, store_header, dir_type}
use libsqfs.Inode.Special.{Device, symlink_serialize, device_serialize, fifo_serialize}
use libsqfs.Inode.Regular.{RegularFile, regular_serialize, regular_type}
use libsqfs.Inode.Folder.{directory_finish, directory_inode_encode, directory_type, ldir_fields}

abbrev pub HasType : Inode → Type 0
HasType inode = inode.encoded_type ≢ 0

module _ (mem : Memory) (tab : Metatable) (inode : Inode) where
  pub symlink_serialize-type : (name : List ℕ) → HasType (symlink_serialize mem tab inode name).3
  unfolding symlink_serialize store_header
  symlink_serialize-type name e = ground (arith, e)

  pub device_serialize-type : (d : Device) → HasType (device_serialize mem tab inode d).3
  unfolding device_serialize store_header
  device_serialize-type d e = ground (arith, e)

  pub fifo_serialize-type : HasType (fifo_serialize mem tab inode).3
  unfolding fifo_serialize store_header
  fifo_serialize-type e = ground (arith, e)

  pub regular_serialize-type :
      (file : RegularFile) → HasType (regular_serialize mem tab inode file).3
  unfolding regular_serialize store_header regular_type
  regular_serialize-type file e = ground (arith, e)

  directory_inode_encode-type :
      (dir : Directory) (parent : ℕ)
      → (directory_inode_encode mem tab inode dir parent).3.encoded_type ≡ inode.encoded_type
  unfolding directory_inode_encode store_header
  directory_inode_encode-type dir parent = elim (Bool-cases (inode.encoded_type == dir_type)) [
    | inl short ↦ rw short refl
    | inr long ↦ elim (Bool-cases (store_header mem tab inode (ldir_fields inode dir parent)).0) [
      | inl ok ↦ rw (long, ok) refl
      | inr failed ↦ rw (long, failed) refl
    ]
  ]

directory_type-nonzero : (inode : Inode) (dir : Directory) → directory_type inode dir ≢ 0
unfolding directory_type
directory_type-nonzero inode dir e = ground (arith, e)

pub directory_finish-type :
    (target : ℕ → Target) (mem : Memory) (dir_table inode_table : Metatable) (inode : Inode)
    (dir : Directory) (parent : ℕ)
    → let (ok, _, _, _, stored, _) =
        directory_finish target mem dir_table inode_table inode dir parent in
      ok ≡ true → HasType stored
unfolding directory_finish directory_type
directory_finish-type target mem dir_table inode_table inode dir parent done e =
    let dir' = prune_index (directory_encode target mem dir_table dir).3 in
    let mem' = (directory_encode target mem dir_table dir).1 in
    let typed : Inode = record inode {
      encoded_type = directory_type inode dir';
      encoded_base_type = dir_type;
    } in
    let kept = directory_inode_encode-type mem' inode_table typed dir' parent in
    elim (Bool-cases (directory_encode target mem dir_table dir).0) [
      | inl ok ↦ directory_type-nonzero inode dir' (sym kept ∙ (rw (ok, directory_finish) at e))
      | inr failed ↦ absurd (ground (arith, rw (failed, directory_finish) at done))
    ]
