-- ===== src/Inode/FolderReads.antt =====
-- What a reader finds of a directory's inode (`libsqfs_directory_inode_encode`, src/directory.c).
use libsqfs.Prelude.{
  ℕ, ◌+◌, ◌^◌, ◌<◌, ◌≡◌, ◌⊎◌, inl, inr, sym, subst, ap, ◌∙◌, true, none, List, ◌++◌, length, drop,
  drop-append_length, All, map, arith,
}
use libsqfs.Prelude.Fields.{encode_fields, values, length-encode_fields}
use libsqfs.Memory.{Memory}
use libsqfs.Metatable.Defs.{Metatable, u32_mod, flush}
use libsqfs.Metatable.Invariant.{IsValid, stored_size}
use libsqfs.Metatable.Stream.{IsCodecOf, Extends, Extends-trans}
use libsqfs.Metatable.OnDisk.{encode}
use libsqfs.Metatable.Reader.{resolve}
use libsqfs.Directory.Table.{Directory}
use libsqfs.Inode.Defs.{Inode, store_header, common_fields, dir_type, ldir_type}
use libsqfs.Inode.Folder.{chain, directory_inode_encode, directory_type}
use libsqfs.Inode.Reader.{
  xattr_field-fits, read_inode, own_layout, IsSmall, XattrFits, common_values, store_header-reads,
  store_header-Extends, store_header-resolve,
}
use libsqfs.Inode.IndexReads.{
  index_bytes, append_index-Extends, IndexFits, indexed, read_index, read_index-index_bytes,
}
use libsqfs.Inode.FolderStore.{
  FolderFits, dir_own, ldir_own, directory_type-cases, short_encode, long_encode,
}

module _ (expand : List ℕ → List ℕ) (mem : Memory) (tab tab'' : Metatable) (inode : Inode)
    (dir : Directory) (parent : ℕ) (later : List ℕ) (codec : IsCodecOf tab.compressor expand)
    (v : IsValid tab) (v'' : IsValid tab'') (small : stored_size (flush tab'').blocks < u32_mod)
    (s : IsSmall inode) (xs : XattrFits inode.attr.xattrset) (f : FolderFits dir parent) where
  -- An inode of the shorter type.
  short-reads :
      inode.encoded_type ≡ dir_type
      → dir.encoded_entries_size + 3 < 2 ^ 16
      → let (ok, _, tab', stored) = directory_inode_encode mem tab inode dir parent in
        let image = resolve expand (encode (flush tab'').blocks) stored.inode_table_entry in
        ok ≡ true
        → Extends expand tab' later tab''
        → read_inode image ≡ common_values inode ++ values (dir_own inode dir parent)
  short-reads e size ok x =
      let eq = short_encode mem tab inode dir parent e in
      rw eq (
        store_header-reads expand mem tab tab'' inode (dir_own inode dir parent) later codec v v'' s
          (omega (arith, e))
          (
            omega (arith, f.block_fits),
            (
              omega (arith, s.nlink_fits),
              (
                omega (arith, size),
                (omega (arith, f.offset_fits), (omega (arith, f.parent_fits), tt)),
              ),
            ),
          )
          (ap own_layout (sym e)) (rw eq at ok) (rw eq at x) small)

  pub directory_inode_encode-reads_long :
      inode.encoded_type ≡ ldir_type
      → All IndexFits (chain dir.entries dir.first_indexed)
      → let (ok, _, tab', stored) = directory_inode_encode mem tab inode dir parent in
        let image = resolve expand (encode (flush tab'').blocks) stored.inode_table_entry in
        let es = chain dir.entries dir.first_indexed in
        ok ≡ true
        → Extends expand tab' later tab''
        → (read_inode image ≡ common_values inode ++ values (ldir_own inode dir parent))
          × (read_index (length es) (drop 40 image) ≡ map indexed es)
  directory_inode_encode-reads_long e fits ok x =
      let own = ldir_own inode dir parent in
      let fields = common_fields inode ++ own in
      let es = chain dir.entries dir.first_indexed in
      let (stored, appended, table, place) = long_encode mem tab inode dir parent e ok in
      let (v', first) = store_header-Extends expand mem tab inode fields codec v stored in
      let mem' = (store_header mem tab inode fields).1 in
      let tab' = (store_header mem tab inode fields).2 in
      let second =
        append_index-Extends expand mem' tab' es (rw first.same_compressor codec) v' appended in
      let x' : Extends expand tab' (index_bytes es ++ later) tab'' =
        Extends-trans expand second (subst (λ u. Extends expand u later tab'') table x) in
      let seen =
        store_header-reads expand mem tab tab'' inode own (index_bytes es ++ later) codec v v'' s
          (omega (arith, e))
          (
            omega (arith, s.nlink_fits),
            (
              omega (arith, f.size_fits),
              (
                omega (arith, f.block_fits),
                (
                  omega (arith, f.parent_fits),
                  (
                    omega (arith, f.count_fits),
                    (
                      omega (arith, f.offset_fits),
                      (omega (arith, xattr_field-fits inode.attr.xattrset xs), tt),
                    ),
                  ),
                ),
              ),
            ),
          )
          (ap own_layout (sym e)) stored x' small in
      let bytes =
        store_header-resolve expand mem tab tab'' inode fields (index_bytes es ++ later) codec v v''
          stored x' small in
      let size : length (encode_fields fields) ≡ 40 = length-encode_fields fields in
      (
        rw place seen,
        rw
            (
              place,
              bytes,
              ← size,
              drop-append_length (encode_fields fields) (index_bytes es ++ later),
            )
            (read_index-index_bytes es later fits),
      )

  -- A directory whose inode has the type that `libsqfs_directory_serialize` chooses: a reader finds the fields
  -- of the shorter structure, which then hold the size of the listing, and there is no index and no
  -- attribute that would be lost, or it finds those of the extended structure.
  pub directory_inode_encode-reads :
      inode.encoded_type ≡ directory_type inode dir
      → All IndexFits (chain dir.entries dir.first_indexed)
      → let (ok, _, tab', stored) = directory_inode_encode mem tab inode dir parent in
        let seen =
          read_inode (resolve expand (encode (flush tab'').blocks) stored.inode_table_entry) in
        ok ≡ true
        → Extends expand tab' later tab''
        → ((seen ≡ common_values inode ++ values (dir_own inode dir parent))
            × (dir.encoded_entries_size + 3 < 2 ^ 16)
            × (dir.indexed_count ≡ 0)
            × (inode.attr.xattrset ≡ none))
          ⊎ (seen ≡ common_values inode ++ values (ldir_own inode dir parent))
  directory_inode_encode-reads e fits ok x = elim (directory_type-cases inode dir) [
    | inl (short, size, count, none_set) ↦
        inl (short-reads (e ∙ short) size ok x, size, count, none_set)
    | inr long ↦ inr (directory_inode_encode-reads_long (e ∙ long) fits ok x).0
  ]
