-- ===== src/Xattrs/Written.antt =====
-- What `libsqfs_xattr_table_write` (src/xattrs.c) leaves in the file.
use libsqfs.Prelude.{
  ℕ, ◌+◌, ◌*◌, ◌%◌, ◌^◌, ◌≤◌, ◌<◌, ◌≡◌, ◌∙◌, refl, sym, ap, true, List, [], ◌∷◌, length, take,
  take_all, drop, append-nil, arith,
}
use libsqfs.Prelude.Bytes.{read_le}
use libsqfs.Prelude.Fields.{
  encode_fields, read_fields, read_fields-encode_fields, length-encode_fields,
}
use libsqfs.Output.{Destination, Output, IsFile, is_count, off_mod}
use libsqfs.Metatable.Defs.{u32_mod, flush}
use libsqfs.Metatable.Invariant.{IsValid, stored_size, flush-IsValid}
use libsqfs.Metatable.Write.{write, index_table}
use libsqfs.Metatable.OnDisk.{pwrite-Holds, encode, length-encode, write-Holds}
use libsqfs.Metatable.Index.{length-index_table, index_table-entry}
use libsqfs.Xattrs.Defs.{XattrTable}
use libsqfs.Xattrs.Table.{header_fields, index_entries, write_header, table_write}

module _ {Disk : Type 0} (dst : Destination Disk) (read : Disk → ℕ → ℕ → List ℕ)
    (file : IsFile dst read) where
  write_header_done :
      (tab : XattrTable) (out : Output Disk)
      → (write_header dst tab out).0 ≡ true
      → let n = index_entries tab.nids in
        let header = encode_fields (header_fields tab) in
        let index =
          index_table tab.xattr_descriptors.offset (take n tab.xattr_descriptors.blocks) in
        let (w, disk) = dst.pwrite out.disk header out.size in
        let place = (out.size + 16) % off_mod in
        let (w', disk') = dst.pwrite disk index place in
        (is_count w 16 ≡ true)
        × (is_count w' (n * 8) ≡ true)
        × ((write_header dst tab out).1.offset ≡ out.size)
        × ((write_header dst tab out).2.disk ≡ disk')
  unfolding write_header
  write_header_done tab out done = ground (arith, done)

  table_write_done :
      (tab : XattrTable) (out : Output Disk)
      → 0 < tab.nids
      → (table_write dst tab out).0 ≡ true
      → let (ok, stored, out') = write dst tab.xattr_data out in
        let (ok', descriptors, out'') = write dst tab.xattr_descriptors out' in
        (ok ≡ true)
        × (ok' ≡ true)
        × (table_write dst tab out
            ≡ write_header dst
                (record tab { xattr_data = stored; xattr_descriptors = descriptors })
                out'')
  unfolding table_write
  table_write_done tab out some_sets done = ground (arith, done, some_sets)

  -- The header and the index behind it.
  record Headed (tab : XattrTable) (out : Output Disk) (disk : Disk) : Type 0 where
    header : read disk out.size 16 ≡ encode_fields (header_fields tab)
    index :
        read disk (out.size + 16) (8 * length tab.xattr_descriptors.blocks)
        ≡ index_table tab.xattr_descriptors.offset tab.xattr_descriptors.blocks
    before : (p n : ℕ) → p + n ≤ out.size → read disk p n ≡ read out.disk p n

  write_header-Headed :
      (tab : XattrTable) (out : Output Disk)
      → index_entries tab.nids ≡ length tab.xattr_descriptors.blocks
      → out.size + 16 < off_mod
      → (write_header dst tab out).0 ≡ true
      → Headed tab out (write_header dst tab out).2.disk
        × ((write_header dst tab out).1.offset ≡ out.size)
  write_header-Headed tab out counted fits done =
      let (w, w', place, after) = write_header_done tab out done in
      let n = index_entries tab.nids in
      let blocks = tab.xattr_descriptors.blocks in
      let base = tab.xattr_descriptors.offset in
      let whole : take n blocks ≡ blocks = take_all n blocks (omega (arith, counted)) in
      let next : (out.size + 16) % off_mod ≡ out.size + 16 = omega arith in
      let header_bytes = encode_fields (header_fields tab) in
      let long : 16 ≡ length header_bytes = sym (length-encode_fields (header_fields tab)) in
      let wide : n * 8 ≡ length (index_table base blocks) =
        omega (arith, counted, length-index_table base blocks) in
      let first = pwrite-Holds dst read file out.disk header_bytes out.size 16 long w in
      let disk = (dst.pwrite out.disk header_bytes out.size).1 in
      let second =
        pwrite-Holds dst read file disk (index_table base blocks) (out.size + 16) (n * 8) wide
          (rw (whole, next) at w') in
      let same : (write_header dst tab out).2.disk
          ≡ (dst.pwrite disk (index_table base blocks) (out.size + 16)).1 =
        rw (whole, next) at after in
      (
        rw same (record {
          header = second.before out.size 16 (omega arith) ∙ (rw long first.there);
          index = rw (← length-index_table base blocks) second.there;
          before = λ p m le. second.before p m (omega (arith, le)) ∙ first.before p m le;
        }),
        place,
      )

  -- On success, where there are sets: the file holds the blocks of the data from the old end of the image on, and
  -- those of the descriptors behind them. Where the table's `offset` points is the header, with the place of the
  -- data and the number of sets, and behind it the index: entry `k` is the place of block `k` of the
  -- descriptors. The index has as many entries as there are blocks of descriptors, which is a condition here.
  pub table_write-places :
      (tab : XattrTable) (out : Output Disk) (k : ℕ)
      → IsValid tab.xattr_data
      → IsValid tab.xattr_descriptors
      → let stored = (flush tab.xattr_data).blocks in
        let described = (flush tab.xattr_descriptors).blocks in
        let (done, tab', out') = table_write dst tab out in
        let place = out.size + length (encode stored) in
        0 < tab.nids
        → tab.nids < 2 ^ 32
        → index_entries tab.nids ≡ length described
        → stored_size stored < u32_mod
        → stored_size described < u32_mod
        → out.size + stored_size stored + stored_size described + 16 < off_mod
        → done ≡ true
        → k < length described
        → (read out'.disk out.size (length (encode stored)) ≡ encode stored)
          × (read out'.disk place (length (encode described)) ≡ encode described)
          × (tab'.offset ≡ place + length (encode described))
          × (read_fields (8 ∷ 4 ∷ 4 ∷ []) (read out'.disk tab'.offset 16)
              ≡ out.size ∷ tab.nids ∷ 0 ∷ [])
          × (read_le 8 (drop (8 * k) (read out'.disk (tab'.offset + 16) (8 * length described)))
              ≡ place + stored_size (take k described))
  table_write-places tab out k v v' some_sets few counted small small' fits done lt =
      let (ok, ok', same) = table_write_done tab out some_sets done in
      let f = flush-IsValid tab.xattr_data v in
      let f' = flush-IsValid tab.xattr_descriptors v' in
      let stored = (flush tab.xattr_data).blocks in
      let described = (flush tab.xattr_descriptors).blocks in
      let size = length-encode 0 stored f.chain in
      let size' = length-encode 0 described f'.chain in
      let (first, first_table, grown) =
        write-Holds dst read file tab.xattr_data out v small (omega arith) ok in
      let out1 = (write dst tab.xattr_data out).2 in
      let (second, second_table, grown') =
        write-Holds dst read file tab.xattr_descriptors out1 v' small'
          (omega (arith, grown, size, fits)) ok' in
      let out2 = (write dst tab.xattr_descriptors out1).2 in
      let written : XattrTable = record tab {
        xattr_data = record (flush tab.xattr_data) { offset = out.size };
        xattr_descriptors = record (flush tab.xattr_descriptors) { offset = out1.size };
      } in
      let same' : table_write dst tab out ≡ write_header dst written out2 =
        same ∙ rw (first_table, second_table) refl in
      let (h, place) =
        write_header-Headed written out2 counted (omega (arith, grown, grown', size, size', fits))
          (rw same' at done) in
      let disk = (write_header dst written out2).2.disk in
      let fields = header_fields written in
      rw same' (
        h.before out.size (length (encode stored)) (omega (arith, grown, grown'))
            ∙ second.before out.size (length (encode stored)) (omega (arith, grown))
            ∙ first.there,
        ap (λ p. read disk p (length (encode described))) (sym grown)
            ∙ h.before out1.size (length (encode described)) (omega (arith, grown'))
            ∙ second.there,
        omega (arith, place, grown, grown'),
        ap (λ p. read_fields (8 ∷ 4 ∷ 4 ∷ []) (read disk p 16)) place
            ∙ ap (read_fields (8 ∷ 4 ∷ 4 ∷ [])) (h.header ∙ sym (append-nil (encode_fields fields)))
            ∙ read_fields-encode_fields fields [] (omega arith, (few, (omega arith, tt))),
        ap (λ p. read_le 8 (drop (8 * k) (read disk (p + 16) (8 * length described)))) place
            ∙ ap (λ (l : List ℕ). read_le 8 (drop (8 * k) l)) h.index
            ∙ index_table-entry out1.size 0 described k f'.chain lt (omega arith)
                (omega (arith, grown, size))
            ∙ omega (arith, grown),
      )
