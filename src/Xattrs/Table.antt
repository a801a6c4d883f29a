-- ===== src/Xattrs/Table.antt =====
-- Writing the extended attributes out: `libsqfs_xattr_table_write` (src/xattrs.c).
use libsqfs.Prelude.{ℕ, ◌+◌, ◌-◌, ◌*◌, ◌/◌, Bool, true, false, [], ◌∷◌, take, ◌==◌, if◌then◌else◌}
use libsqfs.Prelude.Fields.{Fields, encode_fields}
use libsqfs.Output.{Destination, Output, reserve, is_count, off_mod}
use libsqfs.Metatable.Defs.{metadata_size}
use libsqfs.Metatable.Write.{write, index_table}
use libsqfs.Xattrs.Defs.{XattrTable}

-- A `squashfs_xattr_table`.
abbrev pub header_fields : XattrTable → Fields
header_fields tab = (8, tab.xattr_data.offset) ∷ (4, tab.nids) ∷ (4, 0) ∷ []

abbrev pub index_entries : ℕ → ℕ
index_entries nids = (nids * 16 + metadata_size - 1) / metadata_size

module _ {Disk : Type 0} (dst : Destination Disk) where
  -- The header and the index, behind the two tables. The index has `index_entries` entries, and C would follow NULL
  -- where there are fewer blocks.
  unfoldable pub write_header : XattrTable → Output Disk → Bool × XattrTable × Output Disk
  unfolding reserve encode_fields index_table
  write_header tab out =
      let n = index_entries tab.nids in
      let (header_pos, out_header) = reserve out 16 in
      let (written, disk) =
        dst.pwrite out_header.disk (encode_fields (header_fields tab)) header_pos in
      let (index_pos, out_index) = reserve (record out_header { disk = disk }) (n * 8) in
      let (written', disk') =
        dst.pwrite out_index.disk
          (index_table tab.xattr_descriptors.offset (take n tab.xattr_descriptors.blocks))
          index_pos in
      if is_count written 16
      then (if is_count written' (n * 8)
          then (true, record tab { offset = header_pos }, record out_index { disk = disk' })
          else (false, tab, record out_index { disk = disk' }))
      else (false, tab, record out_header { disk = disk })

  unfoldable pub table_write : XattrTable → Output Disk → Bool × XattrTable × Output Disk
  unfolding write write_header
  table_write tab out =
      let (ok, stored, out') = write dst tab.xattr_data out in
      let (ok', descriptors, out'') = write dst tab.xattr_descriptors out' in
      let tab' = record tab { xattr_data = stored } in
      let rest = write_header (record tab' { xattr_descriptors = descriptors }) out'' in
      if tab.nids == 0
      then (true, record tab { offset = off_mod - 1 }, out)
      else if ok
      then (if ok' then rest else (false, record tab' { xattr_descriptors = descriptors }, out''))
      else (false, tab', out')
