-- ===== src/Bulkdata/Fragments/Table.antt =====
-- The fragment table: `libsqfs_bulkdata_write_fragment_table` (src/bulkdata.c).
use Prim.Native.Nat.{bit_or}
use libsqfs.Prelude.{
  ℕ, zero, suc, Bool, true, false, some, List, [], ◌∷◌, ◌++◌, ◌==◌, if◌then◌else◌,
}
use libsqfs.Prelude.Fields.{Fields, encode_fields}
use libsqfs.Memory.{Memory}
use libsqfs.Compressor.{Compressor}
use libsqfs.Output.{Destination, Output, reserve}
use libsqfs.Metatable.Defs as Metatable
use libsqfs.Metatable.Defs.{append}
use libsqfs.Metatable.Write.{write_with_index}
use libsqfs.Inode.Regular.{compressed_bit_block}
use libsqfs.Bulkdata.Defs.{ImageBlock, FragmentBlock, Bulkdata}

-- A `squashfs_fragment_entry`.
abbrev pub entry_size : ImageBlock → ℕ
entry_size dst = if dst.compressed then dst.size else bit_or dst.size compressed_bit_block

abbrev pub entry_fields : ImageBlock → Fields
entry_fields dst = (8, dst.offset) ∷ (4, entry_size dst) ∷ (4, 0) ∷ []

-- The array `entries`, for `n` blocks from number `i` on.
unfoldable pub entries : (ℕ → FragmentBlock) → ℕ → ℕ → List ℕ
unfolding encode_fields
entries blocks i zero = []
entries blocks i (suc n) = encode_fields (entry_fields (blocks i).dst) ++ entries blocks (suc i) n

unfoldable pub write_fragment_table :
    {Disk : Type 0}
    → Destination Disk
    → Memory
    → Compressor
    → Bulkdata
    → Output Disk
    → Bool × Memory × Bulkdata × Output Disk
unfolding reserve append write_with_index entries
write_fragment_table dst mem compressor bd out =
    let (place, out_none) = reserve out 0 in
    let (ok, mem', table) =
      append mem (Metatable.init (some compressor)) (entries bd.fragment_blocks 0 bd.nblocks) in
    let (written, indexed, out') = write_with_index dst table out in
    if bd.nblocks == 0
    then (true, mem, record bd { frag_table_loc = place }, out_none)
    else if ok
    then (written, mem', record bd { frag_table_loc = indexed.offset }, out')
    else (false, mem', record bd { frag_table_loc = table.offset }, out)
