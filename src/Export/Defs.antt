-- ===== src/Export/Defs.antt =====
-- The export table (src/internal.h, src/export.c, and `libsqfs_encoded_inode` of src/inodes.h).
use Prim.Native.Nat.{bit_or}
use libsqfs.Prelude.{ℕ, zero, suc, ◌-◌, ◌*◌, ◌^◌, Bool, false, none, List, [], ◌∷◌, if◌then◌else◌}
use libsqfs.Prelude.Words.{words}
use libsqfs.Memory.{Memory}
use libsqfs.Output.{Destination, Output}
use libsqfs.Metatable.Defs as Metatable
use libsqfs.Metatable.Defs.{append}
use libsqfs.Metatable.Write.{write_with_index}
use libsqfs.Inode.Defs.{Inode}

-- The place of an inode in 64 bits.
unfoldable pub encoded_inode : Inode → ℕ
encoded_inode inode = bit_or inode.inode_table_entry.offset (inode.inode_table_entry.block * 2 ^ 16)

-- An assignment to an element of an array; one out of its bounds is not modelled further.
unfoldable pub set_element : List ℕ → ℕ → ℕ → List ℕ
set_element [] n v = []
set_element (x ∷ xs) zero v = v ∷ xs
set_element (x ∷ xs) (suc n) v = x ∷ set_element xs n v

-- `while(inode)`
unfoldable pub fill_map : List ℕ → List Inode → List ℕ
unfolding encoded_inode set_element
fill_map inode_map [] = inode_map
fill_map inode_map (inode ∷ inodes) =
    fill_map (set_element inode_map (inode.inode_number - 1) (encoded_inode inode)) inodes

-- libsqfs_export_table_write, which returns the table's `offset`. `inode_map` is what the stack holds
-- before: as many elements as there are inodes.
unfoldable pub export_table_write :
    {Disk : Type 0}
    → Destination Disk
    → Memory
    → (inode_map : List ℕ) → List Inode
    → Output Disk
    → Bool × Memory × ℕ × Output Disk
unfolding fill_map append write_with_index words
export_table_write dst mem inode_map inodes out =
    let (ok, mem', stored) =
      append mem (Metatable.init none) (words 8 (fill_map inode_map inodes)) in
    let (written, indexed, out') = write_with_index dst stored out in
    if ok then (written, mem', indexed.offset, out') else (false, mem', stored.offset, out)
