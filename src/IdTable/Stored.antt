-- ===== src/IdTable/Stored.antt =====
-- What `libsqfs_idtable_write` (src/idtable.c) leaves in the file.
use libsqfs.Prelude.{
  ℕ, ◌+◌, ◌*◌, ◌^◌, ◌<◌, ◌≡◌, inl, inr, refl, true, none, some, List, length, get_elem?, take, drop,
  All, Bool-cases, arith,
}
use libsqfs.Prelude.Bytes.{read_le}
use libsqfs.Prelude.Words.{words-get}
use libsqfs.Memory.{Memory}
use libsqfs.Output.{Destination, Output, IsFile, off_mod}
use libsqfs.Metatable.Defs as Metatable
use libsqfs.Metatable.Defs.{u32_mod, append, flush, position}
use libsqfs.Metatable.Invariant.{stored_size}
use libsqfs.Metatable.Write.{write_with_index}
use libsqfs.Metatable.OnDisk.{encode}
use libsqfs.Metatable.Reader.{resolve}
use libsqfs.Metatable.Array.{array-reads}
use libsqfs.IdTable.Defs.{IdTable, id_bytes, idtable_write}

module _ {Disk : Type 0} (dst : Destination Disk) (read : Disk → ℕ → ℕ → List ℕ)
    (file : IsFile dst read) where
  idtable_write_done :
      (mem : Memory) (tab : IdTable) (out : Output Disk)
      → (idtable_write dst mem tab out).0 ≡ true
      → let (ok, _, stored) = append mem (Metatable.init none) (id_bytes tab.ids) in
        let (written, indexed, out') = write_with_index dst stored out in
        (ok ≡ true)
        × (written ≡ true)
        × ((idtable_write dst mem tab out).2.offset ≡ indexed.offset)
        × ((idtable_write dst mem tab out).3 ≡ out')
  unfolding idtable_write
  idtable_write_done mem tab out done =
      elim (Bool-cases (append mem (Metatable.init none) (id_bytes tab.ids)).0) [
        | inl ok ↦ (ok, rw ok at done, rw ok refl, rw ok refl)
        | inr failed ↦ absurd (ground (arith, rw failed at done))
      ]

  -- On success a reader of the blocks written from the old end of the image on finds each id at its
  -- number; the table's `offset` is where the index behind the blocks begins, and entry `k` of
  -- the index is the place of block `k`.
  pub idtable_write-reads :
      (mem : Memory) (tab : IdTable) (out : Output Disk) (n id k : ℕ) (expand : List ℕ → List ℕ)
      → All (λ i. i < 2 ^ 32) tab.ids
      → get_elem? tab.ids n ≡ some id
      → let (done, _, tab', out') = idtable_write dst mem tab out in
        let blocks = (flush (append mem (Metatable.init none) (id_bytes tab.ids)).2).blocks in
        let size = length (encode blocks) in
        stored_size blocks < u32_mod
        → out.size + stored_size blocks + 8 * length blocks < off_mod
        → done ≡ true
        → k < length blocks
        → (tab'.offset ≡ out.size + size)
          × (read_le 4 (
                drop
                  (4 * n)
                  (resolve expand (read out'.disk out.size size) (position (Metatable.init none))))
              ≡ id)
          × (read_le 8 (drop (8 * k) (read out'.disk tab'.offset (8 * length blocks)))
              ≡ out.size + stored_size (take k blocks))
  idtable_write-reads mem tab out n id k expand small there bound fits done lt =
      let (ok, written, offset, disk) = idtable_write_done mem tab out done in
      let (place, stream, entry) =
        array-reads dst read file mem (id_bytes tab.ids) out k expand bound fits ok written lt in
      rw (offset, disk) (place, rw stream (words-get 4 tab.ids n id small there), entry)
