-- ===== src/Metatable/Index.antt =====
-- The index behind a table, `libsqfs_metatable_write_with_index` (src/metatable.c): its entries are the
-- places of the table's blocks in the file.
use libsqfs.Prelude.{
  ℕ, zero, suc, ◌+◌, ◌*◌, ◌%◌, ◌<◌, ◌≡◌, refl, ◌∙◌, true, List, [], ◌∷◌, ◌++◌, length,
  length-append, take, drop, drop-append_length, drop_add, arith,
}
use libsqfs.Prelude.Bytes.{le64, read_le, length-le_bytes, read_le-le_bytes}
use libsqfs.Output.{Destination, Output, IsFile, is_count, off_mod}
use libsqfs.Metatable.Defs.{u32_mod, Metablock, Metatable, flush}
use libsqfs.Metatable.Invariant.{stored_size, IsChain, IsValid, flush-IsValid}
use libsqfs.Metatable.Write.{write, index_table, write_index, write_with_index}
use libsqfs.Metatable.OnDisk.{Holds, pwrite-Holds, encode, length-encode, write-Holds}

pub length-index_table :
    (base : ℕ) (bs : List Metablock) → length (index_table base bs) ≡ 8 * length bs
unfolding index_table
length-index_table base [] = refl
length-index_table base (b ∷ bs) = omega (
  arith,
  length-append (le64 ((base + b.offset) % off_mod)) (index_table base bs),
  length-le_bytes 8 ((base + b.offset) % off_mod),
  length-index_table base bs,
)

-- Entry `k` of the index is the place where block `k` begins.
pub index_table-entry :
    (base start : ℕ) (bs : List Metablock) (k : ℕ)
    → IsChain start bs
    → k < length bs
    → start + stored_size bs < u32_mod
    → base + start + stored_size bs < off_mod
    → read_le 8 (drop (8 * k) (index_table base bs)) ≡ base + start + stored_size (take k bs)
unfolding index_table
index_table-entry base start [] k h lt small fits = absurd (omega arith)
index_table-entry base start (b ∷ bs) zero h lt small fits =
    let place : (base + b.offset) % off_mod ≡ base + start = omega (arith, h.0) in
    read_le-le_bytes 8 ((base + b.offset) % off_mod) (index_table base bs) (omega arith)
    ∙ omega (arith, place)
index_table-entry base start (b ∷ bs) (suc k) h lt small fits =
    let entry = le64 ((base + b.offset) % off_mod) in
    let split : 8 * suc k ≡ length entry + 8 * k =
      omega (arith, length-le_bytes 8 ((base + b.offset) % off_mod)) in
    rw
      (
        split,
        drop_add (length entry) (8 * k) (entry ++ index_table base bs),
        drop-append_length entry (index_table base bs),
      )
      (index_table-entry base (start + (b.size + 2)) bs k h.3 (omega arith) (omega arith)
          (omega arith)
        ∙ omega arith)

module _ {Disk : Type 0} (dst : Destination Disk) (read : Disk → ℕ → ℕ → List ℕ)
    (file : IsFile dst read) where
  write_index_done :
      (tab : Metatable) (out : Output Disk)
      → (write_index dst tab out).0 ≡ true
      → let (w, disk') = dst.pwrite out.disk (index_table tab.offset tab.blocks) out.size in
        (is_count w (8 * tab.nmetablocks) ≡ true)
        × ((write_index dst tab out).1.offset ≡ out.size)
        × ((write_index dst tab out).2
            ≡ record { disk = disk'; size = (out.size + 8 * tab.nmetablocks) % off_mod })
  unfolding write_index
  write_index_done tab out done = ground arith

  write_index-Holds :
      (tab : Metatable) (out : Output Disk)
      → tab.nmetablocks ≡ length tab.blocks
      → out.size + 8 * length tab.blocks < off_mod
      → (write_index dst tab out).0 ≡ true
      → let (done, tab', out') = write_index dst tab out in
        Holds dst read file out.disk out'.disk out.size (index_table tab.offset tab.blocks)
        × (tab'.offset ≡ out.size)
        × (out'.size ≡ out.size + 8 * length tab.blocks)
  write_index-Holds tab out counted fits done =
      let (w, place, after) = write_index_done tab out done in
      let table = index_table tab.offset tab.blocks in
      let size : 8 * tab.nmetablocks ≡ length table =
        omega (arith, counted, length-index_table tab.offset tab.blocks) in
      (
        rw after (pwrite-Holds dst read file out.disk table out.size (8 * tab.nmetablocks) size w),
        place,
        rw after (omega (arith, counted)),
      )

  write_with_index_done :
      (tab : Metatable) (out : Output Disk)
      → (write_with_index dst tab out).0 ≡ true
      → let (done, tab', out') = write dst tab out in
        (done ≡ true) × (write_with_index dst tab out ≡ write_index dst tab' out')
  unfolding write_with_index
  write_with_index_done tab out done = ground arith

  -- On success the file holds the blocks from the old end of the image on, and behind them, where the
  -- table's `offset` points, an entry for each block: the place in the file where that block begins.
  pub write_with_index-places :
      (tab : Metatable) (out : Output Disk) (k : ℕ)
      → IsValid tab
      → stored_size (flush tab).blocks < u32_mod
      → out.size + stored_size (flush tab).blocks + 8 * length (flush tab).blocks < off_mod
      → let (done, tab', out') = write_with_index dst tab out in
        let blocks = (flush tab).blocks in
        done ≡ true
        → k < length blocks
        → (read out'.disk out.size (length (encode blocks)) ≡ encode blocks)
          × (tab'.offset ≡ out.size + length (encode blocks))
          × (out'.size ≡ tab'.offset + 8 * length blocks)
          × (read_le 8 (drop (8 * k) (read out'.disk tab'.offset (8 * length blocks)))
              ≡ out.size + stored_size (take k blocks))
  write_with_index-places tab out k v small fits done lt =
      let (written, same) = write_with_index_done tab out done in
      let v' = flush-IsValid tab v in
      let bs = (flush tab).blocks in
      let (there, table, grown) = write-Holds dst read file tab out v small (omega arith) written in
      let (index, place, after) =
        write_index-Holds (record (flush tab) { offset = out.size }) (write dst tab out).2
          v'.counted (omega (arith, grown, length-encode 0 bs v'.chain))
          (rw (same, table) at done) in
      let size = length-encode 0 bs v'.chain in
      let ends : (write dst tab out).2.size ≡ out.size + length (encode bs) = grown in
      rw (same, table)
        (
          index.before out.size (length (encode bs)) (omega (arith, ends)) ∙ there.there,
          place ∙ ends,
          after ∙ rw place,
          rw (place, ← length-index_table out.size bs, index.there)
              (index_table-entry out.size 0 bs k v'.chain lt (omega arith) (omega arith)
                ∙ omega arith),
        )
