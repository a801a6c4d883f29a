-- ===== src/Metatable/Array.antt =====
-- An array that is written as an uncompressed table with an index, as src/idtable.c and src/export.c do.
use libsqfs.Prelude.{ℕ, ◌+◌, ◌*◌, ◌<◌, ◌≡◌, refl, true, none, Option, List, length, take, drop}
use libsqfs.Prelude.Bytes.{read_le}
use libsqfs.Memory.{Memory}
use libsqfs.Compressor.{Compressor}
use libsqfs.Output.{Destination, Output, IsFile, off_mod}
use libsqfs.Metatable.Defs as Metatable
use libsqfs.Metatable.Defs.{u32_mod, append, flush, position}
use libsqfs.Metatable.Invariant.{stored_size, init-IsValid}
use libsqfs.Metatable.Stream.{IsCodecOf}
use libsqfs.Metatable.Append.{append-Outcome, append-Extends}
use libsqfs.Metatable.Write.{write_with_index}
use libsqfs.Metatable.OnDisk.{encode}
use libsqfs.Metatable.Reader.{resolve, resolve-Extends}
use libsqfs.Metatable.Index.{write_with_index-places}

uncompressed : (expand : List ℕ → List ℕ) → IsCodecOf (Metatable.init none).compressor expand
unfolding Metatable.init
uncompressed expand = tt

module _ {Disk : Type 0} (dst : Destination Disk) (read : Disk → ℕ → ℕ → List ℕ)
    (file : IsFile dst read) where
  -- A reader of the blocks of an array, compressed or not, finds the bytes, and an entry of the index is the
  -- place of its block.
  pub packed-reads :
      (c : Option Compressor) (mem : Memory) (bytes : List ℕ) (out : Output Disk) (k : ℕ)
      (expand : List ℕ → List ℕ)
      → IsCodecOf (Metatable.init c).compressor expand
      → let (ok, _, t) = append mem (Metatable.init c) bytes in
        let (written, indexed, out') = write_with_index dst t out in
        let blocks = (flush t).blocks in
        let size = length (encode blocks) in
        stored_size blocks < u32_mod
        → out.size + stored_size blocks + 8 * length blocks < off_mod
        → ok ≡ true
        → written ≡ true
        → k < length blocks
        → (indexed.offset ≡ out.size + size)
          × (resolve expand (read out'.disk out.size size) (position (Metatable.init c)) ≡ bytes)
          × (read_le 8 (drop (8 * k) (read out'.disk indexed.offset (8 * length blocks)))
              ≡ out.size + stored_size (take k blocks))
  packed-reads c mem bytes out k expand codec bound fits ok written lt =
      let t = (append mem (Metatable.init c) bytes).2 in
      let v = (append-Outcome expand mem (Metatable.init c) bytes codec (init-IsValid c)).valid in
      let x = append-Extends expand mem (Metatable.init c) bytes codec (init-IsValid c) ok in
      let (blocks, place, _, entry) =
        write_with_index-places dst read file t out k v bound fits written lt in
      let stream =
        resolve-Extends expand (Metatable.init c) t bytes codec (init-IsValid c) v x bound in
      (place, rw (blocks, stream) refl, entry)

  -- The same for an array that is not compressed.
  pub array-reads :
      (mem : Memory) (bytes : List ℕ) (out : Output Disk) (k : ℕ) (expand : List ℕ → List ℕ)
      → let (ok, _, t) = append mem (Metatable.init none) bytes in
        let (written, indexed, out') = write_with_index dst t out in
        let blocks = (flush t).blocks in
        let size = length (encode blocks) in
        stored_size blocks < u32_mod
        → out.size + stored_size blocks + 8 * length blocks < off_mod
        → ok ≡ true
        → written ≡ true
        → k < length blocks
        → (indexed.offset ≡ out.size + size)
          × (resolve expand (read out'.disk out.size size) (position (Metatable.init none)) ≡ bytes)
          × (read_le 8 (drop (8 * k) (read out'.disk indexed.offset (8 * length blocks)))
              ≡ out.size + stored_size (take k blocks))
  array-reads mem bytes out k expand =
      packed-reads none mem bytes out k expand (uncompressed expand)
