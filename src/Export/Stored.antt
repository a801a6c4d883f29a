-- ===== src/Export/Stored.antt =====
-- What a reader of the export table finds (src/export.c).
use libsqfs.Prelude.{
  ℕ, zero, suc, ◌+◌, ◌-◌, ◌*◌, ◌/◌, ◌%◌, ◌^◌, ◌<◌, ◌≡◌, inl, inr, refl, sym, subst, ap, ◌∙◌, true,
  Option, none, some, List, [], ◌∷◌, ◌++◌, length, length-append, get_elem?, take, drop,
  append_assoc, All, map, Bool-cases, arith,
}
use libsqfs.Prelude.Bits.{bit_or_fields}
use libsqfs.Prelude.Bytes.{read_le}
use libsqfs.Prelude.Words.{words, words-get}
use libsqfs.Memory.{Memory}
use libsqfs.Output.{Destination, Output, IsFile, off_mod}
use libsqfs.Metatable.Defs as Metatable
use libsqfs.Metatable.Defs.{u32_mod, append, flush, position}
use libsqfs.Metatable.Invariant.{stored_size}
use libsqfs.Metatable.Write.{write_with_index}
use libsqfs.Metatable.OnDisk.{encode}
use libsqfs.Metatable.Reader.{resolve}
use libsqfs.Metatable.Array.{array-reads}
use libsqfs.Inode.Defs.{Inode}
use libsqfs.Export.Defs.{encoded_inode, set_element, fill_map, export_table_write}

-- The inodes have their numbers from `n + 1` on, in the order of the list.
abbrev pub IsNumbered : ℕ → List Inode → Type 0
IsNumbered n [] = Unit
IsNumbered n (i ∷ is) = (i.inode_number ≡ n + 1) × IsNumbered (n + 1) is

-- A place in the inode table: 32 bits for the block, and less than 8192 in it.
abbrev pub IsPlaced : Inode → Type 0
IsPlaced i = (i.inode_table_entry.block < 2 ^ 32) × (i.inode_table_entry.offset < 2 ^ 16)

encoded_inode-sum :
    (i : Inode)
    → IsPlaced i
    → encoded_inode i ≡ i.inode_table_entry.offset + i.inode_table_entry.block * 2 ^ 16
unfolding encoded_inode
encoded_inode-sum i h = bit_or_fields 16 i.inode_table_entry.offset i.inode_table_entry.block h.1

set_element-append :
    (xs ys : List ℕ) (x v : ℕ) → set_element (xs ++ (x ∷ ys)) (length xs) v ≡ xs ++ (v ∷ ys)
unfolding set_element
set_element-append [] ys x v = refl
set_element-append (y ∷ xs) ys x v = ap (λ l. y ∷ l) (set_element-append xs ys x v)

fill_map-step :
    (inode_map : List ℕ) (i : Inode) (is : List Inode)
    → fill_map inode_map (i ∷ is)
      ≡ fill_map (set_element inode_map (i.inode_number - 1) (encoded_inode i)) is
unfolding fill_map
fill_map-step inode_map i is = refl

fill_map-nil : (inode_map : List ℕ) → fill_map inode_map [] ≡ inode_map
unfolding fill_map
fill_map-nil inode_map = refl

-- The loop assigns every element.
fill_map_lem :
    (done rest : List ℕ) (is : List Inode)
    → IsNumbered (length done) is
    → length rest ≡ length is
    → fill_map (done ++ rest) is ≡ done ++ map encoded_inode is
fill_map_lem done [] [] h e = fill_map-nil (done ++ [])
fill_map_lem done (x ∷ rest) [] h e = absurd (omega (arith, e))
fill_map_lem done [] (i ∷ is) h e = absurd (omega (arith, e))
fill_map_lem done (x ∷ rest) (i ∷ is) (number, h) e =
    let v = encoded_inode i in
    let place : i.inode_number - 1 ≡ length done = omega (arith, number) in
    let longer : length done + 1 ≡ length (done ++ (v ∷ [])) =
      omega (arith, length-append done (v ∷ [])) in
    let assigned : set_element (done ++ (x ∷ rest)) (i.inode_number - 1) v
        ≡ (done ++ (v ∷ [])) ++ rest =
      rw (place, set_element-append done rest x v) (sym (append_assoc done (v ∷ []) rest)) in
    rw (fill_map-step (done ++ (x ∷ rest)) i is, assigned)
      (fill_map_lem (done ++ (v ∷ [])) rest is (rw longer at h) (omega (arith, e))
        ∙ append_assoc done (v ∷ []) (map encoded_inode is))

places_fit : (is : List Inode) → All IsPlaced is → All (λ v. v < 256 ^ 8) (map encoded_inode is)
places_fit [] h = tt
places_fit (i ∷ is) (p, h) = (omega (arith, encoded_inode-sum i p, p), places_fit is h)

abbrev get_or : Inode → Option Inode → Inode
get_or i none = i
get_or i (some j) = j

place-get :
    (is : List Inode) (n : ℕ) (i : Inode)
    → All IsPlaced is
    → get_elem? is n ≡ some i
    → (get_elem? (map encoded_inode is) n ≡ some (encoded_inode i)) × IsPlaced i
place-get [] n i h e = absurd (ground (arith, e))
place-get (x ∷ is) zero i (p, h) e =
    let same : x ≡ i = ap (get_or x) e in
    (ap (λ k. some (encoded_inode k)) same, subst IsPlaced same p)
place-get (x ∷ is) (suc n) i (p, h) e = place-get is n i h e

module _ {Disk : Type 0} (dst : Destination Disk) (read : Disk → ℕ → ℕ → List ℕ)
    (file : IsFile dst read) where
  export_table_write_done :
      (mem : Memory) (inode_map : List ℕ) (is : List Inode) (out : Output Disk)
      → (export_table_write dst mem inode_map is out).0 ≡ true
      → let (ok, _, stored) = append mem (Metatable.init none) (words 8 (fill_map inode_map is)) in
        let (written, indexed, out') = write_with_index dst stored out in
        (ok ≡ true)
        × (written ≡ true)
        × ((export_table_write dst mem inode_map is out).2 ≡ indexed.offset)
        × ((export_table_write dst mem inode_map is out).3 ≡ out')
  unfolding export_table_write
  export_table_write_done mem inode_map is out done =
      elim (Bool-cases (append mem (Metatable.init none) (words 8 (fill_map inode_map is))).0) [
        | inl ok ↦ (ok, rw ok at done, rw ok refl, rw ok refl)
        | inr failed ↦ absurd (ground (arith, rw failed at done))
      ]

  -- On success a reader of the blocks written from the old end of the image on finds, at the number of an
  -- inode less one, the place of the inode in the inode table, whatever stood in the array before. The
  -- table's `offset` is where the index behind the blocks begins, and entry `k` of the index is
  -- the place of block `k`.
  pub export_table_write-reads :
      (mem : Memory) (inode_map : List ℕ) (is : List Inode) (out : Output Disk) (n k : ℕ)
      (i : Inode) (expand : List ℕ → List ℕ)
      → IsNumbered 0 is
      → All IsPlaced is
      → length inode_map ≡ length is
      → get_elem? is n ≡ some i
      → let (done, _, offset, out') = export_table_write dst mem inode_map is out in
        let blocks =
          (flush (append mem (Metatable.init none) (words 8 (map encoded_inode is))).2).blocks in
        let size = length (encode blocks) in
        let seen = read_le 8 (
          drop
            (8 * n)
            (resolve expand (read out'.disk out.size size) (position (Metatable.init none)))) in
        stored_size blocks < u32_mod
        → out.size + stored_size blocks + 8 * length blocks < off_mod
        → done ≡ true
        → k < length blocks
        → (seen % 2 ^ 16 ≡ i.inode_table_entry.offset)
          × (seen / 2 ^ 16 ≡ i.inode_table_entry.block)
          × (offset ≡ out.size + size)
          × (read_le 8 (drop (8 * k) (read out'.disk offset (8 * length blocks)))
              ≡ out.size + stored_size (take k blocks))
  export_table_write-reads mem inode_map is out n k i expand numbered placed same there bound fits
        done lt =
      let filled : fill_map inode_map is ≡ map encoded_inode is =
        fill_map_lem [] inode_map is numbered same in
      let (ok, written, offset, disk) = export_table_write_done mem inode_map is out done in
      let (place, stream, entry) =
        array-reads dst read file mem (words 8 (map encoded_inode is)) out k expand bound fits
          (rw filled at ok) (rw filled at written) lt in
      let (found, at_place) = place-get is n i placed there in
      let value =
        words-get 8 (map encoded_inode is) n (encoded_inode i) (places_fit is placed) found in
      let sum = encoded_inode-sum i at_place in
      rw (offset, disk, filled)
        (
          rw (stream, value, sum) (omega (arith, at_place)),
          rw (stream, value, sum) (omega (arith, at_place)),
          place,
          entry,
        )
