-- ===== src/Directory/Roundtrip.antt =====
-- What a reader finds in the listing that `libsqfs_directory_encode` (src/directory.c) leaves.
use libsqfs.Prelude.{
  ℕ, suc, zero, ◌+◌, ◌≤◌, ◌<◌, ◌≡◌, refl, ap, false, List, [], ◌∷◌, ◌++◌, length, length-append,
  drop, All, map, append_assoc, arith,
}
use mathlib.Core.List.{map-append}
use libsqfs.Prelude.Bytes.{le32, le_bytes, read_le, read_le-le_bytes}
use libsqfs.Directory.Entries.{DirEntry}
use libsqfs.Directory.Encode.{Target, dir_entry, is_far}
use libsqfs.Directory.Groups.{coded_bytes, concat, headed, IsGroup, IsClosed, length-headed}
use libsqfs.Directory.Limits.{coded_bytes-append}
use libsqfs.Directory.Decode.{
  Listed, listed, decode_entries, decode_listing, members-decode, dir_entry-decodes,
}

-- A header and what follows it.
abbrev decode_group : ℕ → List ℕ → List Listed
decode_group fuel bytes =
    let (entries, rest) =
      decode_entries (read_le 4 bytes + 1) (read_le 4 (drop 4 bytes)) (read_le 4 (drop 8 bytes))
        (drop 12 bytes) in
    entries ++ decode_listing fuel rest

headed-decodes :
    (fuel count : ℕ) (t : Target) (name more : List ℕ)
    → decode_listing (suc fuel) (headed count t name ++ more)
      ≡ decode_group fuel (headed count t name ++ more)
unfolding le_bytes decode_listing
headed-decodes fuel count t name more = refl

module _ (count : ℕ) (t : Target) (name more : List ℕ) where
  header_0 :
      headed count t name ++ more
      ≡ le32 count
        ++ (le32 t.block ++ (le32 t.inode_number ++ (dir_entry t.inode_number t name ++ more)))
  unfolding le_bytes
  header_0 = refl

  header_1 :
      drop 4 (headed count t name ++ more)
      ≡ le32 t.block ++ (le32 t.inode_number ++ (dir_entry t.inode_number t name ++ more))
  unfolding le_bytes
  header_1 = refl

  header_2 :
      drop 8 (headed count t name ++ more)
      ≡ le32 t.inode_number ++ (dir_entry t.inode_number t name ++ more)
  unfolding le_bytes
  header_2 = refl

  header_3 : drop 12 (headed count t name ++ more) ≡ dir_entry t.inode_number t name ++ more
  unfolding le_bytes
  header_3 = refl

near_itself : (n : ℕ) → is_far n n ≡ false
unfolding is_far
near_itself n = ground arith

module _ (target : ℕ → Target) where
  -- The entries behind a header, the first included.
  entries-decode :
      (reference : DirEntry) (es : List DirEntry) (rest : List ℕ)
      → IsGroup target (length es) reference es
      → let r = target reference.inode in
        decode_entries
          (suc (length es))
          r.block
          r.inode_number
          (dir_entry r.inode_number r reference.name ++ (coded_bytes es ++ rest))
        ≡ (map (listed target) (reference ∷ es), rest)
  unfolding decode_entries
  entries-decode reference es rest g =
      let r = target reference.inode in
      let d =
        dir_entry-decodes r.inode_number r.block r reference.name (coded_bytes es ++ rest)
          g.encodable refl g.encodable.number_fits (near_itself r.inode_number) in
      rw (d.0, d.1, members-decode target r es rest g.encodable.number_fits g.members) refl

  -- One closed group, its bytes followed by others.
  group-decodes :
      (fuel : ℕ) (reference : DirEntry) (es : List DirEntry) (rest : List ℕ)
      → IsGroup target (length es) reference es
      → decode_listing (suc fuel) (coded_bytes (reference ∷ es) ++ rest)
        ≡ map (listed target) (reference ∷ es) ++ decode_listing fuel rest
  group-decodes fuel reference es rest g =
      let r = target reference.inode in
      let more = coded_bytes es ++ rest in
      let n = length es in
      let bytes : (reference.encoded_data ++ coded_bytes es) ++ rest
          ≡ headed n r reference.name ++ more =
        rw g.coded (append_assoc (headed n r reference.name) (coded_bytes es) rest) in
      let c : read_le 4 (headed n r reference.name ++ more) ≡ n =
        rw (header_0 n r reference.name more) (read_le-le_bytes 4 n _ (omega (arith, g.few))) in
      let b : read_le 4 (drop 4 (headed n r reference.name ++ more)) ≡ r.block =
        rw (header_1 n r reference.name more)
          (read_le-le_bytes 4 r.block _ g.encodable.block_fits) in
      let i : read_le 4 (drop 8 (headed n r reference.name ++ more)) ≡ r.inode_number =
        rw (header_2 n r reference.name more)
          (read_le-le_bytes 4 r.inode_number _ g.encodable.number_fits) in
      let one : n + 1 ≡ suc n = omega arith in
      let all = entries-decode reference es rest g in
      rw
        (
          bytes,
          headed-decodes fuel n r reference.name more,
          c,
          b,
          i,
          header_3 n r reference.name more,
          one,
          all,
        )
        refl

  size_of :
      (reference : DirEntry) (es : List DirEntry) (gs : List (List DirEntry))
      → IsGroup target (length es) reference es
      → length (coded_bytes (concat gs)) < length (coded_bytes ((reference ∷ es) ++ concat gs))
  size_of reference es gs g =
      let r = target reference.inode in
      let size : 0 < length reference.encoded_data =
        rw g.coded (omega (arith, length-headed (length es) r reference.name)) in
      omega (
        arith,
        ap length (coded_bytes-append es (concat gs)),
        length-append (coded_bytes es) (coded_bytes (concat gs)),
        length-append reference.encoded_data (coded_bytes (es ++ concat gs)),
      )

  pub groups-decode :
      (fuel : ℕ) (gs : List (List DirEntry))
      → length (coded_bytes (concat gs)) ≤ fuel
      → All (IsClosed target) gs
      → decode_listing fuel (coded_bytes (concat gs)) ≡ map (listed target) (concat gs)
  unfolding decode_listing
  groups-decode zero [] h k = refl
  groups-decode (suc fuel) [] h k = refl
  groups-decode fuel ([] ∷ gs) h k = groups-decode fuel gs h k.1
  groups-decode zero ((reference ∷ es) ∷ gs) h (g, k) =
      absurd (omega (arith, size_of reference es gs g))
  groups-decode (suc fuel) ((reference ∷ es) ∷ gs) h (g, k) =
      let rest = groups-decode fuel gs (omega (arith, size_of reference es gs g)) k in
      rw
        (
          coded_bytes-append (reference ∷ es) (concat gs),
          group-decodes fuel reference es (coded_bytes (concat gs)) g,
          rest,
          map-append (listed target) (reference ∷ es) (concat gs),
        )
        refl
