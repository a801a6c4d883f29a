-- ===== src/Directory/Size.antt =====
-- The size of a listing: `offset` in `libsqfs_directory_encode` (src/directory.c) is the number of the
-- bytes coded so far.
use libsqfs.Prelude.{
  ℕ, ◌+◌, ◌-◌, ◌%◌, ◌^◌, ◌≡◌, inl, inr, refl, ap, ◌∙◌, true, List, [], ◌∷◌, ◌++◌, length,
  length-append, length-drop, drop, Bool-cases, arith,
}
use libsqfs.Prelude.Bytes.{le32, length-le_bytes}
use libsqfs.Memory.{Memory, malloc}
use libsqfs.Directory.Entries.{DirEntry}
use libsqfs.Directory.Encode.{
  Target, Encoder, placed, set_count, dir_header, dir_entry, dir_header_size, dir_entry_size,
  start_group, join_group, encode_entry, encode_entries, finish_groups,
}
use libsqfs.Directory.Groups.{
  coded_bytes, headed, IsOpen, IsEncoded, length-headed, length-dir_entry,
}
use libsqfs.Directory.Limits.{Step, Step-of, encode_entry-IsEncoded, coded_bytes-append}
use libsqfs.Directory.Listing.{AllEncodable, encode_entries_granted, encode_entries_refused}

length-coded_append :
    (xs ys : List DirEntry)
    → length (coded_bytes (xs ++ ys)) ≡ length (coded_bytes xs) + length (coded_bytes ys)
length-coded_append xs ys =
    ap length (coded_bytes-append xs ys) ∙ length-append (coded_bytes xs) (coded_bytes ys)

abbrev coded_size : Encoder → ℕ
coded_size st = length (coded_bytes st.finished) + length (coded_bytes st.group)

module _ (target : ℕ → Target) where
  length-set_count :
      (count serialno offset : ℕ) (g : List DirEntry)
      → IsOpen target count serialno offset g
      → length (coded_bytes (set_count count g)) ≡ length (coded_bytes g)
  unfolding set_count
  length-set_count count serialno offset [] h = refl
  length-set_count count serialno offset (reference ∷ es) (g, _, _, _) =
      let r = target reference.inode in
      let new = le32 ((count + 2 ^ 32 - 1) % 2 ^ 32) in
      let size : length reference.encoded_data
          ≡ dir_header_size + (dir_entry_size + length reference.name) =
        rw g.coded (length-headed 0 r reference.name) in
      omega (
        arith,
        size,
        length-append (new ++ drop 4 reference.encoded_data) (coded_bytes es),
        length-append new (drop 4 reference.encoded_data),
        length-append reference.encoded_data (coded_bytes es),
        length-drop 4 reference.encoded_data,
        length-le_bytes 4 ((count + 2 ^ 32 - 1) % 2 ^ 32),
      )

  start_group-size :
      (st : Encoder) (e : DirEntry)
      → IsEncoded target st
      → st.offset ≡ coded_size st
      → (start_group target st (placed st e)).offset
        ≡ coded_size (start_group target st (placed st e))
  unfolding start_group placed dir_header
  start_group-size st e h size =
      let t = target e.inode in
      omega (
        arith,
        size,
        length-coded_append st.finished (set_count st.count st.group),
        length-set_count st.count st.serialno st.offset st.group h.open_group,
        length-append (headed 0 t e.name) [],
        length-headed 0 t e.name,
      )

  join_group-size :
      (st : Encoder) (reference e : DirEntry)
      → st.offset ≡ coded_size st
      → (join_group target st reference (placed st e)).offset
        ≡ coded_size (join_group target st reference (placed st e))
  unfolding join_group placed
  join_group-size st reference e size =
      let base = (target reference.inode).inode_number in
      let coded = dir_entry base (target e.inode) e.name in
      omega (
        arith,
        size,
        length-coded_append st.group (record (placed st e) { encoded_data = coded } ∷ []),
        length-append coded [],
        length-dir_entry base (target e.inode) e.name,
      )

  pub encode_entries-size :
      (mem : Memory) (st : Encoder) (es : List DirEntry)
      → AllEncodable target es
      → IsEncoded target st
      → st.offset ≡ coded_size st
      → (encode_entries target mem st es).0 ≡ true
      → (encode_entries target mem st es).2.offset ≡ coded_size (encode_entries target mem st es).2
  encode_entries-size mem st [] f h size ok = unfold encode_entries in size
  encode_entries-size mem st (e ∷ es) (f, fs) h size ok = elim (Bool-cases (mem.grant mem.calls)) [
    | inr refused ↦ absurd (ground (arith, ok, encode_entries_refused target mem st e es refused))
    | inl granted ↦
        let step = encode_entries_granted target mem st e es granted in
        let size' : (encode_entry target st e).offset ≡ coded_size (encode_entry target st e) =
          elim (Step-of target st e) [
            | Step.fresh eq ↦ rw eq (start_group-size st e h size)
            | Step.joined reference _ _ _ eq ↦ rw eq (join_group-size st reference e size)
          ] in
        rw step (
          encode_entries-size (malloc mem).1 (encode_entry target st e) es fs
            (encode_entry-IsEncoded target st e f h) size' (rw step at ok))
  ]

  -- The finished listing has as many bytes as `offset` says.
  pub finish_groups-size :
      (st : Encoder)
      → IsEncoded target st
      → st.offset ≡ coded_size st
      → length (coded_bytes (finish_groups st)) ≡ st.offset
  unfolding finish_groups
  finish_groups-size st h size = omega (
    arith,
    size,
    length-coded_append st.finished (set_count st.count st.group),
    length-set_count st.count st.serialno st.offset st.group h.open_group,
  )
