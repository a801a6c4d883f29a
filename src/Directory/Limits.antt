-- ===== src/Directory/Limits.antt =====
-- Each step of `libsqfs_directory_encode` (src/directory.c) keeps the limits of the format.
use libsqfs.Prelude.{
  ℕ, ◌+◌, ◌%◌, ◌^◌, ◌≤◌, ◌<◌, ◌≡◌, inl, inr, refl, sym, subst, false, some, List, [], ◌∷◌, ◌++◌,
  ==_iff, length, length-append, All-append, Bool-cases, List-cases, append_assoc, append-nil,
  arith,
}
use libsqfs.Metatable.Defs.{metadata_size}
use libsqfs.Directory.Entries.{DirEntry}
use libsqfs.Directory.Encode.{
  Target, Encoder, is_far, sub_size, set_count, needs_header, dir_header, dir_entry, dir_entry_size,
  dir_header_size, placed, start_group, join_group, encode_entry,
}
use libsqfs.Directory.Groups.{
  coded_bytes, concat, IsEncodable, IsMember, IsGroup, IsClosed, IsOpen, IsEncoded,
  length-dir_entry, length-headed, set_count-IsClosed,
}

pub concat-snoc :
    (gs : List (List DirEntry)) (g : List DirEntry) → concat (gs ++ (g ∷ [])) ≡ concat gs ++ g
concat-snoc [] g = append-nil g
concat-snoc (h ∷ gs) g = rw (concat-snoc gs g) (sym (append_assoc h (concat gs) g))

pub coded_bytes-append :
    (xs ys : List DirEntry) → coded_bytes (xs ++ ys) ≡ coded_bytes xs ++ coded_bytes ys
coded_bytes-append [] ys = refl
coded_bytes-append (x ∷ xs) ys =
    rw (coded_bytes-append xs ys)
      (sym (append_assoc x.encoded_data (coded_bytes xs) (coded_bytes ys)))

length-coded_snoc :
    (es : List DirEntry) (e : DirEntry)
    → length (coded_bytes (es ++ (e ∷ []))) ≡ length (coded_bytes es) + length e.encoded_data
length-coded_snoc es e =
    rw (coded_bytes-append es (e ∷ []), append-nil e.encoded_data)
      (length-append (coded_bytes es) e.encoded_data)

module _ (target : ℕ → Target) where
  start_group-IsEncoded :
      (st : Encoder) (entry : DirEntry)
      → IsEncodable (target entry.inode) entry.name
      → IsEncoded target st
      → IsEncoded target (start_group target st (placed st entry))
  unfolding start_group placed dir_header
  start_group-IsEncoded st entry fits h =
      let t = target entry.inode in
      record {
        groups = h.groups ++ (set_count st.count st.group ∷ []);
        split = rw h.split (sym (concat-snoc h.groups (set_count st.count st.group)));
        closed =
            All-append (IsClosed target) h.groups (set_count st.count st.group ∷ []) h.closed
              (set_count-IsClosed target st.count st.serialno st.offset st.group h.open_group, tt);
        open_group = (
          record {
            encodable = fits;
            coded = refl;
            members = tt;
            few = omega arith;
            small = inl refl;
          },
          refl,
          refl,
          omega (arith, length-headed 0 t entry.name),
        );
      }

  -- What the test lets into a group.
  needs_header-false :
      (entry reference : DirEntry)
      → needs_header target entry (some reference) ≡ false
      → ((target entry.inode).block ≡ (target reference.inode).block)
        × (is_far (target entry.inode).inode_number (target reference.inode).inode_number ≡ false)
        × (sub_size (entry.encoded_size + entry.offset) reference.offset ≤ metadata_size)
        × (sub_size entry.serialno reference.serialno ≤ 255)
  unfolding needs_header
  needs_header-false entry reference h =
      ground (arith, ==_iff (target entry.inode).block (target reference.inode).block)

  -- Another entry in a group with room for it.
  IsGroup-grows :
      (reference e : DirEntry) (es : List DirEntry)
      → IsGroup target 0 reference es
      → IsMember target (target reference.inode) e
      → length es < 255
      → length reference.encoded_data + (length (coded_bytes es) + length e.encoded_data)
        ≤ metadata_size
      → IsGroup target 0 reference (es ++ (e ∷ []))
  IsGroup-grows reference e es g m few small = record {
    encodable = g.encodable;
    coded = g.coded;
    members = All-append (IsMember target (target reference.inode)) es (e ∷ []) g.members (m, tt);
    few = omega (arith, length-append es (e ∷ []));
    small = inr (omega (arith, length-coded_snoc es e));
  }

  -- A group's size stays far from where `size_t` wraps.
  group_bounded :
      (reference : DirEntry) (es : List DirEntry)
      → IsGroup target 0 reference es
      → length reference.encoded_data + length (coded_bytes es) ≤ 2 ^ 17
  group_bounded reference es g =
      let r = target reference.inode in
      let size : length reference.encoded_data
          ≡ dir_header_size + (dir_entry_size + length reference.name) =
        rw g.coded (length-headed 0 r reference.name) in
      elim g.small [
        | inl alone ↦ rw alone (omega (arith, size, g.encodable.short))
        | inr small ↦ omega (arith, small)
      ]

  join_group-IsEncoded :
      (st : Encoder) (entry reference : DirEntry) (es : List DirEntry)
      → st.group ≡ reference ∷ es
      → needs_header target (placed st entry) (some reference) ≡ false
      → IsEncodable (target entry.inode) entry.name
      → IsEncoded target st
      → IsEncoded target (join_group target st reference (placed st entry))
  unfolding join_group placed
  join_group-IsEncoded st entry reference es g n fits h =
      let t = target entry.inode in
      let r = target reference.inode in
      let now : IsOpen target st.count st.serialno st.offset (reference ∷ es) =
        subst (λ o. IsOpen target st.count st.serialno st.offset o) g h.open_group in
      let limits = needs_header-false (placed st entry) reference n in
      let e : DirEntry = record (placed st entry) {
        encoded_data = dir_entry r.inode_number t entry.name;
      } in
      let size : length e.encoded_data ≡ dir_entry_size + length entry.name =
        length-dir_entry r.inode_number t entry.name in
      let bound = group_bounded reference es now.0 in
      let count = now.1 in
      let serialno = now.2 in
      let offset = now.3 in
      let room = limits.2 in
      let few = limits.3 in
      let longer = length-append es (e ∷ []) in
      let larger_bytes = length-coded_snoc es e in
      let larger : IsOpen target ((st.count + 1) % 2 ^ 32) (st.serialno + 1)
          (st.offset + (dir_entry_size + length entry.name)) (reference ∷ (es ++ (e ∷ []))) =
        (
          IsGroup-grows reference e es now.0
              (record { encodable = fits; same_block = limits.0; near = limits.1; coded = refl })
              (omega arith) (omega arith),
          omega arith,
          omega arith,
          omega arith,
        ) in
      record { groups = h.groups; split = h.split; closed = h.closed; open_group = rw g larger }

  -- The two ways an entry is taken.
  pub data Step (st : Encoder) (entry : DirEntry) : Type 0 where
    fresh : encode_entry target st entry ≡ start_group target st (placed st entry) → Step st entry
    joined :
        (reference : DirEntry) (es : List DirEntry)
        → st.group ≡ reference ∷ es
        → needs_header target (placed st entry) (some reference) ≡ false
        → encode_entry target st entry ≡ join_group target st reference (placed st entry)
        → Step st entry

  pub Step-of : (st : Encoder) (entry : DirEntry) → Step st entry
  unfolding encode_entry
  Step-of st entry = elim (List-cases st.group) [
    | inl e ↦ Step.fresh (ground arith)
    | inr (reference, es, e) ↦
        elim (Bool-cases (needs_header target (placed st entry) (some reference))) [
          | inl new ↦ Step.fresh (ground arith)
          | inr same ↦ Step.joined reference es e same (ground arith)
        ]
  ]

  -- Every entry handled keeps the limits of the format: all groups that are finished have at most 256
  -- entries of one inode block, whose inode numbers fit in signed 16 bits, in at most 8192 bytes
  -- unless there is one entry only, and a header with their number; the last group will.
  pub encode_entry-IsEncoded :
      (st : Encoder) (entry : DirEntry)
      → IsEncodable (target entry.inode) entry.name
      → IsEncoded target st
      → IsEncoded target (encode_entry target st entry)
  encode_entry-IsEncoded st entry fits h = elim (Step-of st entry) [
    | Step.fresh e ↦ rw e (start_group-IsEncoded st entry fits h)
    | Step.joined reference es g same e ↦
        rw e (join_group-IsEncoded st entry reference es g same fits h)
  ]
