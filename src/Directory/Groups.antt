-- ===== src/Directory/Groups.antt =====
-- The groups of a directory listing: what stands behind one header, and that each step of
-- `libsqfs_directory_encode` (src/directory.c) keeps the limits of the format.
use libsqfs.Prelude.{
  ℕ, suc, ◌+◌, ◌-◌, ◌%◌, ◌^◌, ◌≤◌, ◌<◌, ◌≡◌, ◌⊎◌, refl, sym, ◌∙◌, false, List, [], ◌∷◌, ◌++◌,
  length, length-append, drop, All, arith,
}
use libsqfs.Prelude.Bytes.{le32, length-le_bytes, le_bytes}
use libsqfs.Metatable.Defs.{metadata_size}
use libsqfs.Directory.Entries.{DirEntry}
use libsqfs.Directory.Encode.{
  Target, Encoder, is_far, set_count, dir_entry, dir_entry_size, dir_header_size,
}

-- The bytes of entries, one after the other.
abbrev pub coded_bytes : List DirEntry → List ℕ
coded_bytes [] = []
coded_bytes (e ∷ es) = e.encoded_data ++ coded_bytes es

abbrev pub concat : List (List DirEntry) → List DirEntry
concat [] = []
concat (g ∷ gs) = g ++ concat gs

-- The fields of an entry fit those of the format.
pub record IsEncodable (t : Target) (name : List ℕ) : Type 0 where
  pub named : 0 < length name
  pub short : length name ≤ 2 ^ 16
  pub block_fits : t.block < 2 ^ 32
  pub offset_fits : t.offset < 2 ^ 16
  pub number_fits : t.inode_number < 2 ^ 32
  pub type_fits : t.base_type < 2 ^ 16

-- A header with `count`, and the entry behind it.
abbrev pub headed : ℕ → Target → List ℕ → List ℕ
headed count t name =
    (le32 count ++ (le32 t.block ++ le32 t.inode_number)) ++ dir_entry t.inode_number t name

drop_count :
    (n : ℕ) (t : Target) (name : List ℕ) → le32 n ++ drop 4 (headed 0 t name) ≡ headed n t name
unfolding le_bytes
drop_count n t name = refl

pub length-dir_entry :
    (base : ℕ) (t : Target) (name : List ℕ)
    → length (dir_entry base t name) ≡ dir_entry_size + length name
unfolding dir_entry
length-dir_entry base t name = simp (length-append, length-le_bytes) (omega arith)

pub length-headed :
    (count : ℕ) (t : Target) (name : List ℕ)
    → length (headed count t name) ≡ dir_header_size + (dir_entry_size + length name)
length-headed count t name =
    simp (length-append, length-le_bytes, length-dir_entry t.inode_number t name) (omega arith)

module _ (target : ℕ → Target) where
  -- `e` is coded behind a header of inode `r`, in whose range it lies.
  pub record IsMember (r : Target) (e : DirEntry) : Type 0 where
    pub encodable : IsEncodable (target e.inode) e.name
    pub same_block : (target e.inode).block ≡ r.block
    pub near : is_far (target e.inode).inode_number r.inode_number ≡ false
    pub coded : e.encoded_data ≡ dir_entry r.inode_number (target e.inode) e.name

  -- The entries from `reference` on, their header holding `count`: at most 256 of them, in 8192 bytes
  -- unless the first alone is larger.
  pub record IsGroup (count : ℕ) (reference : DirEntry) (es : List DirEntry) : Type 0 where
    pub encodable : IsEncodable (target reference.inode) reference.name
    pub coded : reference.encoded_data ≡ headed count (target reference.inode) reference.name
    pub members : All (IsMember (target reference.inode)) es
    pub few : length es ≤ 255
    pub small :
        (es ≡ []) ⊎ (length reference.encoded_data + length (coded_bytes es) ≤ metadata_size)

  -- A group that has got its count.
  abbrev pub IsClosed : List DirEntry → Type 0
  IsClosed [] = Unit
  IsClosed (reference ∷ es) = IsGroup (length es) reference es

  -- The group being filled: its place, and its count so far.
  abbrev pub IsOpen : (count serialno offset : ℕ) → List DirEntry → Type 0
  IsOpen count serialno offset [] = Unit
  IsOpen count serialno offset (reference ∷ es) =
      IsGroup 0 reference es
      × (count ≡ suc (length es))
      × (serialno ≡ reference.serialno + suc (length es))
      × (offset ≡ reference.offset + (length reference.encoded_data + length (coded_bytes es)))

  pub record IsEncoded (st : Encoder) : Type 0 where
    pub groups : List (List DirEntry)
    pub split : st.finished ≡ concat groups
    pub closed : All IsClosed groups
    pub open_group : IsOpen st.count st.serialno st.offset st.group

  -- When a group ends, its header holds the number of entries behind the first.
  pub set_count-IsClosed :
      (count serialno offset : ℕ) (group : List DirEntry)
      → IsOpen count serialno offset group
      → IsClosed (set_count count group)
  unfolding set_count
  set_count-IsClosed count serialno offset [] h = tt
  set_count-IsClosed count serialno offset (reference ∷ es) (g, c, n, o) =
      let t = target reference.inode in
      let last : (count + 2 ^ 32 - 1) % 2 ^ 32 ≡ length es = omega (arith, g.few) in
      let new : le32 ((count + 2 ^ 32 - 1) % 2 ^ 32) ++ drop 4 reference.encoded_data
          ≡ headed (length es) t reference.name =
        rw (last, g.coded) (drop_count (length es) t reference.name) in
      let size : length (le32 ((count + 2 ^ 32 - 1) % 2 ^ 32) ++ drop 4 reference.encoded_data)
          ≡ length reference.encoded_data =
        rw (new, g.coded)
          (length-headed (length es) t reference.name ∙ sym (length-headed 0 t reference.name)) in
      record {
        encodable = g.encodable;
        coded = new;
        members = g.members;
        few = g.few;
        small = rw size g.small;
      }
