-- ===== src/Directory/Encode.antt =====
-- The directory table (src/directory.c): `need_new_dir_header`, and the loops of
-- `libsqfs_directory_encode` that build the on-disk entries and append them to the table.
use libsqfs.Prelude.{
  ℕ, ◌+◌, ◌-◌, ◌%◌, ◌^◌, Bool, true, false, Option, none, some, List, [], ◌∷◌, ◌++◌, ◌==◌, ◌||◌,
  not, length, drop, if◌then◌else◌, ltb,
}
use libsqfs.Prelude.Bytes.{le16, le32}
use libsqfs.Memory.{Memory, malloc}
use libsqfs.Metatable.Defs.{metadata_size}
use libsqfs.Directory.Entries.{DirEntry}

-- What the encoding reads of the inode that an entry points to.
pub record Target : Type 0 where
  pub block : ℕ
  pub offset : ℕ
  pub inode_number : ℕ
  pub base_type : ℕ

-- sizeof(struct squashfs_dir_entry) and sizeof(struct squashfs_dir_header)
abbrev pub dir_entry_size : ℕ
dir_entry_size = 8

abbrev pub dir_header_size : ℕ
dir_header_size = 12

-- `diff<-32768 || diff>32767` for the difference a - b
unfoldable pub is_far : ℕ → ℕ → Bool
is_far a b = ltb (a + 32768) b || ltb (b + 32767) a

-- `size_t` subtraction wraps.
abbrev pub sub_size : ℕ → ℕ → ℕ
sub_size a b = (a + 2 ^ 64 - b) % 2 ^ 64

-- libsqfs_directory_encode while it runs. The entries handled so far are `finished` and then `group`:
-- `group` is what stands behind the header coded last, and begins with `reference`.
pub record Encoder : Type 0 where
  pub finished : List DirEntry
  pub group : List DirEntry
  pub count : ℕ
  pub offset : ℕ
  pub serialno : ℕ
  pub indexed : List ℕ
  pub indexed_count : ℕ

-- No entry handled yet.
abbrev pub new_encoder : Encoder
new_encoder = record {
  finished = [];
  group = [];
  count = 0;
  offset = 0;
  serialno = 0;
  indexed = [];
  indexed_count = 0;
}

-- The header's count is the first field of its structure.
unfoldable pub set_count : ℕ → List DirEntry → List DirEntry
set_count count [] = []
set_count count (reference ∷ es) =
    record reference {
      encoded_data = le32 ((count + 2 ^ 32 - 1) % 2 ^ 32) ++ drop 4 reference.encoded_data;
    }
    ∷ es

-- The `squashfs_dir_header` of a group; its count is written when the group ends.
unfoldable pub dir_header : Target → List ℕ
dir_header t = le32 0 ++ (le32 t.block ++ le32 t.inode_number)

-- The `squashfs_dir_entry` of an entry, relative to the inode number of the group's header.
unfoldable pub dir_entry : ℕ → Target → List ℕ → List ℕ
dir_entry base t name =
    le16 t.offset
    ++ (le16 ((t.inode_number + 2 ^ 32 - base) % 2 ^ 32 % 2 ^ 16)
        ++ (le16 t.base_type ++ (le16 (sub_size (length name) 1 % 2 ^ 16) ++ name)))

abbrev first? : List DirEntry → Option DirEntry
first? [] = none
first? (e ∷ es) = some e

-- The entry with its place, and the size without a header that the decision is based on.
unfoldable pub placed : Encoder → DirEntry → DirEntry
placed st entry = record entry {
  serialno = st.serialno;
  offset = st.offset;
  encoded_size = dir_entry_size + length entry.name;
}

module _ (target : ℕ → Target) where
  unfoldable pub needs_header : DirEntry → Option DirEntry → Bool
  unfolding is_far
  needs_header entry none = true
  needs_header entry (some reference) =
      let t = target entry.inode in
      let r = target reference.inode in
      not (t.block == r.block)
      || (is_far t.inode_number r.inode_number
          || (ltb metadata_size (sub_size (entry.encoded_size + entry.offset) reference.offset)
              || ltb 255 (sub_size entry.serialno reference.serialno)))

  -- An entry behind a new header: the group so far gets its count.
  unfoldable pub start_group : Encoder → DirEntry → Encoder
  unfolding dir_header dir_entry set_count
  start_group st entry =
      let t = target entry.inode in
      let size = entry.encoded_size + dir_header_size in
      let coded = record entry {
        encoded_size = size;
        encoded_data = dir_header t ++ dir_entry t.inode_number t entry.name;
      } in
      record st {
        finished = st.finished ++ set_count st.count st.group;
        group = coded ∷ [];
        count = 1;
        offset = st.offset + size;
        serialno = st.serialno + 1;
        indexed = st.indexed ++ (entry.serialno ∷ []);
        indexed_count = st.indexed_count + 1;
      }

  -- An entry of the current group.
  unfoldable pub join_group : Encoder → DirEntry → DirEntry → Encoder
  unfolding dir_entry
  join_group st reference entry =
      let base = (target reference.inode).inode_number in
      let coded = record entry { encoded_data = dir_entry base (target entry.inode) entry.name } in
      record st {
        group = st.group ++ (coded ∷ []);
        count = (st.count + 1) % 2 ^ 32;
        offset = st.offset + entry.encoded_size;
        serialno = st.serialno + 1;
      }

  unfoldable pub encode_entry : Encoder → DirEntry → Encoder
  unfolding needs_header placed start_group join_group
  encode_entry st entry =
      let p = placed st entry in
      elim (first? st.group) [
        | none ↦ start_group st p
        | some reference ↦
            if needs_header p (some reference) then start_group st p else join_group st reference p
      ]

  -- The entry whose `malloc` returned NULL: its place and size are set.
  unfoldable refused_entry : Encoder → DirEntry → DirEntry
  unfolding needs_header placed
  refused_entry st entry =
      let p = placed st entry in
      let header = if needs_header p (first? st.group) then dir_header_size else 0 in
      record p { encoded_size = p.encoded_size + header; encoded_data = [] }

  -- `while(entry)`; a `malloc` for the entry's bytes that returns NULL ends it, with the entries left.
  unfoldable pub encode_entries :
      Memory → Encoder → List DirEntry → Bool × Memory × Encoder × List DirEntry
  unfolding encode_entry refused_entry
  encode_entries mem st [] = (true, mem, st, [])
  encode_entries mem st (entry ∷ entries) =
      let (got, mem') = malloc mem in
      let rest = encode_entries mem' (encode_entry st entry) entries in
      if got then rest else (false, mem', st, refused_entry st entry ∷ entries)

-- After the loop the last header gets its count.
unfoldable pub finish_groups : Encoder → List DirEntry
unfolding set_count
finish_groups st = st.finished ++ set_count st.count st.group
