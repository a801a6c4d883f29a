-- ===== src/Directory/Decode.antt =====
-- A reader of directory listings, after the structure of the directory table that the comment at the
-- top of src/directory.c gives, and what it makes of the groups that the library writes.
use libsqfs.Prelude.{
  ℕ, suc, zero, ◌+◌, ◌-◌, ◌%◌, ◌^◌, ◌<◌, ◌≡◌, refl, sym, ap₂, ◌∙◌, false, List, [], ◌∷◌, ◌++◌,
  length, drop, take, drop-append_length, take-append_length, All, map, if◌then◌else◌, ltb,
  append_assoc, arith,
}
use libsqfs.Prelude.Bytes.{le16, le_bytes, read_le, read_le-le_bytes}
use libsqfs.Directory.Entries.{DirEntry}
use libsqfs.Directory.Encode.{Target, is_far, dir_entry, sub_size}
use libsqfs.Directory.Groups.{coded_bytes, IsEncodable, IsMember}

-- What a listing says of an entry.
pub record Listed : Type 0 where
  pub name : List ℕ
  pub inode_number : ℕ
  pub block : ℕ
  pub offset : ℕ
  pub base_type : ℕ

-- The sum of an inode number and a signed number of 16 bits.
unfoldable add_signed : ℕ → ℕ → ℕ
add_signed base diff = (base + diff + (if ltb diff 32768 then 0 else 2 ^ 32 - 2 ^ 16)) % 2 ^ 32

-- One entry behind a header with `block` and the inode number `base`.
unfoldable pub decode_entry : (block base : ℕ) → List ℕ → Listed
unfolding read_le add_signed
decode_entry block base bytes = record {
  name = take (read_le 2 (drop 6 bytes) + 1) (drop 8 bytes);
  inode_number = add_signed base (read_le 2 (drop 2 bytes));
  block = block;
  offset = read_le 2 bytes;
  base_type = read_le 2 (drop 4 bytes);
}

unfoldable pub entry_rest : List ℕ → List ℕ
unfolding read_le
entry_rest bytes = drop (read_le 2 (drop 6 bytes) + 1) (drop 8 bytes)

-- `n` entries, and the bytes behind them.
unfoldable pub decode_entries : (n block base : ℕ) → List ℕ → List Listed × List ℕ
unfolding decode_entry entry_rest
decode_entries zero block base bytes = ([], bytes)
decode_entries (suc n) block base bytes =
    let (entries, rest) = decode_entries n block base (entry_rest bytes) in
    (decode_entry block base bytes ∷ entries, rest)

-- A listing: headers, each with its entries. A header takes a unit of fuel.
unfoldable pub decode_listing : ℕ → List ℕ → List Listed
unfolding read_le decode_entries
decode_listing zero bytes = []
decode_listing (suc fuel) [] = []
decode_listing (suc fuel) (b ∷ bs) =
    let bytes = b ∷ bs in
    let (entries, rest) =
      decode_entries (read_le 4 bytes + 1) (read_le 4 (drop 4 bytes)) (read_le 4 (drop 8 bytes))
        (drop 12 bytes) in
    entries ++ decode_listing fuel rest

-- What the listing of a directory is to say of an entry.
abbrev listed_target : Target → List ℕ → Listed
listed_target t name = record {
  name = name;
  inode_number = t.inode_number;
  block = t.block;
  offset = t.offset;
  base_type = t.base_type;
}

-- The 16 bits that are stored hold the difference of two inode numbers that are not far apart.
add_signed_near :
    (n base : ℕ)
    → n < 2 ^ 32
    → base < 2 ^ 32
    → is_far n base ≡ false
    → add_signed base ((n + 2 ^ 32 - base) % 2 ^ 32 % 2 ^ 16) ≡ n
unfolding add_signed is_far
add_signed_near n base h k far = ground arith

-- The four fields of an entry, and what follows each.
module _ (a b c d : ℕ) (name rest : List ℕ) where
  abbrev fields : List ℕ
  fields = (le16 a ++ (le16 b ++ (le16 c ++ (le16 d ++ name)))) ++ rest

  field_0 : fields ≡ le16 a ++ (le16 b ++ (le16 c ++ (le16 d ++ (name ++ rest))))
  unfolding le_bytes
  field_0 = refl

  field_1 : drop 2 fields ≡ le16 b ++ (le16 c ++ (le16 d ++ (name ++ rest)))
  unfolding le_bytes
  field_1 = refl

  field_2 : drop 4 fields ≡ le16 c ++ (le16 d ++ (name ++ rest))
  unfolding le_bytes
  field_2 = refl

  field_3 : drop 6 fields ≡ le16 d ++ (name ++ rest)
  unfolding le_bytes
  field_3 = refl

  field_4 : drop 8 fields ≡ name ++ rest
  unfolding le_bytes
  field_4 = refl

  -- The fields read back.
  decode_fields :
      (block base : ℕ)
      → a < 2 ^ 16
      → b < 2 ^ 16
      → c < 2 ^ 16
      → d < 2 ^ 16
      → length name ≡ d + 1
      → (decode_entry block base fields
          ≡ listed_target
              (record {
                block = block;
                offset = a;
                inode_number = add_signed base b;
                base_type = c;
              })
              name)
        × (entry_rest fields ≡ rest)
  unfolding decode_entry entry_rest
  decode_fields block base ha hb hc hd size =
      let fa : read_le 2 fields ≡ a = rw field_0 (read_le-le_bytes 2 a _ ha) in
      let fb : read_le 2 (drop 2 fields) ≡ b = rw field_1 (read_le-le_bytes 2 b _ hb) in
      let fc : read_le 2 (drop 4 fields) ≡ c = rw field_2 (read_le-le_bytes 2 c _ hc) in
      let fd : read_le 2 (drop 6 fields) ≡ d = rw field_3 (read_le-le_bytes 2 d _ hd) in
      let taken : take (d + 1) (drop 8 fields) ≡ name =
        rw (field_4, sym size) (take-append_length name rest) in
      let dropped : drop (d + 1) (drop 8 fields) ≡ rest =
        rw (field_4, sym size) (drop-append_length name rest) in
      (rw (fa, fb, fc, fd, taken) refl, rw (fd, dropped) refl)

module _ (base block : ℕ) (t : Target) (name rest : List ℕ) (fits : IsEncodable t name) where
  pub dir_entry-decodes :
      t.block ≡ block
      → base < 2 ^ 32
      → is_far t.inode_number base ≡ false
      → (decode_entry block base (dir_entry base t name ++ rest) ≡ listed_target t name)
        × (entry_rest (dir_entry base t name ++ rest) ≡ rest)
  unfolding dir_entry
  dir_entry-decodes b k far =
      let size : length name ≡ sub_size (length name) 1 % 2 ^ 16 + 1 =
        omega (arith, fits.named, fits.short) in
      let number = add_signed_near t.inode_number base fits.number_fits k far in
      let d =
        decode_fields t.offset ((t.inode_number + 2 ^ 32 - base) % 2 ^ 32 % 2 ^ 16) t.base_type
          (sub_size (length name) 1 % 2 ^ 16) name rest block base fits.offset_fits (omega arith)
          fits.type_fits (omega arith) size in
      (
        d.0
            ∙ ap₂ (λ bl n. listed_target (record t { block = bl; inode_number = n }) name) (sym b)
                number,
        d.1,
      )

module _ (target : ℕ → Target) where
  abbrev pub listed : DirEntry → Listed
  listed e = listed_target (target e.inode) e.name

  -- The entries of a group behind its first.
  pub members-decode :
      (r : Target) (es : List DirEntry) (rest : List ℕ)
      → r.inode_number < 2 ^ 32
      → All (IsMember target r) es
      → decode_entries (length es) r.block r.inode_number (coded_bytes es ++ rest)
        ≡ (map listed es, rest)
  unfolding decode_entries
  members-decode r [] rest k h = refl
  members-decode r (e ∷ es) rest k (m, h) =
      let t = target e.inode in
      let tail = coded_bytes es ++ rest in
      let bytes : (e.encoded_data ++ coded_bytes es) ++ rest
          ≡ dir_entry r.inode_number t e.name ++ tail =
        rw m.coded (append_assoc (dir_entry r.inode_number t e.name) (coded_bytes es) rest) in
      let d =
        dir_entry-decodes r.inode_number r.block t e.name tail m.encodable m.same_block k m.near in
      rw (bytes, d.0, d.1, members-decode r es rest k h) refl
