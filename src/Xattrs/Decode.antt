-- ===== src/Xattrs/Decode.antt =====
-- A reader of stored attributes, and that it gets them back (src/xattrs.c).
use libsqfs.Prelude.{
  ℕ, zero, suc, ◌^◌, ◌<◌, ◌≡◌, ◌∙◌, refl, ap, sym, List, [], ◌∷◌, ◌++◌, map, append_assoc, length,
  take, drop, drop_add, take-append_length, drop-append_length, All,
}
use libsqfs.Prelude.Bytes.{read_le, le_bytes, length-le_bytes, read_le-le_bytes}
use libsqfs.Prelude.Fields.{encode_fields}
use libsqfs.Xattrs.Defs.{Xattr, entry_fields, val_fields}

-- What a reader gets of an attribute.
pub record Found : Type 0 where
  pub domain : ℕ
  pub suffix : List ℕ
  pub value : List ℕ

abbrev pub found : Xattr → Found
found x = record { domain = x.domain; suffix = x.suffix; value = x.value }

-- The bytes that are stored for an attribute.
abbrev pub attr_bytes : Xattr → List ℕ
attr_bytes x =
    encode_fields (entry_fields x) ++ (x.suffix ++ (encode_fields (val_fields x) ++ x.value))

abbrev pub attrs_bytes : List Xattr → List ℕ
attrs_bytes [] = []
attrs_bytes (x ∷ xs) = attr_bytes x ++ attrs_bytes xs

-- The sizes that the fields can hold.
abbrev pub AttrFits : Xattr → Type 0
AttrFits x = (x.domain < 2 ^ 16) × (length x.suffix < 2 ^ 16) × (length x.value < 2 ^ 32)

-- A reader of `n` attributes.
pub read_attrs : ℕ → List ℕ → List Found
read_attrs zero bytes = []
read_attrs (suc n) bytes =
    let size = read_le 2 (drop 2 bytes) in
    let behind = drop 4 bytes in
    let tail = drop size behind in
    let vsize = read_le 4 tail in
    let contents = drop 4 tail in
    record { domain = read_le 2 bytes; suffix = take size behind; value = take vsize contents }
    ∷ read_attrs n (drop vsize contents)

drop_bytes : (n v : ℕ) (rest : List ℕ) → drop n (le_bytes n v ++ rest) ≡ rest
drop_bytes n v rest =
    ap (λ k. drop k (le_bytes n v ++ rest)) (sym (length-le_bytes n v))
    ∙ drop-append_length (le_bytes n v) rest

module _ (x : Xattr) (rest : List ℕ) where
  abbrev value_part : List ℕ
  value_part = le_bytes 4 (length x.value) ++ (x.value ++ rest)

  abbrev name_part : List ℕ
  name_part = le_bytes 2 (length x.suffix) ++ (x.suffix ++ value_part)

  -- The layout, bracketed as the reader takes it apart.
  attr_layout : attr_bytes x ++ rest ≡ le_bytes 2 x.domain ++ name_part
  unfolding encode_fields
  attr_layout = simp (append_assoc)

pub read_attrs-attrs_bytes :
    (xs : List Xattr) (rest : List ℕ)
    → All AttrFits xs
    → read_attrs (length xs) (attrs_bytes xs ++ rest) ≡ map found xs
unfolding read_attrs
read_attrs-attrs_bytes [] rest h = refl
read_attrs-attrs_bytes (x ∷ xs) rest ((d, s, v), h) =
    let later = attrs_bytes xs ++ rest in
    let layout : (attr_bytes x ++ attrs_bytes xs) ++ rest
        ≡ le_bytes 2 x.domain ++ name_part x later =
      append_assoc (attr_bytes x) (attrs_bytes xs) rest ∙ attr_layout x later in
    let skip_entry : drop 4 (le_bytes 2 x.domain ++ name_part x later)
        ≡ x.suffix ++ value_part x later =
      drop_add 2 2 (le_bytes 2 x.domain ++ name_part x later)
      ∙ (ap (drop 2) (drop_bytes 2 x.domain (name_part x later))
          ∙ drop_bytes 2 (length x.suffix) (x.suffix ++ value_part x later)) in
    rw (
      layout,
      skip_entry,
      drop_bytes 2 x.domain (name_part x later),
      read_le-le_bytes 2 x.domain (name_part x later) d,
      read_le-le_bytes 2 (length x.suffix) (x.suffix ++ value_part x later) s,
      take-append_length x.suffix (value_part x later),
      drop-append_length x.suffix (value_part x later),
      read_le-le_bytes 4 (length x.value) (x.value ++ later) v,
      drop_bytes 4 (length x.value) (x.value ++ later),
      take-append_length x.value later,
      drop-append_length x.value later,
      read_attrs-attrs_bytes xs rest h,
    )
