-- ===== src/Inode/Reader.antt =====
-- A reader of the inode table: it takes the structure by the type that the first field holds
-- (src/squashfs_fs.h).
use libsqfs.Prelude.{
  ℕ, ◌^◌, ◌<◌, ◌≡◌, sym, ap, ◌∙◌, true, Option, none, some, List, [], ◌∷◌, ◌++◌, ◌==◌, append_assoc,
  All-append, if◌then◌else◌, arith,
}
use libsqfs.Prelude.Bytes.{le_bytes, read_le, read_le-le_bytes}
use libsqfs.Prelude.Fields.{
  Fields, encode_fields, read_fields, widths, values, Fit, read_fields-encode_fields,
}
use libsqfs.Memory.{Memory}
use libsqfs.Metatable.Defs.{Metatable, u32_mod, flush}
use libsqfs.Metatable.Invariant.{IsValid, stored_size}
use libsqfs.Metatable.Stream.{IsCodecOf, Extends, Extends-trans}
use libsqfs.Metatable.Append.{append-Outcome, append-Extends}
use libsqfs.Metatable.OnDisk.{encode}
use libsqfs.Metatable.Reader.{resolve, resolve-Extends}
use libsqfs.Inode.Defs.{Inode, common_fields, xattr_field, store_header}

-- The widths of the fields behind the inode number.
abbrev pub own_layout : ℕ → List ℕ
own_layout type =
    if type == 1
    then 4 ∷ 4 ∷ 2 ∷ 2 ∷ 4 ∷ []
    else if type == 2
    then 4 ∷ 4 ∷ 4 ∷ 4 ∷ []
    else if type == 3
    then 4 ∷ 4 ∷ []
    else if type == 4
    then 4 ∷ 4 ∷ []
    else if type == 5
    then 4 ∷ 4 ∷ []
    else if type == 6
    then 4 ∷ []
    else if type == 8
    then 4 ∷ 4 ∷ 4 ∷ 4 ∷ 2 ∷ 2 ∷ 4 ∷ []
    else if type == 9
    then 8 ∷ 8 ∷ 8 ∷ 4 ∷ 4 ∷ 4 ∷ 4 ∷ []
    else if type == 11
    then 4 ∷ 4 ∷ 4 ∷ []
    else if type == 12
    then 4 ∷ 4 ∷ 4 ∷ []
    else if type == 13
    then 4 ∷ 4 ∷ []
    else []

abbrev pub layout : ℕ → List ℕ
layout type = 2 ∷ 2 ∷ 2 ∷ 2 ∷ 4 ∷ 4 ∷ own_layout type

unfoldable pub read_inode : List ℕ → List ℕ
unfolding read_le read_fields
read_inode bytes = read_fields (layout (read_le 2 bytes)) bytes

-- A structure whose fields stand where the reader expects them is read as it was meant.
read_inode-encode_fields :
    (type : ℕ) (fs : Fields) (rest : List ℕ)
    → Fit ((2, type) ∷ fs)
    → widths ((2, type) ∷ fs) ≡ layout type
    → read_inode (encode_fields ((2, type) ∷ fs) ++ rest) ≡ values ((2, type) ∷ fs)
unfolding read_inode encode_fields
read_inode-encode_fields type fs rest fits same =
    let first : read_le 2 (encode_fields ((2, type) ∷ fs) ++ rest) ≡ type =
      rw (append_assoc (le_bytes 2 type) (encode_fields fs) rest)
        (read_le-le_bytes 2 type (encode_fields fs ++ rest) fits.0) in
    let bytes = encode_fields ((2, type) ∷ fs) ++ rest in
    ap (λ t. read_fields (layout t) bytes) first
    ∙ (ap (λ ws. read_fields ws bytes) (sym same)
        ∙ read_fields-encode_fields ((2, type) ∷ fs) rest fits)

-- What the fields of all structures have to hold.
pub record IsSmall (inode : Inode) : Type 0 where
  pub mode_fits : inode.attr.mode < 2 ^ 16
  pub uid_fits : inode.attr.mapped_uid < 2 ^ 16
  pub gid_fits : inode.attr.mapped_gid < 2 ^ 16
  pub ctime_fits : inode.attr.ctime < 2 ^ 32
  pub number_fits : inode.inode_number < 2 ^ 32
  pub nlink_fits : inode.nlink < 2 ^ 32

abbrev pub XattrFits : Option ℕ → Type 0
XattrFits none = Unit
XattrFits (some id) = id < 2 ^ 32

pub xattr_field-fits : (o : Option ℕ) → XattrFits o → xattr_field o < 2 ^ 32
xattr_field-fits none h = omega arith
xattr_field-fits (some id) h = omega (arith, h)

-- The values of the fields that all structures begin with.
abbrev pub common_values : Inode → List ℕ
common_values inode = values (common_fields inode)

-- A successful store, in the table that later stores made of it.
module _ (expand : List ℕ → List ℕ) where
  pub store_header-Extends :
      (mem : Memory) (tab : Metatable) (inode : Inode) (fs : Fields)
      → IsCodecOf tab.compressor expand
      → IsValid tab
      → let (ok, _, tab', _) = store_header mem tab inode fs in
        ok ≡ true → IsValid tab' × Extends expand tab (encode_fields fs) tab'
  unfolding store_header
  store_header-Extends mem tab inode fs codec v ok = (
    (append-Outcome expand mem tab (encode_fields fs) codec v).valid,
    append-Extends expand mem tab (encode_fields fs) codec v ok,
  )

  pub store_header-resolve :
      (mem : Memory) (tab tab'' : Metatable) (inode : Inode) (fs : Fields) (later : List ℕ)
      → IsCodecOf tab.compressor expand
      → IsValid tab
      → IsValid tab''
      → let (ok, _, tab', stored) = store_header mem tab inode fs in
        ok ≡ true
        → Extends expand tab' later tab''
        → stored_size (flush tab'').blocks < u32_mod
        → resolve expand (encode (flush tab'').blocks) stored.inode_table_entry
          ≡ encode_fields fs ++ later
  unfolding store_header
  store_header-resolve mem tab tab'' inode fs later codec v v'' ok x small =
      resolve-Extends expand tab tab'' (encode_fields fs ++ later) codec v v''
        (Extends-trans expand (append-Extends expand mem tab (encode_fields fs) codec v ok) x) small

  common_fields-Fit :
      (inode : Inode) → IsSmall inode → inode.encoded_type < 2 ^ 16 → Fit (common_fields inode)
  common_fields-Fit inode h t = (
    omega (arith, t),
    (
      omega (arith, h.mode_fits),
      (
        omega (arith, h.uid_fits),
        (
          omega (arith, h.gid_fits),
          (omega (arith, h.ctime_fits), (omega (arith, h.number_fits), tt)),
        ),
      ),
    ),
  )

  -- A stored structure with `own` behind the common fields is read as it was meant.
  pub store_header-reads :
      (mem : Memory) (tab tab'' : Metatable) (inode : Inode) (own : Fields) (later : List ℕ)
      → IsCodecOf tab.compressor expand
      → IsValid tab
      → IsValid tab''
      → IsSmall inode
      → inode.encoded_type < 2 ^ 16
      → Fit own
      → widths own ≡ own_layout inode.encoded_type
      → let (ok, _, tab', stored) = store_header mem tab inode (common_fields inode ++ own) in
        ok ≡ true
        → Extends expand tab' later tab''
        → stored_size (flush tab'').blocks < u32_mod
        → read_inode (resolve expand (encode (flush tab'').blocks) stored.inode_table_entry)
          ≡ common_values inode ++ values own
  store_header-reads mem tab tab'' inode own later codec v v'' small t fit same ok x bound =
      rw
        (store_header-resolve mem tab tab'' inode (common_fields inode ++ own) later codec v v'' ok
          x bound)
        (read_inode-encode_fields inode.encoded_type _ later
          (All-append (λ f. f.1 < 256 ^ f.0) (common_fields inode) own
            (common_fields-Fit inode small t) fit)
          (ap (λ ws. 2 ∷ 2 ∷ 2 ∷ 2 ∷ 4 ∷ 4 ∷ ws) same))
