-- ===== src/Xattrs/Defs.antt =====
-- Extended attributes and sets of them: how they are created, and stored in the two tables of an image
-- (src/xattrs.h, src/xattrs.c).
use Prim.Native.Nat.{bit_or}
use libsqfs.Prelude.{
  ℕ, ◌+◌, ◌*◌, ◌%◌, ◌^◌, Bool, true, false, Option, none, some, List, [], ◌∷◌, ◌++◌, ◌==◌, ◌&&◌,
  leb, length, drop, if◌then◌else◌,
}
use libsqfs.Prelude.Fields.{Fields, encode_fields}
use libsqfs.Memory.{Memory, malloc}
use libsqfs.Metatable.Defs as Metatable
use libsqfs.Metatable.Defs.{Metatable, Entry, append, position}

-- An element of `xattr_domains`.
pub record Domain : Type 0 where
  pub prefix : List ℕ
  pub code : ℕ

-- "user.", "trusted." and "security."
abbrev xattr_domains : List Domain
xattr_domains =
    record { prefix = b'u' ∷ b's' ∷ b'e' ∷ b'r' ∷ b'.' ∷ []; code = 0 }
    ∷ record { prefix = b't' ∷ b'r' ∷ b'u' ∷ b's' ∷ b't' ∷ b'e' ∷ b'd' ∷ b'.' ∷ []; code = 1 }
    ∷ record {
      prefix = b's' ∷ b'e' ∷ b'c' ∷ b'u' ∷ b'r' ∷ b'i' ∷ b't' ∷ b'y' ∷ b'.' ∷ [];
      code = 2;
    }
    ∷ []

-- `tolower` in the C locale, as `strncasecmp` applies it.
abbrev to_lower : ℕ → ℕ
to_lower c = if leb b'A' c && leb c b'Z' then c + 32 else c

-- strncasecmp(name, prefix, prefix_len) == 0
unfoldable pub has_prefix : List ℕ → List ℕ → Bool
has_prefix [] name = true
has_prefix (p ∷ ps) [] = false
has_prefix (p ∷ ps) (c ∷ cs) = (to_lower c == to_lower p) && has_prefix ps cs

unfoldable pub classify : List Domain → List ℕ → Option Domain
unfolding has_prefix
classify [] name = none
classify (d ∷ ds) name =
    let rest = classify ds name in if has_prefix d.prefix name then some d else rest

-- classify_xattr_domain
abbrev pub classify_xattr_domain : List ℕ → Option Domain
classify_xattr_domain = classify xattr_domains

-- A `libsqfs_xattr`; `suffix_length` and `value_length` are the lengths of the lists.
pub record Xattr : Type 0 where
  pub name : List ℕ
  pub suffix : List ℕ
  pub domain : ℕ
  pub value : List ℕ

pub record XattrSet : Type 0 where
  pub attrs : List Xattr
  pub id : ℕ
  pub stored_pos : Entry
  pub stored_size : ℕ

-- `xattrs` and `xattrsets` are the lists from `first` to `last`.
pub record XattrTable : Type 0 where
  pub xattrs : List Xattr
  pub xattrsets : List XattrSet
  pub nids : ℕ
  pub offset : ℕ
  pub xattr_data : Metatable
  pub xattr_descriptors : Metatable

-- libsqfs_xattr_table_init, which sets no `offset`; both tables are made without a compressor.
unfoldable pub init : (offset : ℕ) → XattrTable
unfolding Metatable.init
init offset = record {
  xattrs = [];
  xattrsets = [];
  nids = 0;
  offset = offset;
  xattr_data = Metatable.init none;
  xattr_descriptors = Metatable.init none;
}

abbrev new_xattr : List ℕ → Domain → List ℕ → Xattr
new_xattr name dom value = record {
  name = name;
  suffix = drop (length dom.prefix) name;
  domain = dom.code;
  value = value;
}

-- libsqfs_xattr_create
unfoldable pub xattr_create :
    Memory → XattrTable → List ℕ → List ℕ → Option Xattr × Memory × XattrTable
unfolding classify
xattr_create mem tab name value = elim (classify_xattr_domain name) [
  | none ↦ (none, mem, tab)
  | some dom ↦
      let xattr = new_xattr name dom value in
      let (got, mem') = malloc mem in
      let (got_name, mem'') = malloc mem' in
      let (got_value, mem''') = malloc mem'' in
      if got
      then (if got_name
          then (if got_value
              then (some xattr, mem''', record tab { xattrs = tab.xattrs ++ (xattr ∷ []) })
              else (none, mem''', tab))
          else (none, mem'', tab))
      else (none, mem', tab)
]

-- A `squashfs_xattr_entry`, whose fields have 16 bits each.
abbrev pub entry_fields : Xattr → Fields
entry_fields x = (2, x.domain) ∷ (2, length x.suffix) ∷ []

-- A `squashfs_xattr_val`.
abbrev pub val_fields : Xattr → Fields
val_fields x = (4, length x.value) ∷ []

-- Calls of `libsqfs_metatable_append` up to the first that fails.
unfoldable pub append_all : Memory → Metatable → List (List ℕ) → Bool × Memory × Metatable
unfolding append
append_all mem tab [] = (true, mem, tab)
append_all mem tab (part ∷ parts) =
    let (ok, mem', tab') = append mem tab part in
    let rest = append_all mem' tab' parts in if ok then rest else (false, mem', tab')

-- The loop of `libsqfs_xattrset_serialize_data` over the attributes that are left.
unfoldable pub serialize_attrs :
    Memory
    → Metatable
    → XattrSet
    → (first : Bool) → List Xattr
    → Bool × Memory × Metatable × XattrSet
unfolding append append_all position encode_fields
serialize_attrs mem tab set first [] = (true, mem, tab, set)
serialize_attrs mem tab set first (x ∷ xs) =
    let (ok, mem', tab') = append mem tab (encode_fields (entry_fields x)) in
    let placed = record set { stored_pos = if first then position tab else set.stored_pos } in
    let (ok', mem'', tab'') =
      append_all mem' tab' (x.suffix ∷ encode_fields (val_fields x) ∷ x.value ∷ []) in
    let sized = record placed {
      stored_size = set.stored_size + (4 + length x.suffix + 4 + length x.value);
    } in
    let rest = serialize_attrs mem'' tab'' sized false xs in
    if ok then (if ok' then rest else (false, mem'', tab'', placed)) else (false, mem', tab', set)

-- `stored_pos.block << 16ULL` is computed in the type of its left operand, which has 32 bits.
unfoldable pub descriptor_reference : Entry → ℕ
descriptor_reference pos = bit_or (pos.block * 2 ^ 16 % 2 ^ 32) pos.offset

-- A `squashfs_xattr_id`.
abbrev pub descriptor_fields : XattrSet → Fields
descriptor_fields set =
    (8, descriptor_reference set.stored_pos) ∷ (4, length set.attrs) ∷ (4, set.stored_size) ∷ []

-- libsqfs_xattrset_serialize_data; the set comes back changed.
unfoldable pub serialize_data :
    Memory → XattrTable → XattrSet → Bool × Memory × XattrTable × XattrSet
unfolding serialize_attrs append encode_fields descriptor_reference
serialize_data mem tab set =
    let (ok, mem', stored, set') =
      serialize_attrs mem tab.xattr_data (record set { stored_size = 0 }) true set.attrs in
    let (ok', mem'', descriptors) =
      append mem' tab.xattr_descriptors (encode_fields (descriptor_fields set')) in
    let tab' = record tab { xattr_data = stored } in
    if ok
    then (ok', mem'', record tab' { xattr_descriptors = descriptors }, set')
    else (false, mem', tab', set')

-- libsqfs_xattrset_create. `stored_pos` is what the fresh storage holds; the set stays in the list, and its
-- number is used up, also where storing it fails.
unfoldable pub xattrset_create :
    Memory → XattrTable → (stored_pos : Entry) → List Xattr → Option XattrSet × Memory × XattrTable
unfolding serialize_data
xattrset_create mem tab stored_pos attrs =
    let (got, mem') = malloc mem in
    let (got_attrs, mem'') = malloc mem' in
    let set : XattrSet = record {
      attrs = attrs;
      id = tab.nids;
      stored_pos = stored_pos;
      stored_size = 0;
    } in
    let (ok, mem''', stored, set') =
      serialize_data mem'' (record tab { nids = tab.nids + 1 }) set in
    let tab' = record stored { xattrsets = tab.xattrsets ++ (set' ∷ []) } in
    if got
    then (if got_attrs
        then ((if ok then some set' else none), mem''', tab')
        else (none, mem'', tab))
    else (none, mem', tab)
