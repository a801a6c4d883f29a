-- ===== src/Xattrs/Sets.antt =====
-- What `libsqfs_xattrset_create` (src/xattrs.c) leaves in the two tables, and a reader of them.
use libsqfs.Prelude.{
  ℕ, ◌+◌, ◌*◌, ◌%◌, ◌^◌, ◌<◌, ◌≡◌, ◌∙◌, inl, inr, refl, ap, sym, true, some, List, [], ◌∷◌, ◌++◌,
  map, append-nil, length, drop, drop-append_length, length-append, All, Bool-cases, arith,
}
use libsqfs.Prelude.Bits.{bit_or_fields, bit_or_comm}
use libsqfs.Prelude.Fields.{
  encode_fields, read_fields, Fit, length-encode_fields, read_fields-encode_fields,
}
use libsqfs.Memory.{Memory, malloc}
use libsqfs.Output.{Destination, Output, IsFile, off_mod}
use libsqfs.Metatable.Defs.{u32_mod, Metatable, Entry, append, flush, position}
use libsqfs.Metatable.Invariant.{IsValid, stored_size}
use libsqfs.Metatable.Stream.{IsCodecOf, Extends, Extends-trans, stream, stream-Extends}
use libsqfs.Metatable.Write.{write}
use libsqfs.Metatable.Reader.{resolve, write-resolve}
use libsqfs.Xattrs.Defs.{
  Xattr, XattrSet, XattrTable, serialize_attrs, descriptor_reference, descriptor_fields,
  serialize_data, xattrset_create,
}
use libsqfs.Xattrs.Decode.{found, attrs_bytes, AttrFits, read_attrs, read_attrs-attrs_bytes}
use libsqfs.Xattrs.Stored.{Grows, append-Grows, Serialized, serialize_attrs-Serialized}

-- Both tables are valid.
pub record IsSound (expand : List ℕ → List ℕ) (tab : XattrTable) : Type 0 where
  pub valid_data : IsValid tab.xattr_data
  pub valid_descriptors : IsValid tab.xattr_descriptors
  pub codec_data : IsCodecOf tab.xattr_data.compressor expand
  pub codec_descriptors : IsCodecOf tab.xattr_descriptors.compressor expand

abbrev fresh_set : XattrTable → Entry → List Xattr → XattrSet
fresh_set tab pos attrs = record { attrs = attrs; id = tab.nids; stored_pos = pos; stored_size = 0 }

-- How a call that created a set has changed the tables.
record Created (expand : List ℕ → List ℕ) (tab : XattrTable) (pos : Entry) (attrs : List Xattr)
    (tab' : XattrTable) (set : XattrSet) : Type 0 where
  serialized :
      Serialized expand tab.xattr_data (fresh_set tab pos attrs) true attrs tab'.xattr_data set
  described :
      Grows expand tab.xattr_descriptors
        (encode_fields (descriptor_fields set))
        tab'.xattr_descriptors
  counted : tab'.nids ≡ tab.nids + 1

serialize_data_done :
    (mem : Memory) (tab : XattrTable) (set : XattrSet)
    → (serialize_data mem tab set).0 ≡ true
    → let (ok, mem', stored, set') =
        serialize_attrs mem tab.xattr_data (record set { stored_size = 0 }) true set.attrs in
      let (ok', _, descriptors) =
        append mem' tab.xattr_descriptors (encode_fields (descriptor_fields set')) in
      (ok ≡ true)
      × (ok' ≡ true)
      × ((serialize_data mem tab set).2
          ≡ record tab { xattr_data = stored; xattr_descriptors = descriptors })
      × ((serialize_data mem tab set).3 ≡ set')
unfolding serialize_data
serialize_data_done mem tab set done =
    let one = serialize_attrs mem tab.xattr_data (record set { stored_size = 0 }) true set.attrs in
    elim (Bool-cases one.0) [
      | inr failed ↦ absurd (ground (arith, done, failed))
      | inl ok ↦ (ok, ground (arith, done, ok), ground (arith, ok), ground (arith, ok))
    ]

create_done :
    (mem : Memory) (tab : XattrTable) (pos : Entry) (attrs : List Xattr) (set : XattrSet)
    → (xattrset_create mem tab pos attrs).0 ≡ some set
    → let mem'' = (malloc (malloc mem).1).1 in
      let r = serialize_data mem'' (record tab { nids = tab.nids + 1 }) (fresh_set tab pos attrs) in
      (r.0 ≡ true)
      × (r.3 ≡ set)
      × ((xattrset_create mem tab pos attrs).2
          ≡ record r.2 { xattrsets = tab.xattrsets ++ (r.3 ∷ []) })
unfolding xattrset_create
create_done mem tab pos attrs set done = elim (Bool-cases (mem.grant mem.calls)) [
  | inr e ↦ absurd (ground (arith, done, e))
  | inl e ↦ elim (Bool-cases (mem.grant (mem.calls + 1))) [
    | inr f ↦ absurd (ground (arith, done, e, f))
    | inl f ↦ (ground (arith, done, e, f), ground (arith, done, e, f), ground (arith, e, f))
  ]
]

-- The reference, where no bit of the block's place is lost.
descriptor_reference_lem :
    (pos : Entry)
    → pos.block < 2 ^ 16
    → pos.offset < 2 ^ 16
    → descriptor_reference pos ≡ pos.offset + pos.block * 2 ^ 16
unfolding descriptor_reference
descriptor_reference_lem pos near low =
    let kept : pos.block * 2 ^ 16 % 2 ^ 32 ≡ pos.block * 2 ^ 16 = omega arith in
    rw kept
      (bit_or_comm (pos.block * 2 ^ 16) pos.offset ∙ bit_or_fields 16 pos.offset pos.block low)

module _ (expand : List ℕ → List ℕ) where
  create-Created :
      (mem : Memory) (tab : XattrTable) (pos : Entry) (attrs : List Xattr) (set : XattrSet)
      → IsSound expand tab
      → let (created, _, tab') = xattrset_create mem tab pos attrs in
        created ≡ some set → Created expand tab pos attrs tab' set
  create-Created mem tab pos attrs set s done =
      let mem'' = (malloc (malloc mem).1).1 in
      let counted = record tab { nids = tab.nids + 1 } in
      let fresh = fresh_set tab pos attrs in
      let (ok, same, after) = create_done mem tab pos attrs set done in
      let (stored, described, tables, set') = serialize_data_done mem'' counted fresh ok in
      let one = serialize_attrs mem'' tab.xattr_data fresh true attrs in
      let last : one.3 ≡ set = sym set' ∙ same in
      let descriptor = encode_fields (descriptor_fields one.3) in
      rw (after, tables, ← last)
        (record {
          serialized =
              serialize_attrs-Serialized expand mem'' tab.xattr_data fresh true attrs s.codec_data
                s.valid_data stored;
          described =
              append-Grows expand one.1 tab.xattr_descriptors descriptor s.codec_descriptors
                s.valid_descriptors described;
          counted = refl;
        })

  -- A call that created a set leaves both tables valid.
  pub create-IsSound :
      (mem : Memory) (tab : XattrTable) (pos : Entry) (attrs : List Xattr) (set : XattrSet)
      → IsSound expand tab
      → let (created, _, tab') = xattrset_create mem tab pos attrs in
        created ≡ some set → IsSound expand tab'
  create-IsSound mem tab pos attrs set s done =
      let c = create-Created mem tab pos attrs set s done in
      record {
        valid_data = c.serialized.grows.valid;
        valid_descriptors = c.described.valid;
        codec_data = c.serialized.grows.codec;
        codec_descriptors = c.described.codec;
      }

  -- A set of attributes was created, the table of the data was filled further, and written. A reader that goes
  -- where the set's data begin finds its attributes in their order, each with its domain, the name behind
  -- the domain's prefix, and the value.
  pub xattrset_create-reads :
      {Disk : Type 0} (dst : Destination Disk) (read : Disk → ℕ → ℕ → List ℕ) (mem : Memory)
      (tab : XattrTable) (pos : Entry) (x : Xattr) (xs : List Xattr) (set : XattrSet)
      (later : List ℕ) (last : Metatable) (out : Output Disk)
      → IsFile dst read
      → IsSound expand tab
      → All AttrFits (x ∷ xs)
      → let (created, _, tab') = xattrset_create mem tab pos (x ∷ xs) in
        created ≡ some set
        → Extends expand tab'.xattr_data later last
        → IsValid last
        → let (done, written, out') = write dst last out in
          done ≡ true
          → stored_size (flush last).blocks < u32_mod
          → out.size + stored_size (flush last).blocks < off_mod
          → read_attrs
              (length set.attrs)
              (resolve expand (read out'.disk written.offset written.size) set.stored_pos)
            ≡ map found (x ∷ xs)
  xattrset_create-reads dst read mem tab pos x xs set later last out file s fit created more v done
        small fits =
      let c = create-Created mem tab pos (x ∷ xs) set s created in
      let place = c.serialized.placed refl (omega arith) in
      let stored =
        write-resolve expand dst read tab.xattr_data last (attrs_bytes (x ∷ xs) ++ later) out file
          s.codec_data s.valid_data v (Extends-trans expand c.serialized.grows.extends more) done
          small fits in
      rw (place, stored, c.serialized.same_attrs) (read_attrs-attrs_bytes (x ∷ xs) later fit)

  -- The table of the descriptors holds one for each number given.
  abbrev pub IsNumbered : XattrTable → Type 0
  IsNumbered tab = length (stream expand tab.xattr_descriptors) ≡ 16 * tab.nids

  -- A set of attributes was created. Its number is the place of its descriptor in the table of the descriptors,
  -- which then still holds one for each number; the descriptor has the number and the size of the
  -- attributes, and their place in the table of the data: the block, where that begins below 64 KiB, and the
  -- offset in it.
  pub xattrset_create-describes :
      (mem : Memory) (tab : XattrTable) (pos : Entry) (x : Xattr) (xs : List Xattr) (set : XattrSet)
      → IsSound expand tab
      → IsNumbered tab
      → length (x ∷ xs) < 2 ^ 32
      → length (attrs_bytes (x ∷ xs)) < 2 ^ 32
      → tab.xattr_data.size < 2 ^ 16
      → let (created, _, tab') = xattrset_create mem tab pos (x ∷ xs) in
        created ≡ some set
        → IsNumbered tab'
          × (read_fields
                (8 ∷ 4 ∷ 4 ∷ [])
                (drop (16 * set.id) (stream expand tab'.xattr_descriptors))
              ≡ (tab.xattr_data.opened_block_fill + tab.xattr_data.size * 2 ^ 16)
                ∷ length (x ∷ xs)
                ∷ length (attrs_bytes (x ∷ xs))
                ∷ [])
          × (set.stored_pos ≡ position tab.xattr_data)
  unfolding position
  xattrset_create-describes mem tab pos x xs set s numbered few short near created =
      let tab' = (xattrset_create mem tab pos (x ∷ xs)).2 in
      let c = create-Created mem tab pos (x ∷ xs) set s created in
      let place = c.serialized.placed refl (omega arith) in
      let fields = descriptor_fields set in
      let before = stream expand tab.xattr_descriptors in
      let grown = stream-Extends expand c.described.extends in
      let reference =
        descriptor_reference_lem (position tab.xattr_data) near
          (omega (arith, s.valid_data.has_room)) in
      let same : 16 * set.id ≡ length before = omega (arith, c.serialized.same_id, numbered) in
      let sized : set.stored_size ≡ length (attrs_bytes (x ∷ xs)) =
        omega (arith, c.serialized.sized) in
      let size = length-encode_fields fields in
      let fit : Fit fields =
        rw (place, reference, sized, c.serialized.same_attrs)
          (omega (arith, near, s.valid_data.has_room), (few, (short, tt))) in
      (
        omega (
          arith,
          numbered,
          c.counted,
          ap (length {A = ℕ}) grown,
          length-append before (encode_fields fields),
          size,
        ),
        ap (λ (l : List ℕ). read_fields (8 ∷ 4 ∷ 4 ∷ []) (drop (16 * set.id) l)) grown
            ∙ (ap (λ k. read_fields (8 ∷ 4 ∷ 4 ∷ []) (drop k (before ++ encode_fields fields))) same
                ∙ (ap (read_fields (8 ∷ 4 ∷ 4 ∷ [])) (
                      drop-append_length before (encode_fields fields)
                      ∙ sym (append-nil (encode_fields fields)))
                    ∙ (read_fields-encode_fields fields [] fit
                        ∙ rw (place, reference, sized, c.serialized.same_attrs) refl))),
        place,
      )
