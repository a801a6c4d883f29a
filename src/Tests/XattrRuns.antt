-- ===== src/Tests/XattrRuns.antt =====
-- A set of two extended attributes (src/xattrs.c).
use libsqfs.Prelude.{
  ℕ, ◌+◌, ◌*◌, ◌^◌, ◌<◌, ◌≡◌, refl, true, none, some, List, [], ◌∷◌, length, take, drop, map, arith,
  All,
}
use libsqfs.Prelude.Bytes.{le_bytes, read_le}
use libsqfs.Prelude.Fields.{read_fields, encode_fields}
use libsqfs.Memory.{unlimited}
use libsqfs.Output.{off_mod}
use libsqfs.Metatable.Defs.{Entry, flush, position, u32_mod}
use libsqfs.Metatable.Invariant.{stored_size, init-IsValid}
use libsqfs.Metatable.Stream.{stream, Extends-refl}
use libsqfs.Metatable.Write.{write}
use libsqfs.Metatable.Reader.{resolve}
use libsqfs.Xattrs.Defs as Xattrs
use libsqfs.Xattrs.Defs.{
  Xattr, XattrSet, XattrTable, classify, classify_xattr_domain, xattr_create, xattrset_create,
  serialize_attrs, serialize_data, append_all, descriptor_reference,
}
use libsqfs.Metatable.OnDisk.{encode}
use libsqfs.Xattrs.Table.{index_entries, write_header, table_write}
use libsqfs.Xattrs.Written.{table_write-places}
use libsqfs.Xattrs.Decode.{found, attrs_bytes, AttrFits, read_attrs}
use libsqfs.Xattrs.Sets.{
  IsSound, IsNumbered, create-IsSound, xattrset_create-reads, xattrset_create-describes,
}
use libsqfs.Tests.Storage.{storage, read, blank, storage-IsFile}
use libsqfs.Tests.MetatableRuns.{no_codec, no_compressor}
use libsqfs.Tests.MetatableRuns.{runs as table_runs}

-- "user.a" with a value of two bytes, and "trusted.b" with none.
abbrev user_a : Xattr
user_a = record {
  name = 117 ∷ 115 ∷ 101 ∷ 114 ∷ 46 ∷ 97 ∷ [];
  suffix = 97 ∷ [];
  domain = 0;
  value = 5 ∷ 6 ∷ [];
}

abbrev trusted_b : Xattr
trusted_b = record {
  name = 116 ∷ 114 ∷ 117 ∷ 115 ∷ 116 ∷ 101 ∷ 100 ∷ 46 ∷ 98 ∷ [];
  suffix = 98 ∷ [];
  domain = 1;
  value = [];
}

abbrev unset : Entry
unset = record { block = 0; offset = 0 }

abbrev fresh : XattrTable
fresh = Xattrs.init 0

unfoldable runs : ℕ
unfolding table_runs classify xattr_create xattrset_create serialize_attrs serialize_data append_all
    descriptor_reference Xattrs.init encode_fields le_bytes
runs = 0

-- The name decides on the domain.
user_a_created : (xattr_create unlimited fresh user_a.name user_a.value).0 ≡ some user_a
unfolding runs libsqfs.Xattrs.Defs.has_prefix
user_a_created = refl

other_domain : (xattr_create unlimited fresh (97 ∷ 46 ∷ []) []).0 ≡ none
unfolding runs libsqfs.Xattrs.Defs.has_prefix
other_domain = refl

abbrev both : List Xattr
both = user_a ∷ trusted_b ∷ []

abbrev both_set : XattrSet
both_set = record { attrs = both; id = 0; stored_pos = unset; stored_size = 20 }

abbrev stored : XattrTable
stored = (xattrset_create unlimited fresh unset both).2

both_created : (xattrset_create unlimited fresh unset both).0 ≡ some both_set
unfolding runs
both_created = refl

fresh-IsSound : IsSound no_codec fresh
unfolding Xattrs.init
fresh-IsSound = record {
  valid_data = init-IsValid none;
  valid_descriptors = init-IsValid none;
  codec_data = no_compressor;
  codec_descriptors = no_compressor;
}

stored-IsSound : IsSound no_codec stored
stored-IsSound =
    create-IsSound no_codec unlimited fresh unset both both_set fresh-IsSound both_created

both_fit : All AttrFits both
both_fit = ((omega arith, omega arith, omega arith), ((omega arith, omega arith, omega arith), tt))

written_small :
    ((write storage stored.xattr_data blank).0 ≡ true)
    × (stored_size (flush stored.xattr_data).blocks < u32_mod)
    × (96 + stored_size (flush stored.xattr_data).blocks < off_mod)
unfolding runs storage
written_small = (refl, omega arith, omega arith)

xattrset_create-reads_example :
    let (done, written, out') = write storage stored.xattr_data blank in
    read_attrs 2 (resolve no_codec (read out'.disk written.offset written.size) unset)
    ≡ map found both
xattrset_create-reads_example =
    xattrset_create-reads no_codec storage read unlimited fresh unset user_a (trusted_b ∷ [])
      both_set [] stored.xattr_data blank storage-IsFile fresh-IsSound both_fit both_created
      (Extends-refl no_codec stored.xattr_data) stored-IsSound.valid_data written_small.0
      written_small.1 written_small.2

fresh_numbers :
    (length (stream no_codec fresh.xattr_descriptors) ≡ 0)
    × (fresh.nids ≡ 0)
    × (fresh.xattr_data.size < 2 ^ 16)
unfolding runs
fresh_numbers = (refl, refl, omega arith)

sizes : (length both < 2 ^ 32) × (length (attrs_bytes both) < 2 ^ 32)
unfolding runs
sizes = (omega arith, omega arith)

xattrset_create-describes_example :
    IsNumbered no_codec stored
    × (read_fields (8 ∷ 4 ∷ 4 ∷ []) (drop (16 * 0) (stream no_codec stored.xattr_descriptors))
        ≡ (fresh.xattr_data.opened_block_fill + fresh.xattr_data.size * 2 ^ 16)
          ∷ 2
          ∷ length (attrs_bytes both)
          ∷ [])
    × (unset ≡ position fresh.xattr_data)
xattrset_create-describes_example =
    xattrset_create-describes no_codec unlimited fresh unset user_a (trusted_b ∷ []) both_set
      fresh-IsSound (omega (arith, fresh_numbers.0, fresh_numbers.1)) sizes.0 sizes.1
      fresh_numbers.2 both_created

stored_small :
    (0 < stored.nids)
    × (stored.nids < 2 ^ 32)
    × (index_entries stored.nids ≡ length (flush stored.xattr_descriptors).blocks)
    × (stored_size (flush stored.xattr_data).blocks < u32_mod)
    × (stored_size (flush stored.xattr_descriptors).blocks < u32_mod)
    × (96
          + stored_size (flush stored.xattr_data).blocks
          + stored_size (flush stored.xattr_descriptors).blocks
          + 16
        < off_mod)
    × ((table_write storage stored blank).0 ≡ true)
    × (0 < length (flush stored.xattr_descriptors).blocks)
unfolding runs storage table_write write_header
stored_small =
    (omega arith, omega arith, refl, omega arith, omega arith, omega arith, refl, omega arith)

table_write-places_example :
    let blocks = (flush stored.xattr_data).blocks in
    let described = (flush stored.xattr_descriptors).blocks in
    let (done, tab', out') = table_write storage stored blank in
    let place = 96 + length (encode blocks) in
    (read out'.disk 96 (length (encode blocks)) ≡ encode blocks)
    × (read out'.disk place (length (encode described)) ≡ encode described)
    × (tab'.offset ≡ place + length (encode described))
    × (read_fields (8 ∷ 4 ∷ 4 ∷ []) (read out'.disk tab'.offset 16) ≡ 96 ∷ stored.nids ∷ 0 ∷ [])
    × (read_le 8 (drop (8 * 0) (read out'.disk (tab'.offset + 16) (8 * length described)))
        ≡ place + stored_size (take 0 described))
table_write-places_example =
    table_write-places storage read storage-IsFile stored blank 0 stored-IsSound.valid_data
      stored-IsSound.valid_descriptors stored_small.0 stored_small.1 stored_small.2 stored_small.3
      stored_small.4 stored_small.5 stored_small.6 stored_small.7
