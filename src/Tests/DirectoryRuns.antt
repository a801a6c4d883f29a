-- ===== src/Tests/DirectoryRuns.antt =====
-- A directory of two entries (src/directory.c).
use mathlib.Core.List.{Memᴰ}
use libsqfs.Prelude.{
  ℕ, ◌+◌, ◌≡◌, ◌≤◌, refl, true, none, some, List, [], ◌∷◌, All, length, map, take, if◌then◌else◌,
  arith,
}
use libsqfs.Prelude.Bytes.{le_bytes}
use libsqfs.Memory.{unlimited}
use libsqfs.Metatable.Defs.{Metatable, init}
use libsqfs.Metatable.Invariant.{IsValid, init-IsValid}
use libsqfs.Metatable.Stream.{Extends-refl}
use libsqfs.Metatable.Write.{write}
use libsqfs.Metatable.Reader.{resolve}
use libsqfs.Directory.Entries.{DirEntry, strcmp, is_equal, insert_entry, lookup_entry}
use libsqfs.Directory.Sorted.{IsSorted, lookup-insert, insert_entry-IsSorted}
use libsqfs.Directory.Encode.{Target, is_far, set_count, new_encoder, encode_entries, finish_groups}
use libsqfs.Directory.Groups.{coded_bytes, concat, IsClosed, IsEncodable}
use libsqfs.Directory.Decode.{listed, decode_listing}
use libsqfs.Directory.Listing.{AllEncodable, encode-IsClosed, decode-encode}
use libsqfs.Directory.Table.{Directory, directory_encode}
use libsqfs.Directory.Stored.{directory_encode-plentiful, directory_encode-IsValid}
use libsqfs.Directory.Readback.{directory_encode-reads}
use libsqfs.Directory.Index.{prune_index, IsSpaced, IsNear, prune_index-IsPruned}
use libsqfs.Tests.Storage.{storage, read, blank, storage-IsFile}
use libsqfs.Tests.MetatableRuns.{no_codec, no_compressor, starved, runs}

abbrev targets : ℕ → Target
targets n = record { block = 0; offset = 32; inode_number = n + 1; base_type = 2 }

abbrev file : List ℕ → ℕ → DirEntry
file name inode = record {
  name = name;
  inode = inode;
  serialno = 0;
  offset = 0;
  directory_table_entry = record { block = 0; offset = 0 };
  encoded_data = [];
  encoded_size = 0;
}

-- The names `a` and `b`.
abbrev two_files : List DirEntry
two_files = file (97 ∷ []) 4 ∷ file (98 ∷ []) 3 ∷ []

abbrev folder : Directory
folder = record {
  entries = two_files;
  first_indexed = [];
  indexed_count = 0;
  encoded_entries_size = 0;
  dir_table_entry = record { block = 0; offset = 0 };
}

one_letter : (n i : ℕ) → i ≤ 4 → IsEncodable (targets i) (n ∷ [])
one_letter n i small = record {
  named = omega arith;
  short = omega arith;
  block_fits = omega arith;
  offset_fits = omega arith;
  number_fits = omega arith;
  type_fits = omega arith;
}

two_files-AllEncodable : AllEncodable targets two_files
two_files-AllEncodable = (one_letter 97 4 (omega arith), (one_letter 98 3 (omega arith), tt))

lookup-insert_example :
    lookup_entry (98 ∷ []) (insert_entry (file (98 ∷ []) 7) two_files)
    ≡ (if is_equal (strcmp (98 ∷ []) (98 ∷ [])) then some 7 else lookup_entry (98 ∷ []) two_files)
lookup-insert_example = lookup-insert (file (98 ∷ []) 7) two_files (98 ∷ [])

two_files-IsSorted : IsSorted two_files
unfolding strcmp
two_files-IsSorted = (refl, tt)

insert_entry-IsSorted_example : IsSorted (insert_entry (file (97 ∷ 98 ∷ []) 7) two_files)
insert_entry-IsSorted_example =
    insert_entry-IsSorted (file (97 ∷ 98 ∷ []) 7) two_files two_files-IsSorted

two_files_coded : (encode_entries targets unlimited new_encoder two_files).0 ≡ true
unfolding encode_entries
two_files_coded = refl

encode-IsClosed_example :
    (gs : List (List DirEntry)) × All (IsClosed targets) gs
    × (finish_groups (encode_entries targets unlimited new_encoder two_files).2 ≡ concat gs)
encode-IsClosed_example =
    encode-IsClosed targets unlimited two_files two_files-AllEncodable two_files_coded

decode-encode_example :
    decode_listing 30
      (coded_bytes (finish_groups (encode_entries targets unlimited new_encoder two_files).2))
    ≡ map (listed targets) two_files
unfolding encode_entries finish_groups is_far set_count le_bytes
decode-encode_example =
    decode-encode targets unlimited two_files 30 two_files-AllEncodable two_files_coded
      (omega arith)

directory_encode-plentiful_example :
    (directory_encode targets unlimited (init none) folder).0 ≡ true
directory_encode-plentiful_example =
    directory_encode-plentiful targets no_codec unlimited (init none) folder no_compressor
      (init-IsValid none) (λ n. refl)

abbrev starved_table : Metatable
starved_table = (directory_encode targets starved (init none) folder).2

abbrev folder_table : Metatable
folder_table = (directory_encode targets unlimited (init none) folder).2

folder_table-IsValid : IsValid folder_table
folder_table-IsValid =
    directory_encode-IsValid targets no_codec unlimited (init none) folder no_compressor
      (init-IsValid none)

-- All that a run of a directory computes with.
folder_runs : ℕ
unfolding runs directory_encode is_far set_count le_bytes storage
folder_runs = 0

directory_encode-reads_example :
    let dir' = (directory_encode targets unlimited (init none) folder).3 in
    let (done, written, out') = write storage folder_table blank in
    decode_listing dir'.encoded_entries_size (
      take dir'.encoded_entries_size
        (resolve no_codec (read out'.disk written.offset written.size) dir'.dir_table_entry))
    ≡ map (listed targets) two_files
unfolding folder_runs
directory_encode-reads_example =
    directory_encode-reads targets no_codec storage read storage-IsFile unlimited (init none)
      folder_table folder [] blank no_compressor (init-IsValid none) two_files-AllEncodable refl
      folder_table-IsValid (Extends-refl no_codec folder_table) refl (omega arith) (omega arith)

-- An index of four entries, of which the second is too near to the first.
abbrev indexed_folder : Directory
indexed_folder = record folder { first_indexed = 0 ∷ 100 ∷ 200 ∷ 400 ∷ []; indexed_count = 4 }

prune_index-IsPruned_example :
    let pruned = prune_index indexed_folder in
    IsSpaced 0 pruned.first_indexed
    × (pruned.indexed_count ≡ length pruned.first_indexed)
    × All (IsNear (0 ∷ pruned.first_indexed)) (100 ∷ 200 ∷ 400 ∷ [])
    × All (λ n. Memᴰ n (100 ∷ 200 ∷ 400 ∷ [])) pruned.first_indexed
prune_index-IsPruned_example =
    prune_index-IsPruned indexed_folder 0 (100 ∷ 200 ∷ 400 ∷ []) refl refl
      (omega arith, omega arith, (omega arith, omega arith, (omega arith, omega arith, tt)))
      (omega arith)
