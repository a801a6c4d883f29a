-- ===== src/Directory/Readback.antt =====
-- What a reader of the directory table finds where a directory's inode points (src/directory.c).
use libsqfs.Prelude.{
  ℕ, ◌+◌, ◌<◌, ◌≡◌, refl, subst, true, List, [], ◌∷◌, ◌++◌, length, take, take-append_length, map,
  arith,
}
use libsqfs.Memory.{Memory}
use libsqfs.Output.{Destination, Output, IsFile, off_mod}
use libsqfs.Metatable.Defs.{Metatable, u32_mod, flush}
use libsqfs.Metatable.Invariant.{IsValid, stored_size}
use libsqfs.Metatable.Stream.{IsCodecOf, Extends, Extends-trans}
use libsqfs.Metatable.Write.{write}
use libsqfs.Metatable.Reader.{resolve, write-resolve}
use libsqfs.Directory.Entries.{DirEntry}
use libsqfs.Directory.Encode.{Target, new_encoder, encode_entries, finish_groups}
use libsqfs.Directory.Groups.{coded_bytes}
use libsqfs.Directory.Decode.{listed, decode_listing}
use libsqfs.Directory.Listing.{
  AllEncodable, decode-encode, encode_entries_lem, new_encoder-IsEncoded,
}
use libsqfs.Directory.Size.{encode_entries-size, finish_groups-size}
use libsqfs.Directory.Table.{Directory, append_entries, first_place, directory_encode}
use libsqfs.Directory.Stored.{first_place-cons, directory_encode_done, append_entries_lem}

module _ (target : ℕ → Target) (expand : List ℕ → List ℕ) where
  module _ {Disk : Type 0} (dst : Destination Disk) (read : Disk → ℕ → ℕ → List ℕ)
      (file : IsFile dst read) where
    -- The bytes of appended entries, in the file that the table was written to later.
    entries-read :
        (mem : Memory) (tab tab'' : Metatable) (es : List DirEntry) (later : List ℕ)
        (out : Output Disk)
        → IsCodecOf tab.compressor expand
        → IsValid tab
        → let (ok, _, tab', _) = append_entries mem tab es in
          let (done, written, out') = write dst tab'' out in
          ok ≡ true
          → IsValid tab''
          → Extends expand tab' later tab''
          → done ≡ true
          → stored_size (flush tab'').blocks < u32_mod
          → out.size + stored_size (flush tab'').blocks < off_mod
          → take
              (length (coded_bytes es))
              (resolve expand (read out'.disk written.offset written.size) (first_place mem tab es))
            ≡ coded_bytes es
    entries-read mem tab tab'' [] later out codec v ok v'' x done small fits = refl
    entries-read mem tab tab'' (e ∷ es) later out codec v ok v'' x done small fits =
        let (_, first, _) = append_entries_lem target expand mem tab (e ∷ es) codec v ok in
        let resolved =
          write-resolve expand dst read tab tab'' (coded_bytes (e ∷ es) ++ later) out file codec v
            v'' (Extends-trans expand first x) done small fits in
        rw (first_place-cons target expand mem tab e es ok, resolved)
          (take-append_length (coded_bytes (e ∷ es)) later)

    -- A directory was encoded, the directory table was filled further, and written. A reader that goes
    -- where the directory's inode points, and takes as many bytes as it says, finds the directory's
    -- entries in their order, each with its name and the place, number and type of its inode.
    pub directory_encode-reads :
        (mem : Memory) (tab tab'' : Metatable) (dir : Directory) (later : List ℕ)
        (out : Output Disk)
        → IsCodecOf tab.compressor expand
        → IsValid tab
        → AllEncodable target dir.entries
        → let (ok, _, tab', dir') = directory_encode target mem tab dir in
          let (done, written, out') = write dst tab'' out in
          ok ≡ true
          → IsValid tab''
          → Extends expand tab' later tab''
          → done ≡ true
          → stored_size (flush tab'').blocks < u32_mod
          → out.size + stored_size (flush tab'').blocks < off_mod
          → decode_listing dir'.encoded_entries_size (
              take dir'.encoded_entries_size
                (resolve expand (read out'.disk written.offset written.size) dir'.dir_table_entry))
            ≡ map (listed target) dir.entries
    directory_encode-reads mem tab tab'' dir later out codec v f ok v'' x done small fits =
        let (coded, appended, table, _, sized, place) =
          directory_encode_done target expand mem tab dir ok in
        let mem' = (encode_entries target mem new_encoder dir.entries).1 in
        let st = (encode_entries target mem new_encoder dir.entries).2 in
        let x' : Extends expand (append_entries mem' tab (finish_groups st)).2 later tab'' =
          subst (λ t. Extends expand t later tab'') table x in
        let h =
          (encode_entries_lem target mem new_encoder dir.entries f (new_encoder-IsEncoded target)
            coded).0 in
        let size = finish_groups-size target st h (
          encode_entries-size target mem new_encoder dir.entries f (new_encoder-IsEncoded target)
            refl coded) in
        let taken =
          entries-read mem' tab tab'' (finish_groups st) later out codec v appended v'' x' done
            small fits in
        rw (sized, place, ← size, taken)
          (decode-encode target mem dir.entries _ f coded (omega arith))
