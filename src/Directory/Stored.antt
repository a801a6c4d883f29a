-- ===== src/Directory/Stored.antt =====
-- What `libsqfs_directory_encode` (src/directory.c) leaves in the directory table, on every branch.
use libsqfs.Prelude.{
  ℕ, ◌≡◌, inl, inr, refl, ap, ◌∙◌, true, List, [], ◌∷◌, map, if◌then◌else◌, Bool-cases, arith,
}
use libsqfs.Memory.{Memory, IsPlentiful}
use libsqfs.Metatable.Defs.{Metatable, position, append}
use libsqfs.Metatable.Invariant.{IsValid}
use libsqfs.Metatable.Stream.{IsCodecOf, Extends, Extends-refl, Extends-trans}
use libsqfs.Metatable.Append.{append-Outcome, append-Extends, append-plentiful}
use libsqfs.Directory.Entries.{DirEntry}
use libsqfs.Directory.Encode.{Target, new_encoder, encode_entries, finish_groups}
use libsqfs.Directory.Groups.{coded_bytes}
use libsqfs.Directory.Decode.{listed}
use libsqfs.Directory.Listing.{encode_entries-IsPlentiful}
use libsqfs.Directory.Table.{Directory, append_entries, first_place, directory_encode}

module _ (target : ℕ → Target) (expand : List ℕ → List ℕ) where
  append_entries_stored :
      (mem : Memory) (tab : Metatable) (e : DirEntry) (es : List DirEntry)
      → (append_entries mem tab (e ∷ es)).0 ≡ true
      → let (ok, mem', tab') = append mem tab e.encoded_data in
        (ok ≡ true)
        × ((append_entries mem' tab' es).0 ≡ true)
        × (append_entries mem tab (e ∷ es) ≡ (
          true,
          (append_entries mem' tab' es).1,
          (append_entries mem' tab' es).2,
          record e { directory_table_entry = position tab; encoded_data = [] }
              ∷ (append_entries mem' tab' es).3,
        ))
  unfolding append_entries
  append_entries_stored mem tab e es done = elim (Bool-cases (append mem tab e.encoded_data).0) [
    | inl ok ↦ (ok, rw ok at done, rw (ok, rw ok at done) refl)
    | inr failed ↦ absurd (ground (arith, rw failed at done))
  ]

  append_entries_nil :
      (mem : Memory) (tab : Metatable) → append_entries mem tab [] ≡ (true, mem, tab, [])
  unfolding append_entries
  append_entries_nil mem tab = refl

  -- All entries are in the table, one behind the other, and list what they did.
  pub append_entries_lem :
      (mem : Memory) (tab : Metatable) (es : List DirEntry)
      → IsCodecOf tab.compressor expand
      → IsValid tab
      → (append_entries mem tab es).0 ≡ true
      → let (_, _, tab', es') = append_entries mem tab es in
        IsValid tab'
        × Extends expand tab (coded_bytes es) tab'
        × (map (listed target) es' ≡ map (listed target) es)
  append_entries_lem mem tab [] codec v ok =
      rw (append_entries_nil mem tab) (v, Extends-refl expand tab, refl)
  append_entries_lem mem tab (e ∷ es) codec v done =
      let (ok, done', all) = append_entries_stored mem tab e es done in
      let x = append-Extends expand mem tab e.encoded_data codec v ok in
      let v' = (append-Outcome expand mem tab e.encoded_data codec v).valid in
      let rest =
        append_entries_lem (append mem tab e.encoded_data).1 (append mem tab e.encoded_data).2 es
          (rw x.same_compressor codec) v' done' in
      rw all (rest.0, Extends-trans expand x rest.1, ap (λ l. listed target e ∷ l) rest.2)

  first_place-nil :
      (mem : Memory) (tab : Metatable) → first_place mem tab [] ≡ record { block = 0; offset = 0 }
  unfolding first_place
  first_place-nil mem tab = refl

  -- The place of a listing that is not empty is where its first byte went.
  pub first_place-cons :
      (mem : Memory) (tab : Metatable) (e : DirEntry) (es : List DirEntry)
      → (append_entries mem tab (e ∷ es)).0 ≡ true
      → first_place mem tab (e ∷ es) ≡ position tab
  unfolding first_place
  first_place-cons mem tab e es done =
      let (ok, _, _) = append_entries_stored mem tab e es done in rw ok refl

  -- The entries of a call that returned true were coded and appended.
  pub directory_encode_done :
      (mem : Memory) (tab : Metatable) (dir : Directory)
      → (directory_encode target mem tab dir).0 ≡ true
      → let (coded, mem', st, _) = encode_entries target mem new_encoder dir.entries in
        let (ok, mem'', tab', entries) = append_entries mem' tab (finish_groups st) in
        let (_, _, tab'', dir') = directory_encode target mem tab dir in
        (coded ≡ true)
        × (ok ≡ true)
        × (tab'' ≡ tab')
        × (dir'.entries ≡ entries)
        × (dir'.encoded_entries_size ≡ st.offset)
        × (dir'.dir_table_entry ≡ first_place mem' tab (finish_groups st))
  unfolding directory_encode
  directory_encode_done mem tab dir done =
      elim (Bool-cases (encode_entries target mem new_encoder dir.entries).0) [
        | inl ok ↦ (ok, rw ok at done, rw ok refl, rw ok refl, rw ok refl, rw ok refl)
        | inr failed ↦ absurd (ground (arith, rw failed at done))
      ]

  append_entries_ok :
      (mem : Memory) (tab : Metatable) (e : DirEntry) (es : List DirEntry)
      → let (ok, mem', tab') = append mem tab e.encoded_data in
        ok ≡ true → (append_entries mem tab (e ∷ es)).0 ≡ (append_entries mem' tab' es).0
  unfolding append_entries
  append_entries_ok mem tab e es ok = rw ok refl

  append_entries-plentiful :
      (mem : Memory) (tab : Metatable) (es : List DirEntry)
      → IsCodecOf tab.compressor expand
      → IsValid tab
      → IsPlentiful mem
      → (append_entries mem tab es).0 ≡ true
  append_entries-plentiful mem tab [] codec v plenty = rw (append_entries_nil mem tab) refl
  append_entries-plentiful mem tab (e ∷ es) codec v plenty =
      let o = append-Outcome expand mem tab e.encoded_data codec v in
      let ok = append-plentiful expand mem tab e.encoded_data codec v plenty in
      let x = append-Extends expand mem tab e.encoded_data codec v ok in
      let plenty' : IsPlentiful (append mem tab e.encoded_data).1 =
        λ n. ap (λ g. g n) o.same_grant ∙ plenty n in
      let rest =
        append_entries-plentiful (append mem tab e.encoded_data).1 (append mem tab e.encoded_data).2
          es (rw x.same_compressor codec) o.valid plenty' in
      append_entries_ok mem tab e es ok ∙ rest

  append_entries_table :
      (mem : Memory) (tab : Metatable) (e : DirEntry) (es : List DirEntry)
      → let (ok, mem', tab') = append mem tab e.encoded_data in
        (append_entries mem tab (e ∷ es)).2 ≡ (if ok then (append_entries mem' tab' es).2 else tab')
  unfolding append_entries
  append_entries_table mem tab e es = ground arith

  append_entries-IsValid :
      (mem : Memory) (tab : Metatable) (es : List DirEntry)
      → IsCodecOf tab.compressor expand
      → IsValid tab
      → IsValid (append_entries mem tab es).2
  append_entries-IsValid mem tab [] codec v = rw (append_entries_nil mem tab) v
  append_entries-IsValid mem tab (e ∷ es) codec v =
      let o = append-Outcome expand mem tab e.encoded_data codec v in
      let rest =
        append_entries-IsValid (append mem tab e.encoded_data).1 (append mem tab e.encoded_data).2
          es (rw o.extends.same_compressor codec) o.valid in
      elim (Bool-cases (append mem tab e.encoded_data).0) [
        | inl ok ↦ rw (append_entries_table mem tab e es, ok) rest
        | inr failed ↦ rw (append_entries_table mem tab e es, failed) o.valid
      ]

  pub directory_encode-IsValid :
      (mem : Memory) (tab : Metatable) (dir : Directory)
      → IsCodecOf tab.compressor expand
      → IsValid tab
      → IsValid (directory_encode target mem tab dir).2
  unfolding directory_encode
  directory_encode-IsValid mem tab dir codec v =
      elim (Bool-cases (encode_entries target mem new_encoder dir.entries).0) [
        | inl coded ↦ rw coded (
            append_entries-IsValid (encode_entries target mem new_encoder dir.entries).1 tab
              (finish_groups (encode_entries target mem new_encoder dir.entries).2) codec v)
        | inr stopped ↦ rw stopped v
      ]

  -- Encoding a directory comes to its end with success where no allocation fails.
  pub directory_encode-plentiful :
      (mem : Memory) (tab : Metatable) (dir : Directory)
      → IsCodecOf tab.compressor expand
      → IsValid tab
      → IsPlentiful mem
      → (directory_encode target mem tab dir).0 ≡ true
  unfolding directory_encode
  directory_encode-plentiful mem tab dir codec v plenty =
      let (coded, plenty') = encode_entries-IsPlentiful target mem new_encoder dir.entries plenty in
      let st = (encode_entries target mem new_encoder dir.entries).2 in
      rw coded (
        append_entries-plentiful (encode_entries target mem new_encoder dir.entries).1 tab
          (finish_groups st) codec v plenty')
