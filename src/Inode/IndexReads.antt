-- ===== src/Inode/IndexReads.antt =====
-- What a reader finds of the index behind a directory's inode (`libsqfs_directory_inode_encode`,
-- src/directory.c).
use libsqfs.Prelude.{
  ℕ, zero, suc, ◌+◌, ◌^◌, ◌<◌, ◌≤◌, ◌≡◌, inl, inr, refl, ap, ◌∙◌, true, List, [], ◌∷◌, ◌++◌, length,
  take, drop, take-append_length, drop-append_length, append_assoc, All, map, Bool-cases, arith,
}
use libsqfs.Prelude.Bytes.{le_bytes, read_le, read_le-le_bytes}
use libsqfs.Prelude.Fields.{encode_fields, read_fields}
use libsqfs.Memory.{Memory}
use libsqfs.Metatable.Defs.{Metatable, append}
use libsqfs.Metatable.Invariant.{IsValid}
use libsqfs.Metatable.Stream.{IsCodecOf, Extends, Extends-refl, Extends-trans}
use libsqfs.Metatable.Append.{append-Extends, append-Outcome}
use libsqfs.Directory.Entries.{DirEntry}
use libsqfs.Directory.Encode.{sub_size}
use libsqfs.Inode.Folder.{index_fields, append_index}

-- The bytes of an index.
abbrev pub index_bytes : List DirEntry → List ℕ
index_bytes [] = []
index_bytes (e ∷ es) = encode_fields (index_fields e) ++ (e.name ++ index_bytes es)

append_index_step :
    (mem : Memory) (tab : Metatable) (e : DirEntry) (es : List DirEntry)
    → (append_index mem tab (e ∷ es)).0 ≡ true
    → let (ok, mem', tab') = append mem tab (encode_fields (index_fields e)) in
      let (ok', mem'', tab'') = append mem' tab' e.name in
      (ok ≡ true) × (ok' ≡ true) × (append_index mem tab (e ∷ es) ≡ append_index mem'' tab'' es)
unfolding append_index
append_index_step mem tab e es done =
    let r = append mem tab (encode_fields (index_fields e)) in
    elim (Bool-cases r.0) [
      | inr failed ↦ absurd (ground (arith, rw failed at done))
      | inl ok ↦ elim (Bool-cases (append r.1 r.2 e.name).0) [
        | inr failed ↦ absurd (ground (arith, rw (ok, failed) at done))
        | inl ok' ↦ (ok, ok', rw (ok, ok') refl)
      ]
    ]

append_index-nil : (mem : Memory) (tab : Metatable) → append_index mem tab [] ≡ (true, mem, tab)
unfolding append_index
append_index-nil mem tab = refl

pub append_index-Extends :
    (expand : List ℕ → List ℕ) (mem : Memory) (tab : Metatable) (es : List DirEntry)
    → IsCodecOf tab.compressor expand
    → IsValid tab
    → (append_index mem tab es).0 ≡ true
    → Extends expand tab (index_bytes es) (append_index mem tab es).2
append_index-Extends expand mem tab [] codec v done =
    rw (append_index-nil mem tab) (Extends-refl expand tab)
append_index-Extends expand mem tab (e ∷ es) codec v done =
    let fields = encode_fields (index_fields e) in
    let (ok, ok', rest) = append_index_step mem tab e es done in
    let x = append-Extends expand mem tab fields codec v ok in
    let v' = (append-Outcome expand mem tab fields codec v).valid in
    let mem' = (append mem tab fields).1 in
    let tab' = (append mem tab fields).2 in
    let codec' : IsCodecOf tab'.compressor expand = rw x.same_compressor codec in
    let x' = append-Extends expand mem' tab' e.name codec' v' ok' in
    let v'' = (append-Outcome expand mem' tab' e.name codec' v').valid in
    let last =
      append_index-Extends expand (append mem' tab' e.name).1 (append mem' tab' e.name).2 es
        (rw x'.same_compressor codec') v'' (rw rest at done) in
    rw rest (Extends-trans expand x (Extends-trans expand x' last))

-- What the index says of an entry: the offset in the listing, the block of the directory table, the name.
pub record IndexEntry : Type 0 where
  pub index : ℕ
  pub start_block : ℕ
  pub name : List ℕ

-- A reader of `count` elements of an index.
unfoldable pub read_index : ℕ → List ℕ → List IndexEntry
unfolding read_fields
read_index zero bytes = []
read_index (suc count) bytes =
    let index = read_le 4 bytes in
    let block = read_le 4 (drop 4 bytes) in
    let size = read_le 4 (drop 8 bytes) + 1 in
    record { index = index; start_block = block; name = take size (drop 12 bytes) }
    ∷ read_index count (drop size (drop 12 bytes))

abbrev pub indexed : DirEntry → IndexEntry
indexed e = record { index = e.offset; start_block = e.directory_table_entry.block; name = e.name }

pub record IndexFits (e : DirEntry) : Type 0 where
  pub offset_fits : e.offset < 2 ^ 32
  pub block_fits : e.directory_table_entry.block < 2 ^ 32
  pub named : 0 < length e.name
  pub short : length e.name ≤ 2 ^ 32

-- The three fields, and what follows each.
module _ (a b c : ℕ) (more : List ℕ) where
  abbrev three : List ℕ
  three = encode_fields ((4, a) ∷ (4, b) ∷ (4, c) ∷ []) ++ more

  three_parts :
      (three ≡ le_bytes 4 a ++ drop 4 three)
      × (drop 4 three ≡ le_bytes 4 b ++ drop 8 three)
      × (drop 8 three ≡ le_bytes 4 c ++ more)
      × (drop 12 three ≡ more)
  unfolding encode_fields le_bytes
  three_parts = (refl, refl, refl, refl)

index_reads :
    (e : DirEntry) (rest : List ℕ)
    → IndexFits e
    → let bytes = encode_fields (index_fields e) ++ (e.name ++ rest) in
      (read_le 4 bytes ≡ e.offset)
      × (read_le 4 (drop 4 bytes) ≡ e.directory_table_entry.block)
      × (read_le 4 (drop 8 bytes) + 1 ≡ length e.name)
      × (drop 12 bytes ≡ e.name ++ rest)
index_reads e rest f =
    let size = sub_size (length e.name) 1 in
    let (p, q, r, s) = three_parts e.offset e.directory_table_entry.block size (e.name ++ rest) in
    let name : size + 1 ≡ length e.name = omega (arith, f.named, f.short) in
    (
      ap (read_le 4) p ∙ read_le-le_bytes 4 e.offset _ (omega (arith, f.offset_fits)),
      ap (read_le 4) q
          ∙ read_le-le_bytes 4 e.directory_table_entry.block _ (omega (arith, f.block_fits)),
      ap (λ l. read_le 4 l + 1) r
          ∙ (ap (λ n. n + 1)
                (read_le-le_bytes 4 size (e.name ++ rest) (omega (arith, f.named, f.short)))
              ∙ name),
      s,
    )

pub read_index-index_bytes :
    (es : List DirEntry) (rest : List ℕ)
    → All IndexFits es
    → read_index (length es) (index_bytes es ++ rest) ≡ map indexed es
unfolding read_index
read_index-index_bytes [] rest h = refl
read_index-index_bytes (e ∷ es) rest (f, h) =
    let fields = encode_fields (index_fields e) in
    let (i, b, n, d) = index_reads e (index_bytes es ++ rest) f in
    let flat : (fields ++ (e.name ++ index_bytes es)) ++ rest
        ≡ fields ++ (e.name ++ (index_bytes es ++ rest)) =
      cc (
        append_assoc fields (e.name ++ index_bytes es) rest,
        append_assoc e.name (index_bytes es) rest,
      ) in
    let taken = take-append_length e.name (index_bytes es ++ rest) in
    let dropped = drop-append_length e.name (index_bytes es ++ rest) in
    rw (flat, i, b, n, d, taken, dropped, read_index-index_bytes es rest h) refl
