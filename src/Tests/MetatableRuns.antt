-- ===== src/Tests/MetatableRuns.antt =====
-- Metadata tables at small inputs (src/metatable.c).
use libsqfs.Prelude.{
  ℕ, ◌+◌, ◌≡◌, refl, true, false, none, List, [], ◌∷◌, ◌++◌, ◌⊎◌, ◌*◌, length, take, drop, arith,
}
use libsqfs.Prelude.Bytes.{read_le, le_bytes}
use libsqfs.Memory.{Memory, unlimited}
use libsqfs.Metatable.Defs.{Metatable, init, append, flush, position}
use libsqfs.Metatable.Invariant.{stored_size, IsValid, init-IsValid}
use libsqfs.Metatable.Append.{append_cases, append-plentiful}
use libsqfs.Metatable.Stream.{IsCodecOf, stream}
use libsqfs.Metatable.Write.{
  write, write_with_index, write_blocks, write_index, index_table, block_header,
}
use libsqfs.Metatable.OnDisk.{encode}
use libsqfs.Metatable.Reader.{resolve, append-write_resolves}
use libsqfs.Metatable.Index.{write_with_index-places}
use libsqfs.Tests.Storage.{storage, read, blank, storage-IsFile}

-- No decoder is needed where nothing is compressed.
abbrev pub no_codec : List ℕ → List ℕ
no_codec bytes = bytes

-- All that a run of the table functions computes with.
unfoldable pub runs : ℕ
unfolding init append flush write write_blocks block_header write_index write_with_index index_table
runs = 0

pub no_compressor : IsCodecOf (init none).compressor no_codec
unfolding init
no_compressor = tt

-- An allocator that never returns storage.
abbrev pub starved : Memory
starved = record { grant = λ n. false; calls = 0 }

two_bytes : (append unlimited (init none) (7 ∷ 8 ∷ [])).0 ≡ true
unfolding runs
two_bytes = refl

append-write_resolves_example :
    let tab = (append unlimited (append unlimited (init none) (7 ∷ 8 ∷ [])).2 (9 ∷ [])).2 in
    let out = write storage tab blank in
    resolve no_codec (read out.2.disk out.1.offset out.1.size) (position (init none))
    ≡ 7 ∷ 8 ∷ 9 ∷ []
unfolding runs storage le_bytes
append-write_resolves_example =
    append-write_resolves no_codec storage read unlimited unlimited (init none) (7 ∷ 8 ∷ [])
      (9 ∷ []) blank storage-IsFile no_compressor (init-IsValid none) refl refl refl (omega arith)
      (omega arith)

append_cases_example :
    let (ok, _, tab') = append starved (init none) (7 ∷ []) in
    IsValid tab'
    × (((ok ≡ true) × (stream no_codec tab' ≡ stream no_codec (init none) ++ 7 ∷ []))
        ⊎ ((n : ℕ) × (k : ℕ) × (ok ≡ false)
            × (starved.grant n ≡ false)
            × (stream no_codec tab' ≡ stream no_codec (init none) ++ take k (7 ∷ []))))
append_cases_example =
    append_cases no_codec starved (init none) (7 ∷ []) no_compressor (init-IsValid none)

append-plentiful_example : (append unlimited (init none) (7 ∷ [])).0 ≡ true
append-plentiful_example =
    append-plentiful no_codec unlimited (init none) (7 ∷ []) no_compressor (init-IsValid none)
      (λ n. refl)

abbrev one_block : Metatable
one_block = (append unlimited (init none) (7 ∷ 8 ∷ [])).2

one_block-IsValid : IsValid one_block
one_block-IsValid =
    (append_cases no_codec unlimited (init none) (7 ∷ 8 ∷ []) no_compressor (init-IsValid none)).0

write_with_index-places_example :
    let (done, tab', out') = write_with_index storage one_block blank in
    let blocks = (flush one_block).blocks in
    (read out'.disk 96 (length (encode blocks)) ≡ encode blocks)
    × (tab'.offset ≡ 96 + length (encode blocks))
    × (out'.size ≡ tab'.offset + 8 * length blocks)
    × (read_le 8 (drop (8 * 0) (read out'.disk tab'.offset (8 * length blocks)))
        ≡ 96 + stored_size (take 0 blocks))
unfolding runs storage le_bytes
write_with_index-places_example =
    write_with_index-places storage read storage-IsFile one_block blank 0 one_block-IsValid
      (omega arith) (omega arith) refl (omega arith)
