-- ===== src/DataSource/Defs.antt =====
-- Data sources (src/datasource.h, src/datasource.c).
use libsqfs.Prelude.{
  ℕ, ◌+◌, ◌-◌, ◌%◌, ◌^◌, Option, none, some, List, [], ◌∷◌, ◌++◌, ◌==◌, length, take, drop, ltb,
  leb, if◌then◌else◌,
}

-- The functions of a `libsqfs_data_vmt`: `pread` takes the size and the offset, and returns the bytes that it
-- puts into the buffer, or `none` for -1. That of a file is the operating system's.
pub record Data : Type 0 where
  pub get_size : Option ℕ
  pub pread : ℕ → ℕ → Option (List ℕ)

-- libsqfs_memorydata_pread
unfoldable pub memory_pread : List ℕ → ℕ → ℕ → Option (List ℕ)
memory_pread buffer size offset =
    let n =
      if ltb (length buffer) ((offset + size) % 2 ^ 64) then length buffer - offset else size in
    if ltb (length buffer) offset then some [] else some (take n (drop offset buffer))

-- libsqfs_data_create_for_buffer, when storage is there.
unfoldable pub memory_data : List ℕ → Data
unfolding memory_pread
memory_data buffer = record { get_size = some (length buffer); pread = memory_pread buffer }

-- A `libsqfs_data_piece`.
pub record Piece : Type 0 where
  pub data_source : Data
  pub offset : ℕ
  pub size : ℕ

-- Bytes copied into a buffer at a place.
unfoldable pub put : List ℕ → ℕ → List ℕ → List ℕ
put buffer place bytes = take place buffer ++ (bytes ++ drop (place + length bytes) buffer)

-- The loop of `libsqfs_compounddata_pread`: how many bytes were copied, and the buffer. `current` is where
-- the first piece begins in the compound.
unfoldable pub compound_loop : (offset size current written : ℕ) → List ℕ → List Piece → ℕ × List ℕ
unfolding put
compound_loop offset size current written buffer [] = (written, buffer)
compound_loop offset size current written buffer (p ∷ ps) =
    let stop = (offset + size) % 2 ^ 64 in
    let end = current + p.size in
    let copy_begin = if ltb current offset then offset else current in
    let copy_end = if ltb stop end then stop else end in
    let skipped = compound_loop offset size end written buffer ps in
    let copied : ℕ × List ℕ =
      elim (p.data_source.pread (copy_end - copy_begin) (p.offset + copy_begin - current)) [
        | none ↦ (written, buffer)
        | some bytes ↦
            let buffer' = put buffer (copy_begin - offset) bytes in
            let written' = written + length bytes in
            let rest = compound_loop offset size end written' buffer' ps in
            if length bytes == copy_end - copy_begin then rest else (written', buffer')
      ] in
    if leb end offset then skipped else if leb stop current then (written, buffer) else copied

-- The member `size` of a compound, from the pieces that it is made of.
abbrev pub compound_size : List Piece → ℕ
compound_size [] = 0
compound_size (p ∷ ps) = p.size + compound_size ps

-- libsqfs_compounddata_pread
unfoldable pub compound_pread : List Piece → List ℕ → ℕ → ℕ → ℕ × List ℕ
unfolding compound_loop
compound_pread pieces buffer size offset =
    let total = compound_size pieces in
    let n = if ltb total ((offset + size) % 2 ^ 64) then total - offset else size in
    if ltb total offset then (0, buffer) else compound_loop offset n 0 0 buffer pieces
