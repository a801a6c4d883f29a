-- ===== src/Output.antt =====
-- The image file as the writers see it: a destination (src/destination.c) and the size reserved so far
-- (`libsqfs_image_reserve` of src/image.c). The file behind a destination is the operating system's,
-- so its state and its calls are arguments of the model.
use libsqfs.Prelude.{
  ℕ, ◌+◌, ◌%◌, ◌^◌, ◌≤◌, ◌≡◌, Bool, true, false, Option, none, some, List, [], ◌++◌, length, ◌==◌,
}

-- `libsqfs_off_t` arithmetic. The type is signed; -1 has the bit pattern `off_mod - 1`.
abbrev pub off_mod : ℕ
off_mod = 2 ^ 64

-- The functions of a `libsqfs_destination_vmt` over the state of what is written to. `pwrite` takes the
-- bytes and the offset, and returns their number, or `none` for -1; `truncate` returns whether it
-- succeeded.
pub record Destination (Disk : Type 0) : Type 0 where
  pub pwrite : Disk → List ℕ → ℕ → Option ℕ × Disk
  pub truncate : Disk → ℕ → Bool × Disk

-- libsqfs_destination_null_pwrite and libsqfs_destination_null_truncate: all data are discarded.
unfoldable null_destination : Destination (Unit {0})
null_destination = record {
  pwrite = λ disk bytes offset. (some (length bytes), disk);
  truncate = λ disk offset. (true, disk);
}

-- The members `dst` and `size` of an image.
pub record Output (Disk : Type 0) : Type 0 where
  pub disk : Disk
  pub size : ℕ

-- libsqfs_image_reserve: the space begins at the old size.
unfoldable pub reserve : {Disk : Type 0} → Output Disk → ℕ → ℕ × Output Disk
reserve out bytes = (out.size, record out { size = (out.size + bytes) % off_mod })

-- Whether a call of `pwrite` returned the count; -1 is no size that is written here.
abbrev pub is_count : Option ℕ → ℕ → Bool
is_count none n = false
is_count (some m) n = m == n

-- What a file does: `read d o n` is the `n` bytes from offset `o` on. A write that returns its count
-- leaves the bytes there and all else as it was.
pub record IsFile {Disk : Type 0} (dst : Destination Disk) (read : Disk → ℕ → ℕ → List ℕ)
    : Type 0 where
  pub read_none : (d : Disk) (o : ℕ) → read d o 0 ≡ []
  pub read_add : (d : Disk) (o m n : ℕ) → read d o (m + n) ≡ read d o m ++ read d (o + m) n
  pub read_written :
      (d d' : Disk) (bytes : List ℕ) (o : ℕ)
      → dst.pwrite d bytes o ≡ (some (length bytes), d')
      → read d' o (length bytes) ≡ bytes
  pub read_before :
      (d d' : Disk) (bytes : List ℕ) (o p n : ℕ)
      → dst.pwrite d bytes o ≡ (some (length bytes), d')
      → p + n ≤ o
      → read d' p n ≡ read d p n
