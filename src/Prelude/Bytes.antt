-- ===== src/Prelude/Bytes.antt =====
-- Integers in memory on a little-endian layout: what `cpu_to_le16`, `cpu_to_le32` and `cpu_to_le64`
-- (src/internal.h) leave in a structure, least significant byte first. A byte is a number.
use Prim.Native.Nat.{ℕ, zero, suc, ◌+◌, ◌*◌, ◌/◌, ◌%◌, ◌^◌, ◌<◌}
use mathlib.Core.Path.{◌≡◌, refl, ap}
use mathlib.Core.List.{List, [], ◌∷◌, ◌++◌}
use native.Mathlib.Nat.{pow-suc}
use native.Mathlib.Omega.{arith}
use libsqfs.Prelude.Lists.{length}

-- The lowest `n` bytes of `v`.
unfoldable pub le_bytes : ℕ → ℕ → List ℕ
le_bytes zero v = []
le_bytes (suc n) v = v % 256 ∷ le_bytes n (v / 256)

-- What a reader makes of `n` bytes, with the bytes that follow them.
unfoldable pub read_le : ℕ → List ℕ → ℕ
read_le zero bs = 0
read_le (suc n) [] = 0
read_le (suc n) (b ∷ bs) = b + 256 * read_le n bs

abbrev pub le16 : ℕ → List ℕ
le16 = le_bytes 2

abbrev pub le32 : ℕ → List ℕ
le32 = le_bytes 4

abbrev pub le64 : ℕ → List ℕ
le64 = le_bytes 8

pub length-le_bytes : (n v : ℕ) → length (le_bytes n v) ≡ n
unfolding le_bytes
length-le_bytes zero v = refl
length-le_bytes (suc n) v = ap suc (length-le_bytes n (v / 256))

-- A reader gets back a value that fits the field, whatever follows it.
pub read_le-le_bytes :
    (n v : ℕ) (rest : List ℕ) → v < 256 ^ n → read_le n (le_bytes n v ++ rest) ≡ v
unfolding le_bytes read_le
read_le-le_bytes zero v rest h = omega arith
read_le-le_bytes (suc n) v rest h =
    let small : v / 256 < 256 ^ n = omega (arith, pow-suc 256 n) in
    omega (arith, read_le-le_bytes n (v / 256) rest small)
