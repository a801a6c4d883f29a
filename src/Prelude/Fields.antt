-- ===== src/Prelude/Fields.antt =====
-- Structures in memory: fields of some bytes each, one behind the other without gaps, as in the packed
-- structures of src/squashfs_fs.h.
use Prim.Native.Nat.{ℕ, ◌+◌, ◌^◌, ◌<◌}
use mathlib.Core.Path.{◌≡◌, refl, ap₂}
use mathlib.Core.List.{List, [], ◌∷◌, ◌++◌, append_assoc}
use native.Mathlib.Omega.{arith}
use libsqfs.Prelude.Lists.{length, length-append, drop, drop-append_length, All}
use libsqfs.Prelude.Bytes.{le_bytes, read_le, length-le_bytes, read_le-le_bytes}

-- The width and the value of each field.
abbrev pub Fields : Type 0
Fields = List (ℕ × ℕ)

unfoldable pub encode_fields : Fields → List ℕ
encode_fields [] = []
encode_fields ((w, v) ∷ fs) = le_bytes w v ++ encode_fields fs

-- A reader of fields of given widths.
unfoldable pub read_fields : List ℕ → List ℕ → List ℕ
read_fields [] bytes = []
read_fields (w ∷ ws) bytes = read_le w bytes ∷ read_fields ws (drop w bytes)

abbrev pub widths : Fields → List ℕ
widths [] = []
widths ((w, v) ∷ fs) = w ∷ widths fs

abbrev pub values : Fields → List ℕ
values [] = []
values ((w, v) ∷ fs) = v ∷ values fs

abbrev pub sum : List ℕ → ℕ
sum [] = 0
sum (n ∷ ns) = n + sum ns

-- Each value fits its field.
abbrev pub Fit : Fields → Type 0
Fit = All (λ f. f.1 < 256 ^ f.0)

pub length-encode_fields : (fs : Fields) → length (encode_fields fs) ≡ sum (widths fs)
unfolding encode_fields
length-encode_fields [] = refl
length-encode_fields ((w, v) ∷ fs) = omega (
  arith,
  length-append (le_bytes w v) (encode_fields fs),
  length-le_bytes w v,
  length-encode_fields fs,
)

pub read_fields-encode_fields :
    (fs : Fields) (rest : List ℕ)
    → Fit fs
    → read_fields (widths fs) (encode_fields fs ++ rest) ≡ values fs
unfolding encode_fields read_fields
read_fields-encode_fields [] rest h = refl
read_fields-encode_fields ((w, v) ∷ fs) rest (fits, h) =
    let whole = append_assoc (le_bytes w v) (encode_fields fs) rest in
    let cut : drop w (le_bytes w v ++ (encode_fields fs ++ rest)) ≡ encode_fields fs ++ rest =
      rw (length-le_bytes w v) at (drop-append_length (le_bytes w v) (encode_fields fs ++ rest)) in
    rw (whole, cut)
      (ap₂ ◌∷◌ (read_le-le_bytes w v (encode_fields fs ++ rest) fits)
        (read_fields-encode_fields fs rest h))
