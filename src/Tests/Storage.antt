-- ===== src/Tests/Storage.antt =====
-- A file as a function from offsets to bytes: it does what `IsFile` asks of a destination's file.
use libsqfs.Prelude.{
  ℕ, zero, suc, ◌+◌, ◌-◌, ◌<◌, ◌≡◌, refl, ap, ap₂, ◌∙◌, sym, true, Option, some, List, [], ◌∷◌,
  ◌++◌, length, leb, if◌then◌else◌, arith,
}
use libsqfs.Output.{Destination, IsFile, Output}

abbrev pub Storage : Type 0
Storage = ℕ → ℕ

get_or : List ℕ → ℕ → ℕ → ℕ
get_or [] i d = d
get_or (x ∷ xs) zero d = x
get_or (x ∷ xs) (suc i) d = get_or xs i d

overlay : Storage → List ℕ → ℕ → Storage
overlay d bytes o i = if leb o i then get_or bytes (i - o) (d i) else d i

unfoldable pub storage : Destination Storage
unfolding overlay get_or
storage = record {
  pwrite = λ d bytes o. (some (length bytes), overlay d bytes o);
  truncate = λ d o. (true, d);
}

unfoldable pub read : Storage → ℕ → ℕ → List ℕ
read d o zero = []
read d o (suc n) = d o ∷ read d (o + 1) n

read_add : (d : Storage) (o m n : ℕ) → read d o (m + n) ≡ read d o m ++ read d (o + m) n
unfolding read
read_add d o zero n = ap₂ (read d) (omega arith) (omega arith)
read_add d o (suc m) n =
    let e : suc m + n ≡ suc (m + n) = omega arith in
    let e' : o + 1 + m ≡ o + suc m = omega arith in
    rw e (
      ap (λ (l : List ℕ). d o ∷ l)
        (read_add d (o + 1) m n ∙ ap (λ k. read d (o + 1) m ++ read d k n) e'))

read_of :
    (d : Storage) (o : ℕ) (bytes : List ℕ)
    → ((i : ℕ) → i < length bytes → d (o + i) ≡ get_or bytes i 0)
    → read d o (length bytes) ≡ bytes
unfolding read get_or
read_of d o [] h = refl
read_of d o (b ∷ bytes) h =
    ap₂ ◌∷◌ (ap d (omega arith) ∙ h 0 (omega arith))
      (read_of d (o + 1) bytes (λ i lt. ap d (omega arith) ∙ h (suc i) (omega arith)))

get_or-lt : (bytes : List ℕ) (i d e : ℕ) → i < length bytes → get_or bytes i d ≡ get_or bytes i e
unfolding get_or
get_or-lt [] i d e h = elim h [ ]
get_or-lt (b ∷ bytes) zero d e h = refl
get_or-lt (b ∷ bytes) (suc i) d e h = get_or-lt bytes i d e (omega arith)

read_same : (d e : Storage) (o n : ℕ) → ((i : ℕ) → i < o + n → d i ≡ e i) → read d o n ≡ read e o n
unfolding read
read_same d e o zero h = refl
read_same d e o (suc n) h =
    ap₂ ◌∷◌ (h o (omega arith)) (read_same d e (o + 1) n (λ i lt. h i (omega arith)))

overlay-IsFile_at :
    (d : Storage) (bytes : List ℕ) (o i : ℕ)
    → i < length bytes
    → overlay d bytes o (o + i) ≡ get_or bytes i 0
unfolding overlay
overlay-IsFile_at d bytes o i lt =
    let e : o + i - o ≡ i = omega arith in ground (arith, e, get_or-lt bytes i (d (o + i)) 0 lt)

overlay_before : (d : Storage) (bytes : List ℕ) (o i : ℕ) → i < o → overlay d bytes o i ≡ d i
unfolding overlay
overlay_before d bytes o i lt = ground arith

written :
    (d d' : Storage) (bytes : List ℕ) (o : ℕ)
    → storage.pwrite d bytes o ≡ (some (length bytes), d')
    → d' ≡ overlay d bytes o
unfolding storage
written d d' bytes o e = sym (ap (λ (r : Option ℕ × Storage). r.1) e)

pub storage-IsFile : IsFile storage read
storage-IsFile = record {
  read_none = λ d o. unfold read in refl;
  read_add = read_add;
  read_written = λ d d' bytes o e.
      rw (written d d' bytes o e)
        (read_of (overlay d bytes o) o bytes (overlay-IsFile_at d bytes o));
  read_before = λ d d' bytes o p n e le.
      rw (written d d' bytes o e)
        (read_same (overlay d bytes o) d p n (λ i lt. overlay_before d bytes o i (omega arith)));
}

-- An empty file.
abbrev pub blank : Output Storage
blank = record { disk = λ i. 0; size = 96 }
