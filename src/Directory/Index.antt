-- ===== src/Directory/Index.antt =====
-- The index of a directory: `libsqfs_directory_inode_prune_index` (src/directory.c).
use mathlib.Core.List.{Memᴰ}
use mathlib.Core.List.Memᴰ.{head, tail}
use libsqfs.Prelude.{
  ℕ, suc, ◌+◌, ◌^◌, ◌≤◌, ◌<◌, ◌≡◌, inl, inr, refl, List, [], ◌∷◌, length, All, ltb, if◌then◌else◌,
  Bool-cases, arith,
}
use libsqfs.Directory.Encode.{sub_size}
use libsqfs.Directory.Table.{Directory}

-- `while (current && current->next_indexed)`, over the entries behind `current`: what stays of them,
-- and the count.
unfoldable prune_from : (current count : ℕ) → List ℕ → List ℕ × ℕ
prune_from current count [] = ([], count)
prune_from current count (n ∷ rest) =
    let (kept, count') = prune_from n count rest in
    let skipped = prune_from current (sub_size count 1) rest in
    if ltb 128 (sub_size n current) then (n ∷ kept, count') else skipped

-- The first entry always leaves the index.
unfoldable pub prune_index : Directory → Directory
unfolding prune_from
prune_index dir = elim dir.first_indexed [
  | [] ↦ dir
  | first ∷ rest ↦
      let (kept, count) = prune_from first dir.indexed_count rest in
      record dir { first_indexed = kept; indexed_count = sub_size count 1 }
]

-- Serial numbers that rise, behind `n`.
abbrev IsRising : ℕ → List ℕ → Type 0
IsRising n [] = Unit
IsRising n (m ∷ ms) = (n < m) × (m < 2 ^ 64) × IsRising m ms

-- Each number is more than 128 above the one before.
abbrev pub IsSpaced : ℕ → List ℕ → Type 0
IsSpaced n [] = Unit
IsSpaced n (m ∷ ms) = (n + 128 < m) × IsSpaced m ms

-- A number of `kept` is at most 128 below `n`.
abbrev pub IsNear : List ℕ → ℕ → Type 0
IsNear kept n = (m : ℕ) × Memᴰ m kept × (m ≤ n) × (n ≤ m + 128)

IsNear-more : (k : ℕ) (kept ns : List ℕ) → All (IsNear kept) ns → All (IsNear (k ∷ kept)) ns
IsNear-more k kept [] h = tt
IsNear-more k kept (n ∷ ns) ((m, i, low, high), h) =
    ((m, tail i, low, high), IsNear-more k kept ns h)

IsRising-below : (a b : ℕ) (ns : List ℕ) → a < b → IsRising b ns → IsRising a ns
IsRising-below a b [] lt h = tt
IsRising-below a b (n ∷ ns) lt h = (omega (arith, h.0), h.1, h.2)

-- The result of the loop: spaced, counted, near everything, and a part of what there was.
record IsPruned (current extra : ℕ) (ns : List ℕ) (r : List ℕ × ℕ) : Type 0 where
  spaced : IsSpaced current r.0
  counted : r.1 ≡ extra + length r.0
  fewer : length r.0 ≤ length ns
  near : All (IsNear (current ∷ r.0)) ns
  old : All (λ n. Memᴰ n ns) r.0

old_more : (k : ℕ) (ns kept : List ℕ) → All (λ n. Memᴰ n ns) kept → All (λ n. Memᴰ n (k ∷ ns)) kept
old_more k ns [] h = tt
old_more k ns (n ∷ kept) (i, h) = (tail i, old_more k ns kept h)

prune_from_lem :
    (current extra : ℕ) (ns : List ℕ)
    → IsRising current ns
    → extra + length ns < 2 ^ 64
    → IsPruned current extra ns (prune_from current (extra + length ns) ns)
unfolding prune_from
prune_from_lem current extra [] h small = record {
  spaced = tt;
  counted = refl;
  fewer = omega arith;
  near = tt;
  old = tt;
}
prune_from_lem current extra (n ∷ ns) (lt, fits, h) small =
    elim (Bool-cases (ltb 128 (sub_size n current))) [
      | inl far ↦
          let count : extra + suc (length ns) ≡ suc extra + length ns = omega arith in
          let r = prune_from_lem n (suc extra) ns h (omega arith) in
          rw (far, count)
            (record {
              spaced = (ground (arith, far), r.spaced);
              counted = omega (arith, r.counted);
              fewer = omega (arith, r.fewer);
              near = (
                (n, tail (head refl), omega arith, omega arith),
                IsNear-more current (n ∷ _) ns r.near,
              );
              old = (head refl, old_more n ns _ r.old);
            })
      | inr close ↦
          let count : sub_size (extra + suc (length ns)) 1 ≡ extra + length ns = omega arith in
          let r =
            prune_from_lem current extra ns (IsRising-below current n ns lt h) (omega arith) in
          rw (close, count)
            (record {
              spaced = r.spaced;
              counted = r.counted;
              fewer = omega (arith, r.fewer);
              near = ((current, head refl, omega arith, ground (arith, close)), r.near);
              old = old_more n ns _ r.old;
            })
    ]

-- The index of a directory that has just been encoded, its serial numbers rising from `first`. What
-- stays was indexed before, follows `first` and each other by more than 128 entries, and is counted by
-- `indexed_count`; from every entry that was indexed it is at most 128 entries back to `first` or to
-- one that is still indexed.
pub prune_index-IsPruned :
    (dir : Directory) (first : ℕ) (rest : List ℕ)
    → dir.first_indexed ≡ first ∷ rest
    → dir.indexed_count ≡ suc (length rest)
    → IsRising first rest
    → suc (length rest) < 2 ^ 64
    → let pruned = prune_index dir in
      IsSpaced first pruned.first_indexed
      × (pruned.indexed_count ≡ length pruned.first_indexed)
      × All (IsNear (first ∷ pruned.first_indexed)) rest
      × All (λ n. Memᴰ n rest) pruned.first_indexed
unfolding prune_index
prune_index-IsPruned dir first rest chain count rising small =
    let r = prune_from_lem first 1 rest rising (omega arith) in
    let counted : sub_size (prune_from first (1 + length rest) rest).1 1
        ≡ length (prune_from first (1 + length rest) rest).0 =
      omega (arith, r.counted, r.fewer) in
    let one : suc (length rest) ≡ 1 + length rest = omega arith in
    rw (chain, count, one) (r.spaced, counted, r.near, r.old)
