-- ===== src/Inode/Covers.antt =====
-- The pieces of a file (`libsqfs_regular_inode_create`, src/regular.c) cover it.
use native.Mathlib.Nat.{div-mul-le_self, lt-div-mul-add, div-add-mod, mod-lt}
use libsqfs.Prelude.{
  append-nil, subst, ℕ, zero, suc, ◌+◌, ◌-◌, ◌*◌, ◌/◌, ◌%◌, ◌≤◌, ◌<◌, ◌≡◌, refl, inl, inr, false,
  List, [], ◌∷◌, ◌++◌, ltb, ◌==◌, Bool-cases, arith,
}
use libsqfs.DataSource.Defs.{Data, Piece}
use libsqfs.Superblock.Defs.{Fragments}
use libsqfs.Inode.Pieces.{block_count, cut, block_pieces, tail_pieces}

-- Pieces that follow each other from `here` to `end`, none of them empty or larger than a block.
abbrev pub Covers : (block_size here end : ℕ) → List Piece → Type 0
Covers block_size here end [] = here ≡ end
Covers block_size here end (p ∷ ps) =
    (p.offset ≡ here)
    × (0 < p.size)
    × (p.size ≤ block_size)
    × Covers block_size (here + p.size) end ps

module _ (source : Data) (block_size file_size : ℕ) where
  abbrev blocks : ℕ → ℕ → List Piece
  blocks = block_pieces source block_size file_size

  -- Blocks that all are full.
  full_blocks :
      (n left : ℕ) (rest : List Piece)
      → 0 < block_size
      → (n + left) * block_size ≤ file_size
      → Covers block_size ((n + left) * block_size) file_size rest
      → Covers block_size (n * block_size) file_size (blocks n left ++ rest)
  unfolding block_pieces
  full_blocks n zero rest some_size inside h = let e : n + 0 ≡ n = omega arith in rw e at h
  full_blocks n (suc left) rest some_size inside h =
      let e : n + suc left ≡ n + 1 + left = omega arith in
      let inside' : (n + 1 + left) * block_size ≤ file_size = rw e at inside in
      let full : ltb (file_size - n * block_size) block_size ≡ false = ground (arith, inside') in
      let next : n * block_size + block_size ≡ (n + 1) * block_size = omega arith in
      rw full (
        refl,
        some_size,
        omega arith,
        rw next (full_blocks (n + 1) left rest some_size inside' (rw e at h)),
      )

  -- Blocks the last of which ends the file.
  ending_blocks :
      (n left : ℕ)
      → (n + left) * block_size < file_size
      → file_size ≤ (n + suc left) * block_size
      → Covers block_size (n * block_size) file_size (blocks n (suc left))
  unfolding block_pieces
  ending_blocks n zero more enough =
      elim (Bool-cases (ltb (file_size - n * block_size) block_size)) [
        | inl short ↦ rw short (refl, omega arith, omega arith, omega arith)
        | inr full ↦ rw full (refl, ground (arith, full), omega arith, ground (arith, full))
      ]
  ending_blocks n (suc left) more enough =
      let e : n + suc left ≡ n + 1 + left = omega arith in
      let e' : n + suc (suc left) ≡ n + 1 + suc left = omega arith in
      let more' : (n + 1 + left) * block_size < file_size = rw e at more in
      let enough' : file_size ≤ (n + 1 + suc left) * block_size = rw e' at enough in
      let full : ltb (file_size - n * block_size) block_size ≡ false = ground (arith, more') in
      let next : n * block_size + block_size ≡ (n + 1) * block_size = omega arith in
      let some_size : 0 < block_size = ground (arith, more, enough) in
      rw full (refl, some_size, omega arith, rw next (ending_blocks (n + 1) left more' enough'))

  rounded_up :
      (count : ℕ)
      → count * block_size ≤ file_size + block_size - 1
      → file_size + block_size - 1 < count * block_size + block_size
      → Covers block_size 0 file_size (blocks 0 count)
  unfolding block_pieces
  rounded_up zero most least = omega arith
  rounded_up (suc left) most least =
      let start : 0 * block_size ≡ 0 = omega arith in
      subst (λ here. Covers block_size here file_size (blocks 0 (suc left))) start
        (ending_blocks 0 left (omega arith) (omega arith))

  -- Blocks with the last one cut short where the file ends in it.
  all_blocks :
      0 < block_size → Covers block_size 0 file_size (blocks 0 (block_count block_size file_size))
  all_blocks some_size =
      rounded_up (block_count block_size file_size)
        (div-mul-le_self (file_size + block_size - 1) block_size) (lt-div-mul-add some_size)

  -- The tail behind full blocks.
  tail_Covers :
      0 < block_size
      → Covers block_size
          (file_size / block_size * block_size)
          file_size
          (tail_pieces source file_size (file_size % block_size))
  tail_Covers some_size =
      let parts = div-add-mod file_size block_size in
      let small = mod-lt file_size some_size in
      elim (Bool-cases (file_size % block_size == 0)) [
        | inl none_left ↦ rw none_left (ground (arith, parts, none_left))
        | inr more ↦ rw more (
          ground (arith, parts, small),
          ground (arith, more),
          omega (arith, small),
          ground (arith, parts),
        )
      ]

  short_Covers :
      file_size < block_size
      → Covers block_size 0 file_size (tail_pieces source file_size file_size)
  short_Covers h = elim (Bool-cases (file_size == 0)) [
    | inl empty ↦ rw empty (ground (arith, empty))
    | inr more ↦ rw more (omega arith, ground (arith, more), omega arith, omega arith)
  ]

  -- The pieces that a file is cut into, by any of the options for fragments: they follow each other from the
  -- beginning of the file to its end, and none is empty or larger than a block.
  pub cut-Covers :
      (fragments : Fragments)
      → 0 < block_size
      → let (nblocks, tail_size) = cut fragments block_size file_size in
        Covers block_size 0 file_size (
          block_pieces source block_size file_size 0 nblocks
          ++ tail_pieces source file_size tail_size)
  unfolding cut block_pieces
  cut-Covers Fragments.never some_size =
      rw (append-nil (blocks 0 (block_count block_size file_size))) (all_blocks some_size)
  cut-Covers Fragments.small some_size = elim (Bool-cases (ltb file_size block_size)) [
    | inl short ↦ rw short (short_Covers (ground (arith, short)))
    | inr long ↦
        rw (long, append-nil (blocks 0 (block_count block_size file_size))) (all_blocks some_size)
  ]
  cut-Covers Fragments.always some_size =
      let none_first : 0 + file_size / block_size ≡ file_size / block_size = omega arith in
      let start : 0 * block_size ≡ 0 = omega arith in
      rw start at (
        full_blocks 0 (file_size / block_size)
          (tail_pieces source file_size (file_size % block_size)) some_size
          (rw none_first (div-mul-le_self file_size block_size))
          (rw none_first (tail_Covers some_size)))
