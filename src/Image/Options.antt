-- ===== src/Image/Options.antt =====
-- The options of an image (src/internal.h, src/image.c).
use Prim.Native.Nat.{bit_and}
use libsqfs.Prelude.{
  ℕ, zero, suc, ◌+◌, ◌-◌, ◌/◌, ◌%◌, ◌^◌, Bool, true, false, Option, none, some, List, [], ◌∷◌, ltb,
  ◌==◌, if◌then◌else◌,
}
use libsqfs.Memory.{Memory, malloc}
use libsqfs.Superblock.Defs.{Fragments}

-- A `libsqfs_image_options`, in an image whose compressors are a `C`.
pub record ImageOptions (C : Type 0) : Type 0 where
  pub inode_compression : Bool
  pub data_compression : Bool
  pub fragment_compression : Bool
  pub fragments : Fragments
  pub exportable : Bool
  pub compressor : C
  pub padding : Bool
  pub creation_time_set : Bool
  pub creation_time : ℕ
  pub block_size : ℕ
  pub block_size_log : ℕ

-- `while( (block_size >>= 1) )`, from the values of `block_size` and `block_size_log`.
unfoldable pub count_shifts : (fuel n log : ℕ) → ℕ
count_shifts zero n log = log
count_shifts (suc fuel) n log =
    let rest = count_shifts fuel (n / 2) (log + 1) in if n / 2 == 0 then log else rest

-- `copy` is the compressor's function of that name.
module _ {C : Type 0} (copy : C → Memory → Option C × Memory) where
  -- libsqfs_image_options_defaults, with the copy of the default compressor.
  abbrev pub options_defaults : C → ImageOptions C
  options_defaults compressor = record {
    inode_compression = true;
    data_compression = true;
    fragment_compression = true;
    fragments = Fragments.small;
    exportable = false;
    compressor = compressor;
    padding = true;
    creation_time_set = false;
    creation_time = 0;
    block_size = 2 ^ 17;
    block_size_log = 17;
  }

  -- libsqfs_image_options_create
  unfoldable options_create : C → Memory → Option (ImageOptions C) × Memory
  options_create default mem =
      let (got, mem') = malloc mem in
      let (copied, mem'') = copy default mem' in
      if got
      then elim copied [ none ↦ (none, mem'') | some c ↦ (some (options_defaults c), mem'') ]
      else (none, mem')

  -- libsqfs_image_options_copy
  unfoldable options_copy : ImageOptions C → Memory → Option (ImageOptions C) × Memory
  options_copy options mem =
      let (got, mem') = malloc mem in
      let (copied, mem'') = copy options.compressor mem' in
      if got
      then elim copied [
        | none ↦ (none, mem'')
        | some c ↦ (some (record options { compressor = c }), mem'')
      ]
      else (none, mem')

  -- libsqfs_image_options_set_compressor
  unfoldable pub set_compressor : ImageOptions C → C → Memory → ImageOptions C × Memory
  set_compressor options compressor mem =
      let (copied, mem') = copy compressor mem in
      elim copied [ none ↦ (options, mem') | some c ↦ (record options { compressor = c }, mem') ]

-- libsqfs_image_options_set_block_size, of a `size_t` of 64 bits.
unfoldable pub set_block_size : {C : Type 0} → ImageOptions C → ℕ → ImageOptions C
unfolding count_shifts
set_block_size options n =
    let sized = record options { block_size = n; block_size_log = count_shifts 64 n 0 } in
    if bit_and n ((n + (2 ^ 64 - 1)) % 2 ^ 64) == 0
    then (if ltb n 4096 then options else if ltb 1048576 n then options else sized)
    else options

-- The calls that change options, in the order of src/image.c.
pub data Setting (C : Type 0) : Type 0 where
  inode_compression : Bool → Setting C
  data_compression : Bool → Setting C
  fragment_compression : Bool → Setting C
  exportable : Bool → Setting C
  padding : Bool → Setting C
  creation_time : ℕ → Setting C
  fragment_option : Fragments → Setting C
  block_size : ℕ → Setting C
  compressor : C → Setting C

module _ {C : Type 0} (copy : C → Memory → Option C × Memory) where
  -- One call: libsqfs_image_options_set_inode_compression and those behind it.
  unfoldable pub set_option : ImageOptions C → Setting C → Memory → ImageOptions C × Memory
  unfolding set_block_size set_compressor
  set_option o (Setting.inode_compression b) mem = (record o { inode_compression = b }, mem)
  set_option o (Setting.data_compression b) mem = (record o { data_compression = b }, mem)
  set_option o (Setting.fragment_compression b) mem = (record o { fragment_compression = b }, mem)
  set_option o (Setting.exportable b) mem = (record o { exportable = b }, mem)
  set_option o (Setting.padding b) mem = (record o { padding = b }, mem)
  set_option o (Setting.creation_time t) mem =
      (record o { creation_time = t; creation_time_set = true }, mem)
  set_option o (Setting.fragment_option f) mem = (record o { fragments = f }, mem)
  set_option o (Setting.block_size n) mem = (set_block_size o n, mem)
  set_option o (Setting.compressor c) mem = set_compressor copy o c mem

  -- Calls one after the other.
  unfoldable pub set_options : ImageOptions C → List (Setting C) → Memory → ImageOptions C × Memory
  unfolding set_option
  set_options o [] mem = (o, mem)
  set_options o (s ∷ ss) mem = let (o', mem') = set_option o s mem in set_options o' ss mem'
