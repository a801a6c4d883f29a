-- ===== src/Superblock/Reads.antt =====
-- What a reader of the superblock finds (src/superblock.c).
use libsqfs.Prelude.{ℕ, ◌+◌, ◌*◌, ◌/◌, ◌%◌, ◌^◌, ◌<◌, ◌≡◌, Bool, true, false, if◌then◌else◌, ◌==◌}
use libsqfs.Superblock.Defs.{Fragments, Options, flags}

-- Bit `n` of a number.
abbrev pub bit : ℕ → ℕ → ℕ
bit n v = v / 2 ^ n % 2

abbrev bit_of : Bool → ℕ
bit_of true = 1
bit_of false = 0

abbrev bit_unless : Bool → ℕ
bit_unless true = 0
bit_unless false = 1

abbrev never_bit : Fragments → ℕ
never_bit Fragments.never = 1
never_bit _ = 0

abbrev always_bit : Fragments → ℕ
always_bit Fragments.always = 1
always_bit _ = 0

-- Each option has its bit in the flags, and no other bit is set but that for duplicates.
pub record HasBits (o : Options) (v : ℕ) : Type 0 where
  pub no_inodes : bit 0 v ≡ bit_unless o.inode_compression
  pub no_data : bit 1 v ≡ bit_unless o.data_compression
  pub no_fragments : bit 3 v ≡ bit_unless o.fragment_compression
  pub never : bit 4 v ≡ never_bit o.fragments
  pub always : bit 5 v ≡ always_bit o.fragments
  pub duplicates : bit 6 v ≡ 1
  pub exportable : bit 7 v ≡ bit_of o.exportable
  pub compressor : bit 10 v ≡ bit_of o.has_compressor_options
  pub small : v < 2 ^ 11

-- The flags as a sum.
abbrev flag_sum : Bool → Bool → Bool → Bool → Bool → Fragments → ℕ
flag_sum a b c d e f =
    bit_unless a
    + 2 * bit_unless b
    + 8 * bit_unless c
    + 16 * never_bit f
    + 32 * always_bit f
    + 64
    + 128 * bit_of d
    + 1024 * bit_of e

abbrev options : Bool → Bool → Bool → Bool → Bool → Fragments → Options
options a b c d e f = record {
  inode_compression = a;
  data_compression = b;
  fragment_compression = c;
  fragments = f;
  exportable = d;
  has_compressor_options = e;
}

-- A test of all cases.
abbrev every : (Bool → Bool) → Bool
every p = if p true then p false else false

abbrev every_choice : (Fragments → Bool) → Bool
every_choice p =
    if p Fragments.never then (if p Fragments.small then p Fragments.always else false) else false

abbrev sums : Bool → Bool → Bool → Bool → Bool → Fragments → Bool
sums a b c d e f = flags (options a b c d e f) == flag_sum a b c d e f

abbrev sums_5 : Bool → Bool → Bool → Bool → Bool → Bool
sums_5 a b c d e = every_choice (sums a b c d e)

abbrev sums_4 : Bool → Bool → Bool → Bool → Bool
sums_4 a b c d = every (sums_5 a b c d)

abbrev sums_3 : Bool → Bool → Bool → Bool
sums_3 a b c = every (sums_4 a b c)

abbrev sums_2 : Bool → Bool → Bool
sums_2 a b = every (sums_3 a b)

abbrev sums_1 : Bool → Bool
sums_1 a = every (sums_2 a)
