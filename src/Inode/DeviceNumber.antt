-- ===== src/Inode/DeviceNumber.antt =====
-- The number of a device (`libsqfs_device_inode_serialize`, src/special.c), as the kernel reads it.
use Prim.Native.Nat.{bit_or}
use libsqfs.Prelude.{ℕ, ◌+◌, ◌-◌, ◌*◌, ◌/◌, ◌%◌, ◌^◌, ◌<◌, ◌≡◌, ◌∙◌, arith}
use libsqfs.Prelude.Bits.{bit_or_fields, bit_or_comm}
use libsqfs.Inode.Special.{rdev}

-- The numbers that the kernel takes from the field `rdev`.
abbrev pub major_of : ℕ → ℕ
major_of dev = dev / 2 ^ 8 % 2 ^ 12

abbrev pub minor_of : ℕ → ℕ
minor_of dev = dev % 2 ^ 8 + dev / 2 ^ 20 * 2 ^ 8

rdev_sum :
    (major minor : ℕ)
    → major < 2 ^ 12
    → minor < 2 ^ 20
    → rdev major minor ≡ minor % 2 ^ 8 + major * 2 ^ 8 + minor / 2 ^ 8 * 2 ^ 20
unfolding rdev
rdev_sum major minor h k =
    let shifted : major * 2 ^ 8 % 2 ^ 32 ≡ major * 2 ^ 8 = omega arith in
    let low : minor % 2 ^ 8 < 2 ^ 8 = omega arith in
    let first : bit_or (major * 2 ^ 8) (minor % 2 ^ 8) ≡ minor % 2 ^ 8 + major * 2 ^ 8 =
      bit_or_comm (major * 2 ^ 8) (minor % 2 ^ 8) ∙ bit_or_fields 8 (minor % 2 ^ 8) major low in
    let high : (minor - minor % 2 ^ 8) * 2 ^ 12 % 2 ^ 32 ≡ minor / 2 ^ 8 * 2 ^ 20 = omega arith in
    rw (shifted, first, high)
      (bit_or_fields 20 (minor % 2 ^ 8 + major * 2 ^ 8) (minor / 2 ^ 8) (omega arith))

-- The kernel finds the major and the minor number again, if they have at most 12 and 20 bits.
pub rdev-decodes :
    (major minor : ℕ)
    → major < 2 ^ 12
    → minor < 2 ^ 20
    → (rdev major minor < 2 ^ 32)
      × (major_of (rdev major minor) ≡ major)
      × (minor_of (rdev major minor) ≡ minor)
rdev-decodes major minor h k =
    let sum = rdev_sum major minor h k in
    (omega (arith, sum), omega (arith, sum), omega (arith, sum))
