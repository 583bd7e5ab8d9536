-- ===== src/Sltar/Device/Fields.antt =====
-- Which bits of a device number hold the major and the minor number.
use electrum_lightning_test.Base.{ℕ, ◌+◌, ◌*◌, ◌/◌, ◌%◌, ◌^◌, ◌<◌, ◌≡◌, arith}
use electrum_lightning_test.Base.Bits.{
  bit_and_low, bit_and_field, bit_or_below, bit_or_split, bit_or-zero,
}
use electrum_lightning_test.Sltar.Device.{gnu_dev_major, gnu_dev_minor, gnu_dev_makedev}

-- The major number without masks: bits 44 to 63, then bits 8 to 19.
pub major_fields :
    (dev : ℕ) → dev < 2 ^ 64 → gnu_dev_major dev ≡ dev / 2 ^ 44 * 2 ^ 12 + dev / 2 ^ 8 % 2 ^ 12
unfolding gnu_dev_major
major_fields dev h = ground (
  arith,
  bit_and_field 20 12 (dev / 2 ^ 31 / 2 ^ 1),
  bit_and_low 12 (dev / 2 ^ 8),
  bit_or_below 12 (dev / 2 ^ 44) (dev / 2 ^ 8 % 2 ^ 12),
)

-- The minor number without masks: bits 20 to 43, then bits 0 to 7.
pub minor_fields :
    (dev : ℕ) → dev < 2 ^ 64 → gnu_dev_minor dev ≡ dev / 2 ^ 20 % 2 ^ 24 * 2 ^ 8 + dev % 2 ^ 8
unfolding gnu_dev_minor
minor_fields dev h = ground (
  arith,
  bit_and_field 24 8 (dev / 2 ^ 12),
  bit_and_low 8 dev,
  bit_or_below 8 (dev / 2 ^ 20 % 2 ^ 24) (dev % 2 ^ 8),
)

-- The four fields of a device number, added up.
pub makedev_fields :
    (major minor : ℕ)
    → major < 2 ^ 32
    → minor < 2 ^ 32
    → gnu_dev_makedev major minor
      ≡ major / 2 ^ 12 * 2 ^ 44 + minor / 2 ^ 8 * 2 ^ 20 + major % 2 ^ 12 * 2 ^ 8 + minor % 2 ^ 8
unfolding gnu_dev_makedev
makedev_fields major minor h k = ground (
  arith,
  bit_and_field 20 12 major,
  bit_and_low 12 major,
  bit_and_field 24 8 minor,
  bit_and_low 8 minor,
  bit_or_below 44 (major / 2 ^ 12) (major % 2 ^ 12 * 2 ^ 8),
  bit_or_split 20 (major / 2 ^ 12 * 2 ^ 24) (major % 2 ^ 12 * 2 ^ 8) (minor / 2 ^ 8) 0,
  bit_or_below 24 (major / 2 ^ 12) (minor / 2 ^ 8),
  bit_or-zero (major % 2 ^ 12 * 2 ^ 8),
  bit_or_below 8 (major / 2 ^ 12 * 2 ^ 36 + minor / 2 ^ 8 * 2 ^ 12 + major % 2 ^ 12)
      (minor % 2 ^ 8),
)

-- Taking a device number apart gives back the two numbers that it was made of.
pub major-makedev :
    (major minor : ℕ)
    → major < 2 ^ 32
    → minor < 2 ^ 32
    → (gnu_dev_major (gnu_dev_makedev major minor) ≡ major)
      × (gnu_dev_minor (gnu_dev_makedev major minor) ≡ minor)
major-makedev major minor h k = ground (
  arith,
  makedev_fields major minor h k,
  major_fields (gnu_dev_makedev major minor),
  minor_fields (gnu_dev_makedev major minor),
)

-- Every 64-bit device number is made of its major and its minor number.
pub makedev-major :
    (dev : ℕ) → dev < 2 ^ 64 → gnu_dev_makedev (gnu_dev_major dev) (gnu_dev_minor dev) ≡ dev
makedev-major dev h = ground (
  arith,
  major_fields dev h,
  minor_fields dev h,
  makedev_fields (gnu_dev_major dev) (gnu_dev_minor dev),
)
