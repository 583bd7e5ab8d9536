-- ===== src/Sltar/Device.antt =====
-- The device numbers of bitcoin-core/sltar.c: `gnu_dev_major`, `gnu_dev_minor` and
-- `gnu_dev_makedev`. `unsigned int` has 32 bits and `unsigned long long int` 64.
pub mod Fields
use electrum_lightning_test.Base.{ℕ, ◌*◌, ◌/◌, ◌%◌, ◌^◌, bit_and, bit_or}

unfoldable pub gnu_dev_major : ℕ → ℕ
gnu_dev_major dev =
    bit_or (bit_and (dev / 2 ^ 31 / 2 ^ 1) 0xfffff000) (bit_and (dev / 2 ^ 8) 0xfff) % 2 ^ 32

unfoldable pub gnu_dev_minor : ℕ → ℕ
gnu_dev_minor dev = bit_or (bit_and (dev / 2 ^ 12) 0xffffff00) (bit_and dev 0xff) % 2 ^ 32

unfoldable pub gnu_dev_makedev : ℕ → ℕ → ℕ
gnu_dev_makedev major minor =
    bit_or
      (bit_or
        (bit_or (bit_and major 0xfffff000 * 2 ^ 32 % 2 ^ 64) (bit_and major 0xfff * 2 ^ 8 % 2 ^ 64))
        (bit_and minor 0xffffff00 * 2 ^ 12 % 2 ^ 64))
      (bit_and minor 0xff)
