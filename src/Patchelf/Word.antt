-- ===== src/Patchelf/Word.antt =====
-- `rdi`, `wri` and `roundUp` of bitcoin-core/patchelf-0.9/src/patchelf.cc. A field of a struct is
-- its bytes in memory; the host is little-endian (i486, x86-64), so `host_bytes` and `host_value`
-- are how it stores and loads an integer itself.
pub mod Bytes
pub mod Endian
pub mod Round
use electrum_lightning_test.Base.{
  ℕ, zero, suc, ◌+◌, ◌-◌, ◌*◌, ◌/◌, ◌%◌, ◌^◌, Bool, List, [], ◌∷◌, length, bit_or, if◌then◌else◌,
}

-- The `w` bytes of an integer of `w` bytes in the host's memory.
unfoldable pub host_bytes : ℕ → ℕ → List ℕ
host_bytes zero i = []
host_bytes (suc w) i = (i % 256) ∷ host_bytes w (i / 256)

unfoldable pub host_value : List ℕ → ℕ
host_value [] = 0
host_value (b ∷ bs) = b + 256 * host_value bs

-- The loop of `rdi` at byte `n`, for an integer type of `w` bytes: `r |= ((I) byte) << …`.
unfoldable pub rdi_loop : Bool → ℕ → (n r : ℕ) → List ℕ → ℕ
rdi_loop little w n r [] = r
rdi_loop little w n r (b ∷ bs) =
    let shift = if little then n * 8 else (w - n - 1) * 8 in
    rdi_loop little w (n + 1) (bit_or r (b * 2 ^ shift % 2 ^ (8 * w))) bs

unfoldable pub rdi : Bool → List ℕ → ℕ
unfolding rdi_loop
rdi little bytes = rdi_loop little (length bytes) 0 0 bytes

-- What `wri(t, i)` stores into a `t` of `w` bytes: `t = rdi((I) i)`. It returns `i`.
unfoldable pub wri : Bool → ℕ → ℕ → List ℕ
unfolding rdi host_bytes
wri little w i = host_bytes w (rdi little (host_bytes w i))

-- `static unsigned int roundUp(unsigned int n, unsigned int m)`: the arguments are converted to 32
-- bits, and so are the difference, the sum and the product. `m` is a page size or an alignment.
unfoldable pub round_up : ℕ → ℕ → ℕ
round_up n m = ((n % 2 ^ 32 + 2 ^ 32 - 1) % 2 ^ 32 / m + 1) % 2 ^ 32 * m % 2 ^ 32
