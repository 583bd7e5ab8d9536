-- ===== src/Patchelf/Word/Bytes.antt =====
-- Bytes and the numbers that they stand for.
use electrum_lightning_test.Base.{
  ℕ, zero, suc, ◌+◌, ◌*◌, ◌/◌, ◌%◌, ◌^◌, ◌<◌, ◌≡◌, refl, ap, ap₂, ◌∙◌, arith, List, [], ◌∷◌, length,
  All,
}
use electrum_lightning_test.Patchelf.Word.{host_bytes, host_value}
use native.Mathlib.Nat.{pow-suc, div-add-mod, div-div-eq-div-mul}

abbrev pub IsByte : ℕ → Type 0
IsByte b = b < 256

pub length-host_bytes : (w i : ℕ) → length (host_bytes w i) ≡ w
unfolding host_bytes
length-host_bytes zero i = refl
length-host_bytes (suc w) i = ap suc (length-host_bytes w (i / 256))

pub host_bytes-IsByte : (w i : ℕ) → All IsByte (host_bytes w i)
unfolding host_bytes
host_bytes-IsByte zero i = tt
host_bytes-IsByte (suc w) i = (omega arith, host_bytes-IsByte w (i / 256))

mod_split : (i p : ℕ) → i % 256 + 256 * (i / 256 % p) ≡ i % (256 * p)
mod_split i p = omega (arith, div-add-mod (i / 256) p, whole)
  where
    whole : 256 * p * (i / 256 / p) + i % (256 * p) ≡ i
    whole = rw div-div-eq-div-mul (div-add-mod i (256 * p))

pub host_value-host_bytes : (w i : ℕ) → host_value (host_bytes w i) ≡ i % 256 ^ w
unfolding host_value host_bytes
host_value-host_bytes zero i = omega arith
host_value-host_bytes (suc w) i =
    omega (arith, host_value-host_bytes w (i / 256), mod_split i (256 ^ w), ap (λ m. i % m) grow)
  where
    grow : 256 ^ suc w ≡ 256 * 256 ^ w
    grow = omega (arith, pow-suc 256 w)

pub host_bytes-host_value :
    (bs : List ℕ) → All IsByte bs → host_bytes (length bs) (host_value bs) ≡ bs
unfolding host_value host_bytes
host_bytes-host_value [] h = refl
host_bytes-host_value (b ∷ bs) h = ap₂ ◌∷◌ (omega arith) (
    ap (host_bytes (length bs))
      (let e : (b + 256 * host_value bs) / 256 ≡ host_value bs = omega arith in e)
    ∙ host_bytes-host_value bs h.1)

pub host_value-lt : (bs : List ℕ) → All IsByte bs → host_value bs < 256 ^ length bs
unfolding host_value
host_value-lt [] h = omega arith
host_value-lt (b ∷ bs) h = omega (arith, host_value-lt bs h.1, pow-suc 256 (length bs))
