-- ===== src/Patchelf/Word/Endian.antt =====
-- `rdi` reads the file's byte order, and `wri` stores it, on either kind of file.
use electrum_lightning_test.Base.{
  ℕ, zero, suc, ◌+◌, ◌-◌, ◌*◌, ◌%◌, ◌^◌, ◌≤◌, ◌<◌, ◌≡◌, refl, sym, ap, ◌∙◌, arith, Bool, true,
  false, List, [], ◌∷◌, length, All, bit_or, if◌then◌else◌,
}
use electrum_lightning_test.Base.Bits.{bit_or_below, bit_or_split, bit_or-zero, zero-bit_or}
use electrum_lightning_test.Patchelf.Word.{host_bytes, host_value, rdi_loop, rdi, wri}
use electrum_lightning_test.Patchelf.Word.Bytes.{
  IsByte, length-host_bytes, host_bytes-IsByte, host_value-host_bytes, host_bytes-host_value,
}
use mathlib.Core.List.{reverse, reverse_aux, reverse-reverse}
use native.Mathlib.Numerals.{towards_suc}
use native.Mathlib.Nat.{pow-suc, mul-le-mul_right, mod-eq_of_lt, one-le-pow, pow-le-pow_right}

-- The number that big-endian bytes stand for.
unfoldable pub big_value : ℕ → List ℕ → ℕ
big_value acc [] = acc
big_value acc (b ∷ bs) = big_value (acc * 256 + b) bs

shift_eight : (s : ℕ) → 2 ^ (s + 8) ≡ 256 * 2 ^ s
shift_eight s = simp towards_suc (omega arith)

pow_bytes : (n : ℕ) → 2 ^ (n * 8) ≡ 256 ^ n
pow_bytes zero = refl
pow_bytes (suc n) =
    ap (λ k. 2 ^ k) (let e : suc n * 8 ≡ n * 8 + 8 = omega arith in e)
    ∙ omega (arith, shift_eight (n * 8), pow_bytes n, pow-suc 256 n)

byte_fits : (b n : ℕ) → b < 256 → b * 256 ^ n + 256 ^ n ≤ 256 ^ suc n
byte_fits b n h = omega (arith, pow-suc 256 n, mul-le-mul_right (256 ^ n) h)

-- A byte below the type's width is shifted without loss.
no_wrap : (b n w : ℕ) → b < 256 → suc n ≤ w → b * 2 ^ (n * 8) % 2 ^ (8 * w) ≡ b * 2 ^ (n * 8)
no_wrap b n w h k = mod-eq_of_lt fits
  where
    whole : 2 ^ (8 * w) ≡ 256 ^ w
    whole = ap (λ e. 2 ^ e) (let e : 8 * w ≡ w * 8 = omega arith in e) ∙ pow_bytes w

    product : b * 2 ^ (n * 8) ≡ b * 256 ^ n
    product = ap (λ (p : ℕ). b * p) (pow_bytes n)

    positive : 1 ≤ 256 ^ n
    positive = one-le-pow n 256 (omega arith)

    wider : 256 ^ suc n ≤ 256 ^ w
    wider = pow-le-pow_right (omega arith) k

    fits : b * 2 ^ (n * 8) < 2 ^ (8 * w)
    fits = omega (arith, whole, product, positive, wider, byte_fits b n h)

-- One byte above the bits read so far.
or_above : (n r b : ℕ) → r < 256 ^ n → bit_or r (b * 2 ^ (n * 8)) ≡ r + b * 256 ^ n
or_above n r b h = ground (
  arith,
  bit_or_split (n * 8) 0 r b 0,
  zero-bit_or b,
  bit_or-zero r,
  pow_bytes n,
  ap (λ (p : ℕ). b * p) (pow_bytes n),
)

rdi_loop_little :
    (bs : List ℕ) (w n r : ℕ)
    → All IsByte bs
    → n + length bs ≡ w
    → r < 256 ^ n
    → rdi_loop true w n r bs ≡ r + host_value bs * 256 ^ n
unfolding rdi_loop host_value
rdi_loop_little [] w n r h e lt = omega arith
rdi_loop_little (b ∷ bs) w n r h e lt =
    rw (no_wrap b n w h.0 (omega arith), or_above n r b lt)
      (ap (λ k. rdi_loop true w k (r + b * 256 ^ n) bs) (let e' : n + 1 ≡ suc n = omega arith in e')
        ∙ rdi_loop_little bs w (suc n) (r + b * 256 ^ n) h.1 (omega arith)
            (omega (arith, byte_fits b n h.0))
        ∙ omega (arith, ap (λ (p : ℕ). host_value bs * p) (pow-suc 256 n)))

or_below :
    (k hi b : ℕ) → b < 256 → bit_or (hi * 256 ^ suc k) (b * 2 ^ (k * 8)) ≡ (hi * 256 + b) * 256 ^ k
or_below k hi b h = ground (
  arith,
  bit_or_split (k * 8) (hi * 256) 0 b 0,
  bit_or_below 8 hi b,
  bit_or-zero 0,
  pow_bytes k,
  one-le-pow k 256 (omega arith),
  ap (λ (p : ℕ). hi * p) (pow-suc 256 k),
  ap (λ (p : ℕ). hi * 256 * p) (pow_bytes k),
  ap (λ (p : ℕ). b * p) (pow_bytes k),
  ap (λ (p : ℕ). (hi * 256 + b) * p) (pow_bytes k),
)

rdi_loop_big :
    (bs : List ℕ) (w n hi : ℕ)
    → All IsByte bs
    → n + length bs ≡ w
    → rdi_loop false w n (hi * 256 ^ length bs) bs ≡ big_value hi bs
unfolding rdi_loop big_value
rdi_loop_big [] w n hi h e = omega arith
rdi_loop_big (b ∷ bs) w n hi h e =
    let k = length bs in
    let place : w - n - 1 ≡ k = omega arith in
    rw (place, no_wrap b k w h.0 (omega arith), or_below k hi b h.0)
      (rdi_loop_big bs w (n + 1) (hi * 256 + b) h.1 (omega arith))

big_value-host_value :
    (bs acc : List ℕ) → big_value (host_value acc) bs ≡ host_value (reverse_aux bs acc)
unfolding big_value host_value
big_value-host_value [] acc = refl
big_value-host_value (b ∷ bs) acc =
    ap (λ v. big_value v bs)
      (let e : host_value acc * 256 + b ≡ b + 256 * host_value acc = omega arith in e)
    ∙ big_value-host_value bs (b ∷ acc)

-- In a little-endian file a field is the number that its bytes are on the host.
pub rdi_little : (bs : List ℕ) → All IsByte bs → rdi true bs ≡ host_value bs
unfolding rdi
rdi_little bs h = omega (arith, rdi_loop_little bs (length bs) 0 0 h (omega arith) (omega arith))

-- In a big-endian file it is the number that its reversed bytes are.
pub rdi_big : (bs : List ℕ) → All IsByte bs → rdi false bs ≡ host_value (reverse bs)
unfolding rdi host_value
rdi_big bs h =
    ap (λ r. rdi_loop false (length bs) 0 r bs) (let e : 0 ≡ 0 * 256 ^ length bs = omega arith in e)
    ∙ rdi_loop_big bs (length bs) 0 0 h (omega arith)
    ∙ big_value-host_value bs []

All-reverse_aux :
    (bs acc : List ℕ) → All IsByte bs → All IsByte acc → All IsByte (reverse_aux bs acc)
All-reverse_aux [] acc h k = k
All-reverse_aux (b ∷ bs) acc h k = All-reverse_aux bs (b ∷ acc) h.1 (h.0, k)

length-reverse_aux : (bs acc : List ℕ) → length (reverse_aux bs acc) ≡ length bs + length acc
length-reverse_aux [] acc = omega arith
length-reverse_aux (b ∷ bs) acc = omega (arith, length-reverse_aux bs (b ∷ acc))

-- `wri` leaves the bytes of the file's order.
pub wri_bytes :
    (little : Bool) (w i : ℕ)
    → wri little w i ≡ (if little then host_bytes w i else reverse (host_bytes w i))
unfolding wri
wri_bytes true w i =
    ap (host_bytes w) (rdi_little (host_bytes w i) (host_bytes-IsByte w i))
    ∙ ap (λ k. host_bytes k (host_value (host_bytes w i))) (sym (length-host_bytes w i))
    ∙ host_bytes-host_value (host_bytes w i) (host_bytes-IsByte w i)
wri_bytes false w i =
    let bs = host_bytes w i in
    ap (host_bytes w) (rdi_big bs (host_bytes-IsByte w i))
    ∙ ap (λ k. host_bytes k (host_value (reverse bs)))
        (let e : w ≡ length (reverse bs) =
            omega (arith, length-reverse_aux bs [], length-host_bytes w i) in
          e)
    ∙ host_bytes-host_value (reverse bs) (All-reverse_aux bs [] (host_bytes-IsByte w i) tt)

-- What `wri` stored `rdi` reads back, up to the width of the field, whatever the byte order.
pub rdi-wri : (little : Bool) (w i : ℕ) → rdi little (wri little w i) ≡ i % 256 ^ w
rdi-wri true w i =
    ap (rdi true) (wri_bytes true w i)
    ∙ rdi_little (host_bytes w i) (host_bytes-IsByte w i)
    ∙ host_value-host_bytes w i
rdi-wri false w i =
    let bs = host_bytes w i in
    ap (rdi false) (wri_bytes false w i)
    ∙ rdi_big (reverse bs) (All-reverse_aux bs [] (host_bytes-IsByte w i) tt)
    ∙ ap host_value (reverse-reverse bs)
    ∙ host_value-host_bytes w i
