-- ===== src/Patchelf/Word/Round.antt =====
-- What `roundUp` computes, and where its 32 bits are too few.
use electrum_lightning_test.Base.{ℕ, ◌+◌, ◌-◌, ◌*◌, ◌/◌, ◌%◌, ◌^◌, ◌≤◌, ◌<◌, ◌≡◌, arith}
use electrum_lightning_test.Patchelf.Word.{round_up}
use native.Mathlib.Nat.{div-add-mod, mod-lt, mod-eq_of_lt, mul-le-mul_left, mul-le-mul_right}
use native.Mathlib.Decide.{dec_lt}

-- Without overflow `roundUp` is the plain formula.
round_up_plain : (n m : ℕ) → 1 ≤ n → 1 ≤ m → n + m ≤ 2 ^ 32 → round_up n m ≡ ((n - 1) / m + 1) * m
unfolding round_up
round_up_plain n m h k fits = rw (less, mod-eq_of_lt quotient) (mod-eq_of_lt product)
  where
    less : (n % 2 ^ 32 + 2 ^ 32 - 1) % 2 ^ 32 ≡ n - 1
    less = omega arith

    product : ((n - 1) / m + 1) * m < 2 ^ 32
    product = omega (arith, div-add-mod (n - 1) m)

    quotient : (n - 1) / m + 1 < 2 ^ 32
    quotient = omega (arith, product, mul-le-mul_left ((n - 1) / m + 1) k)

-- For `n` and `m` from 1 on with `n + m` at most 2 ^ 32, the result is the least multiple of `m`
-- that is not below `n`: a multiple, not below, and less than `m` above.
pub round_up_least :
    (n m : ℕ)
    → 1 ≤ n
    → 1 ≤ m
    → n + m ≤ 2 ^ 32
    → (n ≤ round_up n m) × (round_up n m < n + m) × ((k : ℕ) × (round_up n m ≡ k * m))
round_up_least n m h k fits =
    let plain = round_up_plain n m h k fits in
    let parts = div-add-mod (n - 1) m in
    let small : (n - 1) % m < m = mod-lt (n - 1) k in
    (
      omega (arith, plain, parts, small),
      omega (arith, plain, parts, small),
      ((n - 1) / m + 1, plain),
    )

-- Zero is rounded up to zero when the alignment divides 2 ^ 32, as a power of two does.
pub round_up-zero : (m k : ℕ) → 1 ≤ m → m * k ≡ 2 ^ 32 → round_up 0 m ≡ 0
unfolding round_up
round_up-zero m k h e = rw whole (omega (arith, e, wraps))
  where
    q : ℕ
    q = (2 ^ 32 - 1) / m

    below : q < k
    below = elim (dec_lt q k) [
      | yes lt ↦ lt
      | no ge ↦ absurd (
          omega (
            arith,
            ge,
            e,
            div-add-mod (2 ^ 32 - 1) m,
            mul-le-mul_left m (let le : k ≤ q = omega arith in le),
          ))
    ]

    whole : q + 1 ≡ k
    whole = elim (dec_lt (q + 1) k) [
      | yes lt ↦ absurd (
          omega (
            arith,
            e,
            div-add-mod (2 ^ 32 - 1) m,
            let s : (2 ^ 32 - 1) % m < m = mod-lt (2 ^ 32 - 1) h in s,
            mul-le-mul_left m (let le : q + 2 ≤ k = omega arith in le),
          ))
      | no ge ↦ omega (arith, below, ge)
    ]

    wraps : k % 2 ^ 32 * m % 2 ^ 32 ≡ 0
    wraps = elim (dec_lt k (2 ^ 32)) [
      | yes lt ↦ rw (mod-eq_of_lt lt) (omega (arith, e))
      | no ge ↦
          rw (let top : k ≡ 2 ^ 32 = omega (arith, ge, e, mul-le-mul_right k h) in top)
            (omega arith)
    ]
