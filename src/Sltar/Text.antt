-- ===== src/Sltar/Text.antt =====
-- The C library's text functions as bitcoin-core/sltar.c uses them: `snprintf` with `%s` and with
-- `%.<precision>o`, and `strtol`, `strtoul` and `strtoull` in base 8. A text is a list of bytes.
pub mod Octal
use electrum_lightning_test.Base.{
  ℕ, zero, suc, ◌+◌, ◌-◌, ◌*◌, ◌/◌, ◌%◌, ◌^◌, ◌<◌, min, Bool, true, false, ◌&&◌, ◌||◌, List, [],
  ◌∷◌, ◌++◌, ltb, leb, ◌==◌, if◌then◌else◌, take,
}
use electrum_lightning_test.Base.Int.{ℤ, pos, neg}

-- The bytes in front of the first NUL.
unfoldable pub c_str : List ℕ → List ℕ
c_str [] = []
c_str (c ∷ s) = if c == 0 then [] else c ∷ c_str s

-- The digits of `%.<precision>o`: as many as the value has, and zeros in front up to the
-- precision. An `unsigned` of 32 bits has 11 octal digits at most, and no precision exceeds 11.
unfoldable pub octal_loop : ℕ → ℕ → ℕ → List ℕ → List ℕ
octal_loop zero precision n acc = acc
octal_loop (suc fuel) precision n acc =
    let more = octal_loop fuel (precision - 1) (n / 8) ((b'0' + n % 8) ∷ acc) in
    if precision == 0 && n == 0 then acc else more

unfoldable pub print_octal : ℕ → ℕ → List ℕ
unfolding octal_loop
print_octal precision n = octal_loop 11 precision n []

-- What `snprintf(p, size, …)` stores for the given text, for a size above 0.
unfoldable pub snprintf : ℕ → List ℕ → List ℕ
snprintf size text = take (size - 1) text ++ (0 ∷ [])

unfoldable pub is_space : ℕ → Bool
is_space c = c == b' ' || (leb 9 c && leb c 13)

unfoldable pub is_octal : ℕ → Bool
is_octal c = leb b'0' c && leb c b'7'

unfoldable pub skip_space : List ℕ → List ℕ
unfolding is_space
skip_space [] = []
skip_space (c ∷ s) = let rest = skip_space s in if is_space c then rest else c ∷ s

-- The value of the digits in front, above the value read so far.
unfoldable pub octal_value : ℕ → List ℕ → ℕ
unfolding is_octal
octal_value acc [] = acc
octal_value acc (c ∷ s) =
    let more = octal_value (acc * 8 + (c - b'0')) s in if is_octal c then more else acc

-- A sign and a magnitude.
unfoldable pub scan_sign : List ℕ → Bool × ℕ
unfolding octal_value
scan_sign [] = (false, 0)
scan_sign (c ∷ s) =
    if c == b'-'
    then (true, octal_value 0 s)
    else if c == b'+'
    then (false, octal_value 0 s)
    else (false, octal_value 0 (c ∷ s))

-- `strtoul` for a type of `w` bits: out of range it answers the maximum, a minus sign wraps.
unfoldable pub strtoul : ℕ → List ℕ → ℕ
unfolding skip_space scan_sign
strtoul w s =
    let (negative, n) = scan_sign (skip_space s) in
    if leb (2 ^ w) n then 2 ^ w - 1 else if negative then (2 ^ w - n) % 2 ^ w else n

-- `strtol` for a `long` of 32 bits: out of range it answers the nearest bound.
unfoldable pub strtol : List ℕ → ℤ
unfolding skip_space scan_sign
strtol s =
    let (negative, n) = scan_sign (skip_space s) in
    if negative then neg (min n (2 ^ 31)) else pos (min n (2 ^ 31 - 1))
