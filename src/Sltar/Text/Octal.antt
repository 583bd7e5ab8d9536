-- ===== src/Sltar/Text/Octal.antt =====
-- Octal fields: `strtol` and `strtoul` read back what `snprintf` printed.
use electrum_lightning_test.Base.{
  ℕ, zero, suc, ◌+◌, ◌-◌, ◌*◌, ◌/◌, ◌%◌, ◌^◌, ◌≤◌, ◌<◌, ◌≡◌, refl, ap, ◌∙◌, arith, false, List, [],
  ◌∷◌, ◌++◌, length, length-append, All, All-append, take_all, min, replicate,
}
use electrum_lightning_test.Base.Int.{pos}
use electrum_lightning_test.Sltar.Text.{
  octal_loop, print_octal, snprintf, skip_space, octal_value, scan_sign, strtoul, strtol,
}
use mathlib.Core.List.{append_assoc, append-nil}
use native.Mathlib.Nat.{pow-suc}

-- The last `width` octal digits of a number.
abbrev pub octal_field : ℕ → ℕ → List ℕ
octal_field zero n = []
octal_field (suc width) n = octal_field width (n / 8) ++ ((b'0' + n % 8) ∷ [])

abbrev pub IsOctalDigit : ℕ → Type 0
IsOctalDigit c = (b'0' ≤ c) × (c ≤ b'7')

pub length-octal_field : (width n : ℕ) → length (octal_field width n) ≡ width
length-octal_field zero n = refl
length-octal_field (suc width) n = omega (
  arith,
  length-append (octal_field width (n / 8)) ((b'0' + n % 8) ∷ []),
  length-octal_field width (n / 8),
)

pub octal_field_digits : (width n : ℕ) → All IsOctalDigit (octal_field width n)
octal_field_digits zero n = tt
octal_field_digits (suc width) n =
    All-append IsOctalDigit (octal_field width (n / 8)) _ (octal_field_digits width (n / 8))
      (omega arith)

octal_loop_field :
    (fuel width n : ℕ) (acc : List ℕ)
    → width ≤ fuel
    → n < 8 ^ width
    → octal_loop fuel width n acc ≡ octal_field width n ++ acc
unfolding octal_loop
octal_loop_field zero zero n acc w h = refl
octal_loop_field zero (suc width) n acc w h = absurd (omega arith)
octal_loop_field (suc fuel) zero n acc w h = ground arith
octal_loop_field (suc fuel) (suc width) n acc w h = ground (
  arith,
  octal_loop_field fuel width (n / 8) ((b'0' + n % 8) ∷ acc) (omega arith)
      (omega (arith, pow-suc 8 width)),
  append_assoc (octal_field width (n / 8)) ((b'0' + n % 8) ∷ []) acc,
)

-- A value that fits the precision is printed with exactly that many digits.
pub print_octal-octal_field :
    (width n : ℕ) → width ≤ 11 → n < 8 ^ width → print_octal width n ≡ octal_field width n
unfolding print_octal
print_octal-octal_field width n w h =
    octal_loop_field 11 width n [] w h ∙ append-nil (octal_field width n)

pub snprintf_fits :
    (text : List ℕ) (size : ℕ) → length text + 1 ≤ size → snprintf size text ≡ text ++ (0 ∷ [])
unfolding snprintf
snprintf_fits text size h = ap (λ t. t ++ (0 ∷ [])) (take_all (size - 1) text (omega arith))

octal_value-octal_field :
    (width n acc : ℕ) (rest : List ℕ)
    → n < 8 ^ width
    → octal_value acc (octal_field width n ++ rest) ≡ octal_value (acc * 8 ^ width + n) rest
octal_value-octal_field zero n acc rest h =
    ap (λ a. octal_value a rest) (let e : acc ≡ acc * 8 ^ 0 + n = omega arith in e)
octal_value-octal_field (suc width) n acc rest h = ground (
  arith,
  append_assoc (octal_field width (n / 8)) ((b'0' + n % 8) ∷ []) rest,
  octal_value-octal_field width (n / 8) acc ((b'0' + n % 8) ∷ rest)
      (omega (arith, pow-suc 8 width)),
  last_digit,
  ap (λ a. octal_value a rest) grouped,
)
  where
    last_digit :
        octal_value (acc * 8 ^ width + n / 8) ((b'0' + n % 8) ∷ rest)
        ≡ octal_value ((acc * 8 ^ width + n / 8) * 8 + (b'0' + n % 8 - b'0')) rest
    last_digit = unfold octal_value in ground arith

    grouped : (acc * 8 ^ width + n / 8) * 8 + (b'0' + n % 8 - b'0') ≡ acc * 8 ^ suc width + n
    grouped = omega (arith, ap (λ (t : ℕ). acc * t) (pow-suc 8 width))

scan_digits :
    (ds rest : List ℕ)
    → All IsOctalDigit ds
    → scan_sign (skip_space (ds ++ (0 ∷ rest))) ≡ (false, octal_value 0 (ds ++ (0 ∷ rest)))
unfolding scan_sign skip_space
scan_digits [] rest h = refl
scan_digits (d ∷ ds) rest h = ground arith

octal_value_stops :
    (width n : ℕ) (rest : List ℕ)
    → n < 8 ^ width
    → octal_value 0 (octal_field width n ++ (0 ∷ rest)) ≡ n
octal_value_stops width n rest h = octal_value-octal_field width n 0 (0 ∷ rest) h ∙ stop
  where
    stop : octal_value (0 * 8 ^ width + n) (0 ∷ rest) ≡ n
    stop = unfold octal_value in omega arith

scan-octal_field :
    (width n : ℕ) (rest : List ℕ)
    → n < 8 ^ width
    → scan_sign (skip_space (octal_field width n ++ (0 ∷ rest))) ≡ (false, n)
scan-octal_field width n rest h =
    scan_digits (octal_field width n) rest (octal_field_digits width n)
    ∙ ap (λ v. (false, v)) (octal_value_stops width n rest h)

pub strtoul-octal_field :
    (w width n : ℕ) (rest : List ℕ)
    → n < 8 ^ width
    → n < 2 ^ w
    → strtoul w (octal_field width n ++ (0 ∷ rest)) ≡ n
unfolding strtoul
strtoul-octal_field w width n rest h k = ground (arith, scan-octal_field width n rest h)

pub strtol-octal_field :
    (width n : ℕ) (rest : List ℕ)
    → n < 8 ^ width
    → strtol (octal_field width n ++ (0 ∷ rest)) ≡ pos (min n (2 ^ 31 - 1))
unfolding strtol
strtol-octal_field width n rest h = ground (arith, scan-octal_field width n rest h)

-- A field of twelve zeros with no NUL behind it is read together with the number that follows.
pub strtol_runs_on :
    (width n : ℕ) (rest : List ℕ)
    → n < 8 ^ width
    → strtol (replicate 12 b'0' ++ (octal_field width n ++ (0 ∷ rest))) ≡ pos (min n (2 ^ 31 - 1))
unfolding strtol
strtol_runs_on width n rest h =
    ap (λ v. pos (min v (2 ^ 31 - 1))) (octal_value_stops width n rest h)
