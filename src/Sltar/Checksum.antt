-- ===== src/Sltar/Checksum.antt =====
-- `chksum` of bitcoin-core/sltar.c. `char` is signed on the i486 target of bitcoin-core/Dockerfile,
-- so a byte from 128 on is added to the 32-bit `unsigned sum` as a negative number.
pub mod Laws
use electrum_lightning_test.Base.{
  ℕ, ◌+◌, ◌-◌, ◌%◌, ◌^◌, ◌&&◌, List, [], ◌∷◌, ltb, leb, if◌then◌else◌,
}
use electrum_lightning_test.Sltar.Header
use electrum_lightning_test.Sltar.Text.{print_octal, snprintf}

-- A `char` converted to `unsigned`.
unfoldable pub of_char : ℕ → ℕ
of_char c = if ltb c 128 then c else c + (2 ^ 32 - 256)

-- The loop at index `i`: the checksum field itself counts as eight spaces.
unfoldable pub chksum_loop : ℕ → ℕ → List ℕ → ℕ
unfolding of_char
chksum_loop i sum [] = sum
chksum_loop i sum (c ∷ b) =
    chksum_loop (i + 1)
      ((sum + (if leb Header.chk i && ltb i (Header.chk + 8) then b' ' else of_char c)) % 2 ^ 32) b

unfoldable pub chksum : List ℕ → List ℕ
unfolding chksum_loop print_octal snprintf
chksum b = snprintf 8 (print_octal 7 (chksum_loop 0 0 b))
