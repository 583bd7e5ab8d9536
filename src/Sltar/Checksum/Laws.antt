-- ===== src/Sltar/Checksum/Laws.antt =====
-- What the checksum depends on, and its range.
use electrum_lightning_test.Base.{
  ℕ, suc, ◌+◌, ◌*◌, ◌%◌, ◌^◌, ◌≤◌, ◌<◌, ◌≡◌, refl, ap, ◌∙◌, arith, ◌&&◌, List, [], ◌∷◌, ◌++◌, zero,
  length, All, ltb, leb, if◌then◌else◌, overwrite,
}
use electrum_lightning_test.Sltar.Header
use electrum_lightning_test.Sltar.Text.Octal.{
  octal_field, print_octal-octal_field, snprintf_fits, length-octal_field,
}
use electrum_lightning_test.Sltar.Checksum.{chksum_loop, chksum}
use electrum_lightning_test.Sltar.Text.{print_octal, snprintf}

-- The loop does not look at what stands in the checksum field.
chksum_loop-overwrite :
    (b s : List ℕ) (i off sum : ℕ)
    → Header.chk ≤ i + off
    → i + off + length s ≤ Header.chk + 8
    → chksum_loop i sum (overwrite b off s) ≡ chksum_loop i sum b
unfolding overwrite chksum_loop
chksum_loop-overwrite [] s i off sum lo hi = refl
chksum_loop-overwrite (y ∷ b) [] i zero sum lo hi = refl
chksum_loop-overwrite (y ∷ b) (x ∷ s) i zero sum lo hi =
    ground (arith, chksum_loop-overwrite b s (i + 1) 0 ((sum + 32) % 2 ^ 32))
chksum_loop-overwrite (y ∷ b) s i (suc off) sum lo hi =
    chksum_loop-overwrite b s (i + 1) off _ (omega arith) (omega arith)

-- Storing the checksum into its field does not change the checksum.
pub chksum-overwrite : (b s : List ℕ) → length s ≤ 8 → chksum (overwrite b Header.chk s) ≡ chksum b
unfolding chksum
chksum-overwrite b s h =
    ap (λ v. snprintf 8 (print_octal 7 v))
      (chksum_loop-overwrite b s 0 Header.chk 0 (omega arith) (omega arith))

-- The unsigned sum that the tar format asks for, with the checksum field read as spaces.
pub unsigned_sum : ℕ → List ℕ → ℕ
unsigned_sum i [] = 0
unsigned_sum i (c ∷ b) =
    (if leb Header.chk i && ltb i (Header.chk + 8) then b' ' else c) + unsigned_sum (i + 1) b

chksum_loop-unsigned_sum :
    (b : List ℕ) (i sum : ℕ)
    → All (λ c. c < 128) b
    → sum + 128 * length b < 2 ^ 32
    → (chksum_loop i sum b ≡ sum + unsigned_sum i b)
      × (sum + unsigned_sum i b ≤ sum + 127 * length b)
unfolding chksum_loop unsigned_sum
chksum_loop-unsigned_sum [] i sum h k = omega arith
chksum_loop-unsigned_sum (c ∷ b) i sum h k = ground (
  arith,
  chksum_loop-unsigned_sum b (i + 1) (sum + 32) h.1,
  chksum_loop-unsigned_sum b (i + 1) (sum + c) h.1,
)

-- On a block of 7-bit characters the field holds the format's unsigned sum in seven octal digits.
pub chksum-unsigned_sum :
    (b : List ℕ)
    → length b ≡ Header.end
    → All (λ c. c < 128) b
    → chksum b ≡ octal_field 7 (unsigned_sum 0 b) ++ (0 ∷ [])
unfolding chksum
chksum-unsigned_sum b n h =
    let fits : chksum_loop 0 0 b < 8 ^ 7 =
      omega (arith, chksum_loop-unsigned_sum b 0 0 h (omega arith)) in
    ap (snprintf 8) (print_octal-octal_field 7 (chksum_loop 0 0 b) (omega arith) fits)
    ∙ snprintf_fits (octal_field 7 (chksum_loop 0 0 b)) 8
        (omega (arith, length-octal_field 7 (chksum_loop 0 0 b)))
    ∙ ap (λ v. octal_field 7 v ++ (0 ∷ [])) plain
  where
    plain : chksum_loop 0 0 b ≡ unsigned_sum 0 b
    plain = omega (arith, chksum_loop-unsigned_sum b 0 0 h (omega arith))
