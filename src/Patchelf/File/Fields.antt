-- ===== src/Patchelf/File/Fields.antt =====
-- Fields of a header that are written and read again, and the file that grows.
use electrum_lightning_test.Base.{
  ℕ, ◌+◌, ◌%◌, ◌^◌, ◌≤◌, ◌≡◌, sym, ap, ◌∙◌, ◌⊎◌, inl, inr, arith, Bool, List, length, slice,
  overwrite, take,
}
use electrum_lightning_test.Base.{
  slice-overwrite_self, slice-overwrite_ne, length-overwrite, drop-overwrite_behind,
}
use electrum_lightning_test.Patchelf.Elf.{Class, Field, elf32, elf64, sum, ehdr, e_shnum}
use electrum_lightning_test.Patchelf.Word.{rdi, wri}
use electrum_lightning_test.Patchelf.Word.Bytes.{length-host_bytes}
use electrum_lightning_test.Patchelf.Word.Endian.{rdi-wri}
use electrum_lightning_test.Patchelf.File.{get, put}

-- The number of sections stands in the ELF header.
pub shnum_fits : (c : Class) → (e_shnum c).at + (e_shnum c).width ≤ sum (ehdr c)
shnum_fits elf32 = omega arith
shnum_fits elf64 = omega arith

pub length-wri : (little : Bool) (w v : ℕ) → length (wri little w v) ≡ w
unfolding wri
length-wri little w v = length-host_bytes w _

pub length-put :
    (little : Bool) (f : Field) (v : ℕ) (s : List ℕ) → length (put little f v s) ≡ length s
unfolding put
length-put little f v s = length-overwrite s f.at (wri little f.width v)

-- A field that stands in the structure is read back, up to its width, in either byte order.
pub get-put :
    (little : Bool) (f : Field) (v : ℕ) (s : List ℕ)
    → f.at + f.width ≤ length s
    → get little f (put little f v s) ≡ v % 256 ^ f.width
unfolding get put
get-put little f v s h =
    let bytes = wri little f.width v in
    let e = length-wri little f.width v in
    ap (λ n. rdi little (slice (overwrite s f.at bytes) f.at n)) (sym e)
    ∙ ap (rdi little) (slice-overwrite_self s f.at bytes (omega (arith, e)))
    ∙ rdi-wri little f.width v

-- Another field keeps its value.
pub get-put_ne :
    (little : Bool) (f g : Field) (v : ℕ) (s : List ℕ)
    → (g.at + g.width ≤ f.at) ⊎ (f.at + f.width ≤ g.at)
    → get little g (put little f v s) ≡ get little g s
unfolding get put slice
get-put_ne little f g v s (inl h) =
    ap (rdi little) (slice-overwrite_ne s f.at (wri little f.width v) g.at g.width h)
get-put_ne little f g v s (inr h) =
    ap (λ t. rdi little (take g.width t))
      (drop-overwrite_behind s f.at (wri little f.width v) g.at
        (omega (arith, length-wri little f.width v)))
