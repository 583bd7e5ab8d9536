-- ===== src/Patchelf/Parse/Total.antt =====
-- When the tests of `parse` keep the copies of the tables within the file.
use electrum_lightning_test.Base.{
  ℕ, suc, zero, ◌+◌, ◌*◌, ◌^◌, ◌≤◌, ◌<◌, ◌≡◌, refl, ap, arith, Bool, true, false, not, ◌==◌, ==_iff,
  le→leb, List, [], ◌∷◌, length, slice, ◌||◌,
}
use native.Mathlib.Nat.{mul-le-mul_left}
use electrum_lightning_test.Patchelf.Elf.{
  Class, elf32, elf64, phdr, shdr, sum, e_type, e_phoff, e_phnum, e_phentsize, e_shoff, e_shnum,
  e_shentsize,
}
use electrum_lightning_test.Patchelf.Elf.Tag.{et_exec, et_dyn}
use electrum_lightning_test.Patchelf.Result.{
  Error, ok, wrong_elf_type, missing_program_headers, missing_section_headers, require-eq-ok,
  require, program_headers_have_wrong_size,
}
use electrum_lightning_test.Patchelf.File.{Elf, hdr_get, read_bytes}
use electrum_lightning_test.Patchelf.Parse.{
  table_end, beyond, copy_headers, copy_tables, check_header, has_interp,
}

read_bytes_within :
    (contents : List ℕ) (at size : ℕ)
    → at + size ≤ length contents
    → read_bytes contents at size ≡ ok (slice contents at size)
unfolding read_bytes
read_bytes_within contents at size h = rw (le→leb _ _ h) refl

copy_headers_within :
    (contents : List ℕ) (off size k i : ℕ)
    → off + size * (i + k) ≤ length contents
    → (hs : List (List ℕ)) × (copy_headers contents off size k i ≡ ok hs)
unfolding copy_headers
copy_headers_within contents off size zero i h = ([], refl)
copy_headers_within contents off size (suc k) i h =
    let s = slice contents (off + size * i) size in
    let (rest, e) = copy_headers_within contents off size k (i + 1) (
      let le : off + size * (i + 1 + k) ≤ length contents =
        let same : i + 1 + k ≡ i + suc k = omega arith in rw same h in
      le) in
    let fits : off + size * i + size ≤ length contents =
      omega (arith, h, mul-le-mul_left size (let le : i + 1 ≤ i + suc k = omega arith in le)) in
    (s ∷ rest, rw (read_bytes_within contents (off + size * i) size fits, e) refl)

table_end_plain :
    (c : Class) (off num entsize : ℕ)
    → off + num * entsize < 2 ^ 31
    → table_end c off num entsize ≡ off + num * entsize
unfolding table_end
table_end_plain elf32 off num entsize h = ground arith
table_end_plain elf64 off num entsize h = ground arith

beyond-not : (t size : ℕ) → t < 2 ^ 31 → not (beyond t size) ≡ true → t ≤ size
unfolding beyond
beyond-not t size h e = ground arith

-- What the tests of `check_header` let through.
pub check_header-within :
    (e : Elf)
    → check_header e ≡ ok tt
    → hdr_get e e_phoff + hdr_get e e_phnum * hdr_get e e_phentsize < 2 ^ 31
    → hdr_get e e_shoff + hdr_get e e_shnum * hdr_get e e_shentsize < 2 ^ 31
    → (hdr_get e e_phoff + hdr_get e e_phnum * hdr_get e e_phentsize ≤ length e.contents)
      × (hdr_get e e_shoff + hdr_get e e_shnum * hdr_get e e_shentsize ≤ length e.contents)
      × (hdr_get e e_phentsize ≡ sum (phdr e.class_of))
unfolding check_header
check_header-within e h small small' =
    let n = length e.contents in
    let type = hdr_get e e_type in
    let pt = table_end e.class_of (hdr_get e e_phoff) (hdr_get e e_phnum) (hdr_get e e_phentsize) in
    let st = table_end e.class_of (hdr_get e e_shoff) (hdr_get e e_shnum) (hdr_get e e_shentsize) in
    let plain =
      table_end_plain e.class_of (hdr_get e e_phoff) (hdr_get e e_phnum) (hdr_get e e_phentsize)
        small in
    let plain' =
      table_end_plain e.class_of (hdr_get e e_shoff) (hdr_get e e_shnum) (hdr_get e e_shentsize)
        small' in
    let (typed, h1) = require-eq-ok ((type == et_exec) || (type == et_dyn)) wrong_elf_type _ h in
    let (fits, h2) = require-eq-ok (not (beyond pt n)) missing_program_headers _ h1 in
    let (fits', h3) = require-eq-ok (not (beyond st n)) missing_section_headers _ h2 in
    (
      omega (arith, plain, beyond-not pt n (omega (arith, plain, small)) fits),
      omega (arith, plain', beyond-not st n (omega (arith, plain', small')) fits'),
      (==_iff _ _).0 (required _ program_headers_have_wrong_size h3),
    )
  where
    required : (t : Bool) (m : Error) → require t m ≡ ok tt → t ≡ true
    required true m k = refl
    required false m k = cc

-- When both tables end below 2 ^ 31, and the section headers have the size of a section header, a
-- header that passes the tests has both tables in the file, so that they are copied.
pub copy_tables_within :
    (e : Elf)
    → check_header e ≡ ok tt
    → hdr_get e e_phoff + hdr_get e e_phnum * hdr_get e e_phentsize < 2 ^ 31
    → hdr_get e e_shoff + hdr_get e e_shnum * hdr_get e e_shentsize < 2 ^ 31
    → hdr_get e e_shentsize ≡ sum (shdr e.class_of)
    → (p : Elf) × (copy_tables e ≡ ok p)
unfolding copy_tables
copy_tables_within e h small small' same' =
    let (fits, fits', same) = check_header-within e h small small' in
    let (ps, got_ps) =
      copy_headers_within e.contents (hdr_get e e_phoff) (sum (phdr e.class_of)) (hdr_get e e_phnum)
        0 (omega (arith, fits, ap (λ (s : ℕ). hdr_get e e_phnum * s) same)) in
    let (ss, got_ss) =
      copy_headers_within e.contents (hdr_get e e_shoff) (sum (shdr e.class_of)) (hdr_get e e_shnum)
        0 (omega (arith, fits', ap (λ (s : ℕ). hdr_get e e_shnum * s) same')) in
    let p = record e {
      phdrs = ps;
      shdrs = ss;
      is_executable = has_interp e.little_endian e.class_of ps;
    } in
    (p, rw got_ps (rw got_ss refl))
