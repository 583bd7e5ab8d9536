-- ===== src/Patchelf/Headers.antt =====
-- Headers in their vectors, and loops over them, in bitcoin-core/patchelf-0.9/src/patchelf.cc.
pub mod Table
use electrum_lightning_test.Base.{
  ℕ, suc, zero, ◌+◌, ◌-◌, ◌*◌, ◌%◌, ◌^◌, ltb, List, [], ◌∷◌, ◌++◌, length, replicate, set, take,
  slice, overwrite, get_elem?, none, some,
}
use electrum_lightning_test.Patchelf.Elf.{
  Class, Field, elf32, elf64, phdr, sum, e_phnum, p_type, p_offset, p_vaddr, p_paddr, p_filesz,
  p_memsz, p_flags, p_align,
}
use electrum_lightning_test.Patchelf.Elf.Tag.{pt_load, pf_r, pf_w}
use electrum_lightning_test.Patchelf.Result.{Result, ok, fault, within, ◌>>=◌, ◌>>◌}
use electrum_lightning_test.Patchelf.File.{Elf, get, put, hdr_get, hdr_put}
use electrum_lightning_test.Patchelf.Section.{shdr_at}
use electrum_lightning_test.Patchelf.Dynamic.{write_bytes}

-- `for (i; i < i + k; ++i)`, with `k` rounds left
unfoldable pub for_range : {S : Type 0} → (ℕ → S → Result S) → (k i : ℕ) → S → Result S
for_range body zero i s = ok s
for_range body (suc k) i s = body i s >>= λ t. for_range body k (i + 1) t

unfoldable pub phdr_at : Elf → ℕ → Result (List ℕ)
phdr_at e i = elim (get_elem? e.phdrs i) [ none ↦ fault | some s ↦ ok s ]

-- `rdi(shdrs[i].f)` and `wri(shdrs[i].f, v)`, and the same for `phdrs`
unfoldable pub shdr_get : Elf → ℕ → (Class → Field) → Result ℕ
shdr_get e i f = do s ← shdr_at e i; ok (get e.little_endian (f e.class_of) s)

unfoldable pub shdr_put : (Class → Field) → ℕ → ℕ → Elf → Result Elf
shdr_put f v i e = do
  s ← shdr_at e i
  ok (record e { shdrs = set e.shdrs i (put e.little_endian (f e.class_of) v s) })

unfoldable pub phdr_get : Elf → ℕ → (Class → Field) → Result ℕ
phdr_get e i f = do s ← phdr_at e i; ok (get e.little_endian (f e.class_of) s)

unfoldable pub phdr_put : (Class → Field) → ℕ → ℕ → Elf → Result Elf
phdr_put f v i e = do
  s ← phdr_at e i
  ok (record e { phdrs = set e.phdrs i (put e.little_endian (f e.class_of) v s) })

-- `phdrs[i].f = …` from the bytes of another field, without `rdi` and `wri`
unfoldable pub phdr_put_raw : (Class → Field) → List ℕ → ℕ → Elf → Result Elf
phdr_put_raw f bytes i e = do
  s ← phdr_at e i
  ok (record e { phdrs = set e.phdrs i (overwrite s (f e.class_of).at bytes) })

-- The bytes of a field
unfoldable pub raw_field : Elf → (Class → Field) → List ℕ → List ℕ
raw_field e f s = slice s (f e.class_of).at (f e.class_of).width

-- `phdrs.resize(n)`: a new header is zeros.
unfoldable pub resize_headers : (size : ℕ) → List (List ℕ) → ℕ → List (List ℕ)
resize_headers size hs n = take n hs ++ replicate (n - length hs) (replicate size 0)

-- The new segment for the replaced sections: `phdrs` and `e_phnum` grow by one, and the fields of the
-- last header are set. The count has 16 bits.
unfoldable pub add_segment : (page offset address size : ℕ) → Elf → Result Elf
add_segment page offset address size e = do
  let n = hdr_get e e_phnum + 1
  let e1 = record e { phdrs = resize_headers (sum (phdr e.class_of)) e.phdrs n }
  let e2 = hdr_put e1 e_phnum n
  let count = hdr_get e2 e_phnum
  within (ltb 0 count)
  let i = count - 1
  e3 ← phdr_put p_type pt_load i e2
  e4 ← phdr_put p_offset offset i e3
  e5 ← phdr_put p_paddr address i e4
  e6 ← phdr_put p_vaddr address i e5
  e7 ← phdr_put p_memsz size i e6
  e8 ← phdr_put p_filesz size i e7
  e9 ← phdr_put p_flags (pf_r + pf_w) i e8
  phdr_put p_align page i e9

-- `* ((Elf_Hdr *) (contents + off) + i) = hdrs[i]` for the `i` from a first one on
unfoldable pub store_headers : (off size i : ℕ) → List (List ℕ) → Elf → Result Elf
store_headers off size i [] e = ok e
store_headers off size i (h ∷ hs) e =
    write_bytes e (off + size * i) h >>= λ e'. store_headers off size (i + 1) hs e'

-- Sums and differences of `Elf_Addr` and `Elf_Off`
abbrev pub word : Class → ℕ
word elf32 = 2 ^ 32
word elf64 = 2 ^ 64

unfoldable pub sub_word : Class → ℕ → ℕ → ℕ
sub_word c a b = (a + (word c - b % word c)) % word c
