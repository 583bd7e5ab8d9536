-- ===== src/Patchelf/Rewrite/Write/Wrote.antt =====
-- What the second loop of `writeReplacedSections` needs, and what it leaves.
use electrum_lightning_test.Base.{
  ℕ, ◌+◌, ◌^◌, ◌≤◌, ◌≡◌, ◌≢◌, ap, arith, List, [], ◌∷◌, length, overwrite, All, slice-overwrite_ne,
}
use electrum_lightning_test.Base.Region.{Holds}
use electrum_lightning_test.Patchelf.Elf.{sum, ehdr, shdr, e_shnum, sh_offset, sh_size}
use electrum_lightning_test.Patchelf.Word.{rdi}
use electrum_lightning_test.Patchelf.Result.{ok}
use electrum_lightning_test.Patchelf.File.Fields.{shnum_fits}
use electrum_lightning_test.Patchelf.File.{Elf, get, hdr_get}
use electrum_lightning_test.Patchelf.Section.{find_section, shdr_at, name_at}
use electrum_lightning_test.Patchelf.Dynamic.{Name}
use electrum_lightning_test.Patchelf.Rewrite.Write.Put.{written}

-- A section that is found, with a whole header, and a replacement that `roundUp` can round up.
pub record IsKnown (e : Elf) (entry : Name × List ℕ) : Type 0 where
  pub index : ℕ
  pub header : List ℕ
  pub found : find_section e entry.0 ≡ ok index
  pub here : shdr_at e index ≡ ok header
  pub long : length header ≡ sum (shdr e.class_of)
  pub short : length entry.1 + 8 ≤ 2 ^ 32

-- The keys of a `map` are different.
abbrev pub Distinct : List (Name × List ℕ) → Type 0
Distinct [] = Unit
Distinct (entry ∷ rest) = All (λ other. entry.0 ≢ other.0) rest × Distinct rest

-- The header of the section tells where the file holds the replacement.
pub record IsStored (e : Elf) (entry : Name × List ℕ) : Type 0 where
  pub index : ℕ
  pub header : List ℕ
  pub found : find_section e entry.0 ≡ ok index
  pub here : shdr_at e index ≡ ok header
  pub inside :
      get e.little_endian (sh_offset e.class_of) header + length entry.1 ≤ length e.contents
  pub size : get e.little_endian (sh_size e.class_of) header ≡ length entry.1
  pub bytes : Holds e.contents (get e.little_endian (sh_offset e.class_of) header) entry.1

-- What the loop leaves, from `cur` on.
pub record Wrote (e : Elf) (cur : ℕ) (sections : List (Name × List ℕ)) (e' : Elf) : Type 0 where
  pub same_length : length e'.contents ≡ length e.contents
  pub same_count : hdr_get e' e_shnum ≡ hdr_get e e_shnum
  pub same_names : (j : ℕ) → name_at e' j ≡ name_at e j
  pub same_headers :
      (j : ℕ) → All (λ entry. find_section e entry.0 ≢ ok j) sections → shdr_at e' j ≡ shdr_at e j
  pub same_bytes :
      (k : ℕ) (b : List ℕ) → k + length b ≤ cur → Holds e.contents k b → Holds e'.contents k b
  pub stored : All (IsStored e') sections

-- A store behind the ELF header keeps the number of sections.
pub shnum_kept :
    (e : Elf) (cur : ℕ) (b : List ℕ) (table ps : List (List ℕ))
    → sum (ehdr e.class_of) ≤ cur
    → hdr_get (written e (overwrite e.contents cur b) table ps) e_shnum ≡ hdr_get e e_shnum
unfolding hdr_get get
shnum_kept e cur b table ps behind =
    let f = e_shnum e.class_of in
    ap (rdi e.little_endian) (
      slice-overwrite_ne e.contents cur b f.at f.width
        (omega (arith, behind, shnum_fits e.class_of)))
