-- ===== src/Patchelf/Rewrite/Sort/Links.antt =====
-- The links between sections, before and after `sortShdrs`.
use electrum_lightning_test.Base.{
  ℕ, ◌+◌, ◌-◌, ◌%◌, ◌^◌, ◌≤◌, ◌<◌, ◌≡◌, refl, arith, Bool, true, false, not, ◌||◌, ◌==◌, List, [],
  length, get_or, if◌then◌else◌,
}
use electrum_lightning_test.Patchelf.Elf.{
  Class, elf32, elf64, sum, shdr, ehdr, e_shnum, e_shstrndx, sh_name, sh_type, sh_link, sh_info,
}
use electrum_lightning_test.Patchelf.Elf.Tag.{sht_rel, sht_rela}
use electrum_lightning_test.Patchelf.Result.{ok}
use electrum_lightning_test.Patchelf.File.{Elf, get, hdr_get}
use electrum_lightning_test.Patchelf.Headers.{for_range, shdr_get}
use electrum_lightning_test.Patchelf.Rewrite.Sort.{NameMap, links, informs, note_target}
use electrum_lightning_test.Patchelf.Rewrite.Sort.Names.{with_table, Every, IsNamed, shdr_at-entry}
use electrum_lightning_test.Patchelf.Rewrite.Sort.Note.{target, IsDistinct, Notes, note_loop}
use electrum_lightning_test.Patchelf.Rewrite.Sort.Moved.{IsPlaced}

-- Whether a header refers to another section: by `sh_link`, and by `sh_info` if it has relocations.
abbrev pub is_linked : Elf → List ℕ → Bool
is_linked e h = not (target e sh_link h == 0)

abbrev pub is_informed : Elf → List ℕ → Bool
is_informed e h =
    let type = get e.little_endian (sh_type e.class_of) h in
    if target e sh_info h == 0 then false else (type == sht_rel) || (type == sht_rela)

-- A table of sections with different names, each in its place and with its references within the table.
pub record IsTable (e : Elf) : Type 0 where
  pub count : hdr_get e e_shnum ≡ length e.shdrs
  pub some_section : 1 ≤ length e.shdrs
  pub short : length e.shdrs < 2 ^ 16
  pub sized : Every (λ h. length h ≡ sum (shdr e.class_of)) e.shdrs
  pub named : Every (IsNamed e) e.shdrs
  pub distinct : IsDistinct e
  pub placed : IsPlaced e
  pub null_linked : is_linked e (get_or e.shdrs 0 []) ≡ false
  pub null_informed : is_informed e (get_or e.shdrs 0 []) ≡ false
  pub linked : Every (λ h. target e sh_link h < length e.shdrs) e.shdrs
  pub informed : Every (λ h. is_informed e h ≡ true → target e sh_info h < length e.shdrs) e.shdrs
  pub strings : 1 ≤ hdr_get e e_shstrndx
  pub strings_inside : hdr_get e e_shstrndx < length e.shdrs
  pub header : sum (ehdr e.class_of) ≤ length e.contents

pub tested-links :
    (e : Elf) (others : List (List ℕ)) (j : ℕ)
    → j < length others
    → links (with_table e others) j ≡ ok (is_linked e (get_or others j []))
unfolding links shdr_get
tested-links e others j lt = rw (shdr_at-entry e others j lt) refl

pub tested-informs :
    (e : Elf) (others : List (List ℕ)) (j : ℕ)
    → j < length others
    → informs (with_table e others) j ≡ ok (is_informed e (get_or others j []))
unfolding informs shdr_get
tested-informs e others j lt = rw (shdr_at-entry e others j lt) refl

pub is_linked-pos : (e : Elf) (h : List ℕ) → is_linked e h ≡ true → 1 ≤ target e sh_link h
is_linked-pos e h d = ground (arith, d)

pub is_informed-pos : (e : Elf) (h : List ℕ) → is_informed e h ≡ true → 1 ≤ target e sh_info h
is_informed-pos e h d = ground (arith, d)

-- How the fields stand in a section header.
pub layout :
    (c : Class)
    → ((sh_name c).at + (sh_name c).width ≤ (sh_link c).at)
      × ((sh_type c).at + (sh_type c).width ≤ (sh_link c).at)
      × ((sh_link c).at + (sh_link c).width ≤ (sh_info c).at)
      × ((sh_info c).at + (sh_info c).width ≤ sum (shdr c))
layout elf32 = (omega arith, omega arith, omega arith, omega arith)
layout elf64 = (omega arith, omega arith, omega arith, omega arith)

-- An index of 16 bits fits in the fields that get one.
pub index_fits :
    (c : Class) (n : ℕ)
    → n < 2 ^ 16
    → (n % 256 ^ (sh_link c).width ≡ n)
      × (n % 256 ^ (sh_info c).width ≡ n)
      × (n % 256 ^ (e_shstrndx c).width ≡ n)
index_fits elf32 n h = (omega arith, omega arith, omega arith)
index_fits elf64 n h = (omega arith, omega arith, omega arith)

pub strings_fit : (c : Class) → (e_shstrndx c).at + (e_shstrndx c).width ≤ sum (ehdr c)
strings_fit elf32 = omega arith
strings_fit elf64 = omega arith

module _ (e : Elf) (t : IsTable e) where
  abbrev pub others : ℕ
  others = hdr_get e e_shnum - 1

  pub note_links :
      (m : NameMap) × (for_range (note_target sh_link links e) others 1 [] ≡ ok m)
      × Notes e sh_link links (is_linked e) others 1 [] m
  note_links =
      note_loop e sh_link links (is_linked e) others 1 []
        (record { tested = tested-links e e.shdrs; inside = λ j lt d. t.linked j lt }) t.named
        t.distinct (omega arith) (omega (arith, t.count, t.some_section))

  pub note_infos :
      (m : NameMap) × (for_range (note_target sh_info informs e) others 1 [] ≡ ok m)
      × Notes e sh_info informs (is_informed e) others 1 [] m
  note_infos =
      note_loop e sh_info informs (is_informed e) others 1 []
        (record { tested = tested-informs e e.shdrs; inside = λ j lt d. t.informed j lt d }) t.named
        t.distinct (omega arith) (omega (arith, t.count, t.some_section))
