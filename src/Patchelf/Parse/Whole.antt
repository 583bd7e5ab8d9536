-- ===== src/Patchelf/Parse/Whole.antt =====
-- A successful `parse` as a whole: the object that it leaves describes the file.
use electrum_lightning_test.Base.{
  ℕ, ◌+◌, ◌*◌, ◌%◌, ◌^◌, ◌-◌, ◌≤◌, ◌<◌, ◌≡◌, refl, sym, arith, ltb, ltb→lt, leb, leb→le, ◌==◌,
  ==_iff, List, [], length, slice, get_or, get_elem?, some, replicate,
}
use mathlib.Core.Path.{subst}
use electrum_lightning_test.Patchelf.Elf.{
  ehdr, phdr, shdr, sum, e_phoff, e_phnum, e_phentsize, e_shoff, e_shnum, e_shentsize, e_shstrndx,
  sh_size, sh_offset,
}
use electrum_lightning_test.Patchelf.Elf.Tag.{elfmag}
use electrum_lightning_test.Patchelf.Result.{
  ok, missing_elf_header, not_an_elf_executable, >>=-eq-ok, require-eq-ok, assert-eq-ok,
}
use electrum_lightning_test.Patchelf.File.{Elf, get, hdr_get, check_pointer}
use electrum_lightning_test.Patchelf.Section.{name_at, shdr_at, get_section_name, string_eq}
use electrum_lightning_test.Patchelf.Section.Find.{First, find_section3-First}
use electrum_lightning_test.Patchelf.Section.{find_section3}
use electrum_lightning_test.Patchelf.Parse.{
  copy_headers, name_sections, parse, has_interp, read_names, check_header, old_index_size,
  copy_tables, index_sections, with_order, with_names,
}
use electrum_lightning_test.Patchelf.Parse.Total.{check_header-within}
use electrum_lightning_test.Patchelf.Section.Find.{shdr_at-some}
use electrum_lightning_test.Patchelf.Parse.Laws.{
  ok-inj, Rows, copy_headers-Rows, OldNames, name_sections-OldNames,
}

-- The names are the part of the file that the header with index `e_shstrndx` tells of, with a size of 32
-- bits, and end in NUL.
pub record IsStringTable (e : Elf) (names : List ℕ) : Type 0 where
  pub header : List ℕ
  pub indexed : get_elem? e.shdrs (hdr_get e e_shstrndx) ≡ some header
  pub size : ℕ
  pub size_read : size ≡ get e.little_endian (sh_size e.class_of) header % 2 ^ 32
  pub positive : 0 < size
  pub inside : get e.little_endian (sh_offset e.class_of) header + size ≤ length e.contents
  pub ends : get_or e.contents (get e.little_endian (sh_offset e.class_of) header + size - 1) 0 ≡ 0
  pub read : names ≡ slice e.contents (get e.little_endian (sh_offset e.class_of) header) size

read_names-IsStringTable :
    (e : Elf) {names : List ℕ} → read_names e ≡ ok names → IsStringTable e names
unfolding read_names check_pointer
read_names-IsStringTable e h =
    let (inside, h1) = assert-eq-ok (ltb (hdr_get e e_shstrndx) (length e.shdrs)) _ h in
    let (s, found, h2) = >>=-eq-ok (shdr_at e (hdr_get e e_shstrndx)) _ h1 in
    let (fits, h3) = assert-eq-ok (leb _ (length e.contents)) _ h2 in
    let (some_byte, h4) = assert-eq-ok (ltb 0 _) _ h3 in
    let (nul, h5) = assert-eq-ok (_ == 0) _ h4 in
    record {
      header = s;
      indexed = shdr_at-some e (hdr_get e e_shstrndx) s found;
      size = get e.little_endian (sh_size e.class_of) s % 2 ^ 32;
      size_read = refl;
      positive = ltb→lt _ _ some_byte;
      inside = leb→le _ _ fits;
      ends = (==_iff _ _).0 nul;
      read = sym (ok-inj h5);
    }

-- What `parse` promises of the object `p`, of the file's `contents`.
pub record IsParsed (contents : List ℕ) (p : Elf) : Type 0 where
  pub kept : p.contents ≡ contents
  pub tables :
      hdr_get p e_phoff + hdr_get p e_phnum * hdr_get p e_phentsize < 2 ^ 31
      → hdr_get p e_shoff + hdr_get p e_shnum * hdr_get p e_shentsize < 2 ^ 31
      → (hdr_get p e_phoff + hdr_get p e_phnum * hdr_get p e_phentsize ≤ length contents)
        × (hdr_get p e_shoff + hdr_get p e_shnum * hdr_get p e_shentsize ≤ length contents)
        × (hdr_get p e_phentsize ≡ sum (phdr p.class_of))
  pub program_headers :
      Rows contents (hdr_get p e_phoff) (sum (phdr p.class_of)) (hdr_get p e_phnum) 0 p.phdrs
  pub section_headers :
      Rows contents (hdr_get p e_shoff) (sum (shdr p.class_of)) (hdr_get p e_shnum) 0 p.shdrs
  pub interpreted : p.is_executable ≡ has_interp p.little_endian p.class_of p.phdrs
  pub string_table : IsStringTable p p.section_names
  pub named :
      (j : ℕ)
      → 1 ≤ j
      → j < 1 + (hdr_get p e_shnum - 1)
      → (n : List ℕ) × (name_at p j ≡ ok n) × (get_elem? p.sections_by_old_index j ≡ some n)

copy_tables-eq-ok :
    (e : Elf) {e2 : Elf}
    → copy_tables e ≡ ok e2
    → (ps : List (List ℕ)) × (ss : List (List ℕ)) × Rows e.contents
        (hdr_get e e_phoff)
        (sum (phdr e.class_of))
        (hdr_get e e_phnum)
        0
        ps
      × Rows e.contents (hdr_get e e_shoff) (sum (shdr e.class_of)) (hdr_get e e_shnum) 0 ss
      × (record e {
        phdrs = ps;
        shdrs = ss;
        is_executable = has_interp e.little_endian e.class_of ps;
      }
          ≡ e2)
unfolding copy_tables
copy_tables-eq-ok e h =
    let size = sum (phdr e.class_of) in
    let size' = sum (shdr e.class_of) in
    let (ps, got_ps, h1) =
      >>=-eq-ok (copy_headers e.contents (hdr_get e e_phoff) size (hdr_get e e_phnum) 0) _ h in
    let (ss, got_ss, h2) =
      >>=-eq-ok (copy_headers e.contents (hdr_get e e_shoff) size' (hdr_get e e_shnum) 0) _ h1 in
    (
      ps,
      ss,
      copy_headers-Rows e.contents (hdr_get e e_phoff) size (hdr_get e e_phnum) 0 got_ps,
      copy_headers-Rows e.contents (hdr_get e e_shoff) size' (hdr_get e e_shnum) 0 got_ss,
      ok-inj h2,
    )

index_sections-eq-ok :
    (e : Elf) {p : Elf}
    → index_sections e ≡ ok p
    → (old : List (List ℕ)) × OldNames e
        (hdr_get e e_shnum - 1)
        1
        (replicate (old_index_size e) [])
        old
      × (record e { sections_by_old_index = old } ≡ p)
unfolding index_sections
index_sections-eq-ok e h =
    let before = replicate (old_index_size e) [] in
    let (old, got_old, h1) = >>=-eq-ok (name_sections e (hdr_get e e_shnum - 1) 1 before) _ h in
    (old, name_sections-OldNames e (hdr_get e e_shnum - 1) 1 before got_old, ok-inj h1)

index_sections-IsParsed :
    (e e2 p : Elf) (names : List ℕ)
    → check_header e ≡ ok tt
    → copy_tables e ≡ ok e2
    → read_names e2 ≡ ok names
    → index_sections (with_names e2 names) ≡ ok p
    → IsParsed e.contents p
unfolding with_names hdr_get name_at shdr_at get_section_name
index_sections-IsParsed e e2 p names checked copied got_names indexed =
    let (ps, ss, rows, rows', same) = copy_tables-eq-ok e copied in
    let table =
      subst (λ x. IsStringTable x names) (sym same) (read_names-IsStringTable e2 got_names) in
    let (old, olds, same') =
      index_sections-eq-ok
        (with_names
          (record e {
            phdrs = ps;
            shdrs = ss;
            is_executable = has_interp e.little_endian e.class_of ps;
          })
          names)
        (subst (λ x. index_sections (with_names x names) ≡ ok p) (sym same) indexed) in
    subst (IsParsed e.contents) same' (record {
      kept = refl;
      tables = λ small small'. check_header-within e checked small small';
      program_headers = rows;
      section_headers = rows';
      interpreted = refl;
      string_table = record {
        header = table.header;
        indexed = table.indexed;
        size = table.size;
        size_read = table.size_read;
        positive = table.positive;
        inside = table.inside;
        ends = table.ends;
        read = table.read;
      };
      named = olds.1;
    })

-- When `parse` succeeds, the contents are as before. If both tables, by their offsets, numbers and sizes
-- of entries, end below 2 ^ 31, they end within the file, and a program header has the size of its type.
-- The headers copied are as many as the ELF header tells, and each is the bytes at its place, counted in
-- whole headers from the table's offset; `isExecutable` tells whether a program header is PT_INTERP. The
-- section names are the part of the file that the header with index e_shstrndx tells of, within the file
-- and with a NUL at its end, and every section but the first has its name recorded under its index.
pub parse-IsParsed : (e p : Elf) → parse e ≡ ok p → IsParsed e.contents p
unfolding parse with_order
parse-IsParsed e p h =
    let (enough, h1) =
      require-eq-ok (leb (sum (ehdr e.class_of)) (length e.contents)) missing_elf_header _ h in
    let (magic, h2) =
      require-eq-ok (string_eq (slice e.contents 0 4) elfmag) not_an_elf_executable _ h1 in
    let (unit, checked, h3) = >>=-eq-ok (check_header (with_order e)) _ h2 in
    let (e2, copied, h4) = >>=-eq-ok (copy_tables (with_order e)) _ h3 in
    let (names, got_names, h5) = >>=-eq-ok (read_names e2) _ h4 in
    index_sections-IsParsed (with_order e) e2 p names checked copied got_names h5

-- After a successful `parse`, findSection3 returns for every name the first section from 1 on that
-- has it, and 0 when there is none.
pub parse-find_section3 :
    (e p : Elf) (name : List ℕ)
    → parse e ≡ ok p
    → (r : ℕ) × (find_section3 p name ≡ ok r) × First p name (hdr_get p e_shnum - 1) 1 r
parse-find_section3 e p name h =
    let parsed = parse-IsParsed e p h in
    find_section3-First p name
      (λ j a b. let (n, here, recorded) = parsed.named j a (omega arith) in (n, here))
