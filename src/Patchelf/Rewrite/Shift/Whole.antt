-- ===== src/Patchelf/Rewrite/Shift/Whole.antt =====
-- The whole of `shiftFile`.
use electrum_lightning_test.Base.{
  ℕ, ◌+◌, ◌-◌, ◌*◌, ◌%◌, ◌^◌, ◌≤◌, ◌<◌, ◌≡◌, refl, sym, ap, ◌∙◌, arith, List, [], ◌++◌, length,
  drop, replicate, get_or,
}
use electrum_lightning_test.Patchelf.Elf.{
  Class, Field, ehdr, sum, e_phoff, e_shoff, e_phnum, e_shnum,
}
use electrum_lightning_test.Patchelf.Result.{ok}
use electrum_lightning_test.Patchelf.File.{Elf, hdr_get, hdr_put}
use electrum_lightning_test.Patchelf.Rewrite.Shift.{
  shift_file, move_contents, shift_shdr, shift_phdr,
}
use electrum_lightning_test.Patchelf.Headers.{for_range, add_segment}
use electrum_lightning_test.Patchelf.Rewrite.Shift.Moved.{move_contents_lem}
use electrum_lightning_test.Patchelf.Rewrite.Shift.Fields.{
  with_rest, with_shoff, kept_shnum, kept_phnum, counted-phnum, counted-shoff, counted-phoff,
  counted-behind,
}
use electrum_lightning_test.Patchelf.Rewrite.Shift.Sections.{with_shdrs, moved_shdr, shift_shdrs}
use electrum_lightning_test.Patchelf.Rewrite.Shift.Segments.{
  with_phdrs, shift_phdrs, add_segment-one_more,
}

-- The file is `shift` further behind zeros, the header in front refers to the tables, each section
-- header but the first to its bytes' new place, and there is one more segment.
pub record IsShifted (shift : ℕ) (e e' : Elf) : Type 0 where
  pub behind_header :
      drop (sum (ehdr e.class_of)) e'.contents
      ≡ replicate (shift - sum (ehdr e.class_of)) 0 ++ e.contents
  pub program_table : hdr_get e' e_phoff ≡ sum (ehdr e.class_of)
  pub section_table :
      hdr_get e' e_shoff ≡ (hdr_get e e_shoff + shift) % 256 ^ (e_shoff e.class_of).width
  pub segment_count : hdr_get e' e_phnum ≡ hdr_get e e_phnum + 1
  pub segments : length e'.phdrs ≡ hdr_get e e_phnum + 1
  pub sections :
      (j : ℕ)
      → 1 ≤ j
      → j < hdr_get e e_shnum
      → get_or e'.shdrs j [] ≡ moved_shdr shift e (get_or e.shdrs j [])

-- The ELF header stands in the contents, whatever the tables are.
with_tables-hdr_get :
    (e : Elf) (s p : List (List ℕ)) (f : Class → Field)
    → hdr_get (with_phdrs (with_shdrs e s) p) f ≡ hdr_get e f
unfolding hdr_get
with_tables-hdr_get e s p f = refl

with_shdrs-hdr_get :
    (e : Elf) (s : List (List ℕ)) (f : Class → Field) → hdr_get (with_shdrs e s) f ≡ hdr_get e f
unfolding hdr_get
with_shdrs-hdr_get e s f = refl

with_tables-hdr_put :
    (e : Elf) (s p : List (List ℕ)) (v : ℕ)
    → hdr_put (with_phdrs (with_shdrs e s) p) e_phnum v
      ≡ with_phdrs (with_shdrs (hdr_put e e_phnum v) s) p
unfolding hdr_put
with_tables-hdr_put e s p v = refl

shift_file-chain :
    (page extra_pages start_page shift k n : ℕ) (e e1 e3 e4 e5 e' : Elf)
    → extra_pages * page % 2 ^ 32 ≡ shift
    → move_contents shift e ≡ ok e1
    → hdr_put
        (hdr_put e1 e_phoff (sum (ehdr e.class_of)))
        e_shoff
        (hdr_get (hdr_put e1 e_phoff (sum (ehdr e.class_of))) e_shoff + shift)
      ≡ e3
    → hdr_get e3 e_shnum ≡ k
    → for_range (shift_shdr shift) (k - 1) 1 e3 ≡ ok e4
    → hdr_get e4 e_phnum ≡ n
    → for_range (shift_phdr page shift) n 0 e4 ≡ ok e5
    → add_segment page 0 start_page shift e5 ≡ ok e'
    → shift_file page extra_pages start_page e ≡ ok e'
unfolding shift_file
shift_file-chain page extra_pages start_page shift k n e e1 e3 e4 e5 e' pages moved placed shnum
      sections phnum segments added =
    rw (pages, moved, placed, shnum, sections, phnum, segments) added

abbrev with_bytes : Elf → List ℕ → Elf
with_bytes e c = record e { contents = c }

with_shoff-with_bytes :
    (shift : ℕ) (e : Elf) (r : List ℕ)
    → with_shoff shift e r ≡ with_bytes e (with_shoff shift e r).contents
unfolding hdr_put
with_shoff-with_bytes shift e r = refl

-- The two loops and the new segment, when the ELF header counts as before.
shift_headers :
    (page extra_pages start_page shift : ℕ) (e e1 : Elf) (c : List ℕ)
    → extra_pages * page % 2 ^ 32 ≡ shift
    → move_contents shift e ≡ ok e1
    → hdr_put
        (hdr_put e1 e_phoff (sum (ehdr e.class_of)))
        e_shoff
        (hdr_get (hdr_put e1 e_phoff (sum (ehdr e.class_of))) e_shoff + shift)
      ≡ with_bytes e c
    → hdr_get (with_bytes e c) e_shnum ≡ hdr_get e e_shnum
    → hdr_get (with_bytes e c) e_phnum ≡ hdr_get e e_phnum
    → hdr_get (hdr_put (with_bytes e c) e_phnum (hdr_get e e_phnum + 1)) e_phnum
      ≡ hdr_get e e_phnum + 1
    → hdr_get e e_shnum ≤ length e.shdrs
    → 1 ≤ length e.shdrs
    → hdr_get e e_phnum ≤ length e.phdrs
    → (s : List (List ℕ)) × (t : List (List ℕ)) × (shift_file page extra_pages start_page e
        ≡ ok (
            with_phdrs (with_shdrs (hdr_put (with_bytes e c) e_phnum (hdr_get e e_phnum + 1)) s) t))
      × (length t ≡ hdr_get e e_phnum + 1)
      × ((j : ℕ)
          → 1 ≤ j
          → j < hdr_get e e_shnum
          → get_or s j [] ≡ moved_shdr shift e (get_or e.shdrs j []))
shift_headers page extra_pages start_page shift e e1 c pages moved placed shnum phnum more sections
      some segments =
    let n = hdr_get e e_phnum in
    let e3 = with_bytes e c in
    let (s, shifted, offsets, before, long) =
      shift_shdrs shift e3 (hdr_get e e_shnum - 1) 1 e.shdrs (omega (arith, sections, some)) in
    let e4 = with_shdrs e3 s in
    let (p, adjusted, same) = shift_phdrs e4 page shift n 0 e.phdrs (omega (arith, segments)) in
    let e5 = with_phdrs e4 p in
    let (t, added, one_more) =
      add_segment-one_more page 0 start_page shift n e5 (with_tables-hdr_get e3 s p e_phnum ∙ phnum)
        (ap (λ x. hdr_get x e_phnum) (with_tables-hdr_put e3 s p (n + 1))
          ∙ with_tables-hdr_get (hdr_put e3 e_phnum (n + 1)) s p e_phnum
          ∙ more) in
    (
      s,
      t,
      shift_file-chain page extra_pages start_page shift (hdr_get e e_shnum) n e e1 e3 e4 e5
            (with_phdrs (hdr_put e5 e_phnum (n + 1)) t) pages moved placed shnum shifted
            (with_shdrs-hdr_get e3 s e_phnum ∙ phnum) adjusted added
          ∙ ap (λ x. ok (with_phdrs x t)) (with_tables-hdr_put e3 s p (n + 1)),
      one_more,
      λ j low high. offsets j low (omega (arith, high, low)),
    )

-- When the shift has room for the ELF header, the file has less than 4 GiB and room to grow, there are
-- headers for all that the ELF header counts, and one more segment can be counted, shiftFile succeeds:
-- behind the ELF header stand zeros, and the whole file as it was from `shift` on; e_phoff is the end of
-- the ELF header, e_shoff is `shift` further, e_phnum and the program headers are one more, and each
-- section header but the first has its sh_offset `shift` further and its other fields as they were,
-- where e_shoff and sh_offset wrap around at their width.
pub shift_file-IsShifted :
    (page extra_pages start_page shift : ℕ) (e : Elf)
    → extra_pages * page % 2 ^ 32 ≡ shift
    → sum (ehdr e.class_of) ≤ shift
    → sum (ehdr e.class_of) ≤ length e.contents
    → length e.contents < 2 ^ 32
    → length e.contents + shift ≤ e.max_size
    → hdr_get e e_shnum ≤ length e.shdrs
    → 1 ≤ length e.shdrs
    → hdr_get e e_phnum ≤ length e.phdrs
    → hdr_get e e_phnum + 1 < 2 ^ 16
    → (e' : Elf) × (shift_file page extra_pages start_page e ≡ ok e') × IsShifted shift e e'
shift_file-IsShifted page extra_pages start_page shift e pages gap header small room sections some
      segments counted_more =
    let r = replicate (shift - sum (ehdr e.class_of)) 0 ++ e.contents in
    let n = hdr_get e e_phnum in
    let same = with_shoff-with_bytes shift e r in
    let fits : n + 1 < 256 ^ 2 = omega (arith, counted_more) in
    let placed = hdr_put (with_shoff shift e r) e_phnum (n + 1) in
    let more = counted-phnum shift e r header (n + 1) fits in
    let (s, t, shifted, one_more, offsets) =
      shift_headers page extra_pages start_page shift e (with_rest e r)
        (with_shoff shift e r).contents pages (move_contents_lem shift e gap header small room) same
        (ap (λ x. hdr_get x e_shnum) (sym same) ∙ kept_shnum shift e r header)
        (ap (λ x. hdr_get x e_phnum) (sym same) ∙ kept_phnum shift e r header)
        (ap (λ x. hdr_get (hdr_put x e_phnum (n + 1)) e_phnum) (sym same) ∙ more) sections some
        segments in
    (
      with_phdrs (with_shdrs placed s) t,
      shifted ∙ ap (λ x. ok (with_phdrs (with_shdrs (hdr_put x e_phnum (n + 1)) s) t)) (sym same),
      record {
        behind_header = counted-behind shift e r header (n + 1) fits;
        program_table =
            with_tables-hdr_get placed s t e_phoff ∙ counted-phoff shift e r header (n + 1) fits;
        section_table =
            with_tables-hdr_get placed s t e_shoff ∙ counted-shoff shift e r header (n + 1) fits;
        segment_count = with_tables-hdr_get placed s t e_phnum ∙ more;
        segments = one_more;
        sections = offsets;
      },
    )
